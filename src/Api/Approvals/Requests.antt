-- ===== src/Api/Approvals/Requests.antt =====
-- Opening and reading review-board requests: `create_request`, `get_request` and `list_requests` of
-- api/approvals.py. The identifier that a call draws is its argument.
use recursive_self_improveme.Common.{
  ℕ, String, Bool, true, false, ◌&&◌, ◌||◌, not, Option, none, some, List, [], ◌∷◌, ◌++◌, str_eq,
  leb, ◌==◌, if◌then◌else◌, opt_eq, Outcome, ok, ◌>>=◌, ◌>>◌,
}
use recursive_self_improveme.Common.Json.{codes, is_space}
use recursive_self_improveme.Selection.Authority.{
  AuthorityTier, tier_3, tier_value, approval_free_max_tier, of_classes, resolve_authority_tier,
}
use recursive_self_improveme.Plugins.Privileged.{parse_privileged_role, new_pinned_version}
use recursive_self_improveme.Tenancy.Policy.{
  TenantPolicyDocument, TenantPolicyRegistry, policy_for, allows_tier,
}
use recursive_self_improveme.Api.Approvals.{
  Principal, identity_id, RequestKind, privileged_admission, tier4_promotion, parse_request_kind,
  pending, ApprovalRequest, ApprovalDecision, ArtifactContent, Board, tier4_environment_refused,
  ApiError, invalid_spec, approval_denied, proposal_not_found, integrity_error, or_raise, raise_if,
  require_request, require_proposal, request_decisions,
}

abbrev pub privileged_admission_tier : AuthorityTier
privileged_admission_tier = tier_3

-- The arguments of `create_request`.
pub record RequestSpec : Type 0 where
  pub kind : String
  pub justification : String
  pub campaign_id : Option String
  pub proposal_id : Option String
  pub plugin_id : Option String
  pub content_digest : Option String
  pub privileged_role : Option String
  pub human_signoff : Bool
  pub manually_initiated : Bool

all_space : List ℕ → Bool
unfolding is_space
all_space [] = true
all_space (c ∷ cs) = is_space c && all_space cs

-- `not text.strip()`
unfoldable pub is_blank : String → Bool
unfolding all_space codes
is_blank text = all_space (codes text)

abbrev pub is_some : Option String → Bool
is_some none = false
is_some (some s) = true

-- `x`, if it is neither `None` nor empty.
unfoldable pub filled : Option String → Option String
filled none = none
filled (some s) = if str_eq s "" then none else some s

unfoldable pub require_privileged_target : RequestSpec → Outcome ApiError AuthorityTier
unfolding filled or_raise parse_privileged_role new_pinned_version
require_privileged_target spec =
    or_raise (invalid_spec "plugin_id") (filled spec.plugin_id) >>= λ plugin_id.
    or_raise (invalid_spec "content_digest") (filled spec.content_digest) >>= λ digest.
    or_raise (invalid_spec "privileged_role") (filled spec.privileged_role) >>= λ role.
    or_raise (invalid_spec "privileged_role must be a role") (parse_privileged_role role)
    >>= λ known.
        or_raise (invalid_spec "content_digest is not a pinned version")
          (new_pinned_version plugin_id digest)
        >>= λ pinned. ok privileged_admission_tier

unfoldable pub find_artifact : String → String → List ArtifactContent → Option ArtifactContent
find_artifact tenant digest [] = none
find_artifact tenant digest (a ∷ rest) =
    let others = find_artifact tenant digest rest in
    if str_eq a.tenant_id tenant && str_eq a.digest digest then some a else others

-- `_proposal_tier`
unfoldable pub proposal_tier : Board → String → String → String → Outcome ApiError AuthorityTier
unfolding require_proposal or_raise find_artifact resolve_authority_tier of_classes tier_value
proposal_tier board tenant campaign_id proposal_id =
    require_proposal board tenant campaign_id proposal_id >>= λ proposal.
    or_raise (proposal_not_found proposal_id)
      (find_artifact tenant proposal.proposed_digest board.artifacts)
    >>= λ artifact.
        let tier = resolve_authority_tier (of_classes (artifact.artifact_type ∷ [])) in
        raise_if (leb (tier_value tier) (tier_value approval_free_max_tier))
          (invalid_spec "approval is only for tier 3 and 4")
        >> ok tier

-- `policy is not None and policy.allows_tier(4)`
unfoldable pub allows_tier_4 : Option TenantPolicyDocument → Bool
unfolding allows_tier
allows_tier_4 none = false
allows_tier_4 (some policy) = allows_tier policy 4

-- `_require_tier4_admissible`
unfoldable pub require_tier4_admissible :
    TenantPolicyRegistry → String → AuthorityTier → RequestSpec → Outcome ApiError (Unit {0})
unfolding policy_for allows_tier_4 tier_value
require_tier4_admissible registry tenant tier spec =
    raise_if (not (tier_value tier == 4)) (invalid_spec "candidate does not resolve to tier 4")
    >> raise_if (not (allows_tier_4 (policy_for registry tenant)))
        (approval_denied tier4_environment_refused)
    >> raise_if (not (spec.human_signoff && spec.manually_initiated))
        (invalid_spec "the evidence chain is incomplete")

-- The legs that a promotion request of each kind may carry.
unfoldable pub check_legs :
    TenantPolicyRegistry
    → String
    → AuthorityTier
    → RequestSpec
    → RequestKind
    → Outcome ApiError (Unit {0})
unfolding require_tier4_admissible
check_legs registry tenant tier spec tier4_promotion =
    require_tier4_admissible registry tenant tier spec
check_legs registry tenant tier spec kind =
    raise_if (spec.human_signoff || spec.manually_initiated) (invalid_spec "tier-4 evidence legs")

-- The branch of a promotion request.
unfoldable pub promotion_tier :
    Board
    → TenantPolicyRegistry
    → String
    → RequestSpec
    → RequestKind
    → Outcome ApiError AuthorityTier
unfolding or_raise proposal_tier check_legs
promotion_tier board registry tenant spec kind =
    raise_if (is_some spec.plugin_id || is_some spec.content_digest || is_some spec.privileged_role)
      (invalid_spec "a promotion request does not target a plugin")
    >> or_raise (invalid_spec "campaign_id and proposal_id") spec.campaign_id
    >>= λ campaign_id.
        or_raise (invalid_spec "campaign_id and proposal_id") spec.proposal_id >>= λ proposal_id.
        proposal_tier board tenant campaign_id proposal_id >>= λ tier.
        check_legs registry tenant tier spec kind >> ok tier

unfoldable pub request_tier :
    Board
    → TenantPolicyRegistry
    → String
    → RequestSpec
    → RequestKind
    → Outcome ApiError AuthorityTier
unfolding require_privileged_target promotion_tier
request_tier board registry tenant spec privileged_admission =
    raise_if (spec.human_signoff || spec.manually_initiated) (invalid_spec "tier-4 evidence legs")
    >> require_privileged_target spec
    >>= λ tier.
        raise_if (is_some spec.campaign_id || is_some spec.proposal_id)
          (invalid_spec "a privileged-admission request does not target a candidate")
        >> ok tier
request_tier board registry tenant spec kind = promotion_tier board registry tenant spec kind

-- `request_id` is unique in its table.
unfoldable pub has_request_id : String → List ApprovalRequest → Bool
has_request_id id [] = false
has_request_id id (r ∷ rs) = str_eq r.request_id id || has_request_id id rs

unfoldable pub new_request :
    Principal → RequestSpec → RequestKind → AuthorityTier → String → ApprovalRequest
unfolding identity_id
new_request principal spec kind tier request_id = record {
  tenant_id = principal.tenant_id;
  request_id = request_id;
  kind = kind;
  campaign_id = spec.campaign_id;
  proposal_id = spec.proposal_id;
  plugin_id = spec.plugin_id;
  content_digest = spec.content_digest;
  privileged_role = spec.privileged_role;
  tier = tier;
  justification = spec.justification;
  requested_by = identity_id principal;
  human_signoff = spec.human_signoff;
  manually_initiated = spec.manually_initiated;
  status = pending;
}

unfoldable pub insert_request : Board → ApprovalRequest → Outcome ApiError Board
unfolding has_request_id
insert_request board request =
    raise_if (has_request_id request.request_id board.requests) (integrity_error request.request_id)
    >> ok (record board { requests = board.requests ++ request ∷ [] })

unfoldable pub create_request :
    TenantPolicyRegistry → Principal → RequestSpec → String → Board → Outcome ApiError Board
unfolding or_raise parse_request_kind is_blank request_tier new_request insert_request
create_request registry principal spec request_id board =
    or_raise (invalid_spec "request kind") (parse_request_kind spec.kind) >>= λ kind.
    raise_if (is_blank spec.justification) (invalid_spec "justification")
    >> request_tier board registry principal.tenant_id spec kind
    >>= λ tier. insert_request board (new_request principal spec kind tier request_id)

-- A request with its decisions.
unfoldable pub get_request :
    Board → Principal → String → Outcome ApiError (ApprovalRequest × List ApprovalDecision)
unfolding require_request request_decisions
get_request board principal request_id =
    require_request board principal.tenant_id request_id >>= λ request.
    ok (request, request_decisions principal.tenant_id request_id board.decisions)

unfoldable pub requests_of : String → Option String → List ApprovalRequest → List ApprovalRequest
requests_of tenant campaign_id [] = []
requests_of tenant campaign_id (r ∷ rs) =
    let rest = requests_of tenant campaign_id rs in
    if str_eq r.tenant_id tenant && (not (is_some campaign_id) || opt_eq r.campaign_id campaign_id)
    then r ∷ rest
    else rest

unfoldable pub list_requests : Board → Principal → Option String → List ApprovalRequest
unfolding requests_of
list_requests board principal campaign_id =
    requests_of principal.tenant_id campaign_id board.requests
