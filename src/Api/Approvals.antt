-- ===== src/Api/Approvals.antt =====
-- The review board: the tables of db/models/approvals.py and the helpers of api/approvals.py.
-- A table is the list of its rows in the order of their creation, without the columns of time and
-- the keys that the database draws. Each call is one transaction: a call that raises writes nothing.
-- The column `tier` holds the value of a tier. `casefold` stands for `str.casefold`.
pub mod Requests
pub mod Decisions
pub mod Records
pub mod Admissions
pub mod Lookup
pub mod Opening
pub mod Steps
pub mod Status
pub mod Invariant
pub mod Kept
pub mod People
pub mod Histories
pub mod Closing
pub mod Reviewed
pub mod Isolation
pub mod Signatures
pub mod Limits
mod Fixtures
mod Examples
use recursive_self_improveme.Common.{
  ℕ, zero, suc, ◌+◌, ◌-◌, ◌*◌, ◌/◌, ◌%◌, ◌≤◌, ◌<◌, min, max, String, ◌≡◌, refl, sym, ap, ◌∙◌, subst,
  ◌≢◌, ◌↔◌, ◌⊎◌, inl, inr, Bool, true, false, ◌&&◌, ◌||◌, not, Option, none, some, List, [], ◌∷◌,
  ◌++◌, map, arith, str_eq, str_eq_iff, ltb, leb, ◌==◌, if◌then◌else◌, ltb→lt, lt→ltb, leb→le,
  ==_iff, Bool-cases, Option-cases, some_eq, some_ne, opt_eq, opt_eq→eq, opt_eq_refl, length,
  length-append, is_empty, replicate, All, All-append, Any, Outcome, ok, err, ◌>>=◌, ◌>>◌, ok_eq,
  err_ne, Outcome-cases,
}
use recursive_self_improveme.Common.Json.{Bytes}
use recursive_self_improveme.Security.{WorkloadIdentity}
use recursive_self_improveme.Selection.Authority.{AuthorityTier, TierRejection, same_person}
use recursive_self_improveme.Plugins.Privileged.{ApprovalRecord, PrivilegedError}

-- core/principal.py
pub record Principal : Type 0 where
  pub identity : WorkloadIdentity
  pub tenant_id : String

unfoldable pub identity_id : Principal → String
identity_id p = p.identity.subject

pub data RequestKind : Type 0 where
  privileged_admission tier3_promotion tier4_promotion : RequestKind

unfoldable pub kind_value : RequestKind → String
kind_value privileged_admission = "privileged_admission"
kind_value tier3_promotion = "tier3_promotion"
kind_value tier4_promotion = "tier4_promotion"

-- `kind in REQUEST_KINDS`, and the kind.
unfoldable pub parse_request_kind : String → Option RequestKind
parse_request_kind kind =
    if str_eq kind "privileged_admission"
    then some privileged_admission
    else if str_eq kind "tier3_promotion"
    then some tier3_promotion
    else if str_eq kind "tier4_promotion"
    then some tier4_promotion
    else none

pub data RequestStatus : Type 0 where
  pending approved rejected admitted : RequestStatus

pub data DecisionKind : Type 0 where
  approve reject : DecisionKind

-- `decision in DECISION_KINDS`, and the decision.
unfoldable pub parse_decision : String → Option DecisionKind
parse_decision decision =
    if str_eq decision "approve"
    then some approve
    else if str_eq decision "reject"
    then some reject
    else none

pub record ApprovalRequest : Type 0 where
  pub tenant_id : String
  pub request_id : String
  pub kind : RequestKind
  pub campaign_id : Option String
  pub proposal_id : Option String
  pub plugin_id : Option String
  pub content_digest : Option String
  pub privileged_role : Option String
  pub tier : AuthorityTier
  pub justification : String
  pub requested_by : String
  pub human_signoff : Bool
  pub manually_initiated : Bool
  pub status : RequestStatus

pub record ApprovalDecision : Type 0 where
  pub tenant_id : String
  pub decision_id : String
  pub request_id : String
  pub decision : DecisionKind
  pub approver : String
  pub approver_role : String
  pub note : String

pub record AdmissionRecord : Type 0 where
  pub tenant_id : String
  pub record_id : String
  pub request_id : String
  pub kind : RequestKind
  pub decision : String
  pub plugin_id : Option String
  pub content_digest : Option String
  pub privileged_role : Option String
  pub proposal_digest : Option String
  pub tier : AuthorityTier
  pub requested_by : String
  pub request_digest : Option String
  pub approvals : List ApprovalRecord
  pub signature : Bytes
  pub signer_public_key : Bytes

pub record ProposalRecord : Type 0 where
  pub tenant_id : String
  pub proposal_id : String
  pub proposed_digest : String
  pub campaign_id : Option String

pub record ArtifactContent : Type 0 where
  pub tenant_id : String
  pub digest : String
  pub artifact_type : String

-- The tables that the review board reads and writes.
pub record Board : Type 0 where
  pub requests : List ApprovalRequest
  pub decisions : List ApprovalDecision
  pub admissions : List AdmissionRecord
  pub proposals : List ProposalRecord
  pub artifacts : List ArtifactContent

-- Why a review is refused: the first argument of `ApprovalDeniedError`.
pub data ReviewDenial : Type 0 where
  review_closed self_approval duplicate_approver : ReviewDenial
  already_admitted review_rejected review_not_approved tier4_environment_refused : ReviewDenial
  privileged_denied : PrivilegedError → ReviewDenial

pub data ApiError : Type 0 where
  invalid_spec : String → ApiError
  approval_denied : ReviewDenial → ApiError
  request_not_found decision_not_found admission_not_found proposal_not_found : String → ApiError
  tier_promotion_refused : AuthorityTier → TierRejection → ApiError
  integrity_error : String → ApiError

-- A value, or the exception for a missing row.
unfoldable pub or_raise : {A : Type 0} → ApiError → Option A → Outcome ApiError A
or_raise e none = err e
or_raise e (some a) = ok a

-- `if test: raise e`
abbrev pub raise_if : Bool → ApiError → Outcome ApiError (Unit {0})
raise_if true e = err e
raise_if false e = ok tt

unfoldable pub find_request : String → String → List ApprovalRequest → Option ApprovalRequest
find_request tenant id [] = none
find_request tenant id (r ∷ rs) =
    let rest = find_request tenant id rs in
    if str_eq r.tenant_id tenant && str_eq r.request_id id then some r else rest

unfoldable pub require_request : Board → String → String → Outcome ApiError ApprovalRequest
unfolding find_request or_raise
require_request board tenant id =
    or_raise (request_not_found id) (find_request tenant id board.requests)

unfoldable pub find_proposal : String → String → List ProposalRecord → Option ProposalRecord
find_proposal tenant id [] = none
find_proposal tenant id (p ∷ ps) =
    let rest = find_proposal tenant id ps in
    if str_eq p.tenant_id tenant && str_eq p.proposal_id id then some p else rest

unfoldable pub require_proposal : Board → String → String → String → Outcome ApiError ProposalRecord
unfolding find_proposal or_raise
require_proposal board tenant campaign_id id =
    or_raise (proposal_not_found id) (find_proposal tenant id board.proposals) >>= λ proposal.
    raise_if (not (opt_eq proposal.campaign_id (some campaign_id)))
      (invalid_spec "candidate of another campaign")
    >> ok proposal

unfoldable pub is_request_of : String → String → ApprovalDecision → Bool
is_request_of tenant id d = str_eq d.tenant_id tenant && str_eq d.request_id id

-- `_request_decisions`
unfoldable pub request_decisions : String → String → List ApprovalDecision → List ApprovalDecision
unfolding is_request_of
request_decisions tenant id [] = []
request_decisions tenant id (d ∷ ds) =
    let rest = request_decisions tenant id ds in
    if is_request_of tenant id d then d ∷ rest else rest

unfoldable pub is_approve : DecisionKind → Bool
is_approve approve = true
is_approve reject = false

-- `rows_where(decisions, "approve")`
unfoldable pub approvals_in : List ApprovalDecision → List ApprovalDecision
unfolding is_approve
approvals_in [] = []
approvals_in (d ∷ ds) =
    let rest = approvals_in ds in if is_approve d.decision then d ∷ rest else rest

unfoldable pub any_reject : List ApprovalDecision → Bool
unfolding is_approve
any_reject [] = false
any_reject (d ∷ ds) = not (is_approve d.decision) || any_reject ds

-- The row with this status.
unfoldable pub set_status :
    String → String → RequestStatus → List ApprovalRequest → List ApprovalRequest
set_status tenant id status [] = []
set_status tenant id status (r ∷ rs) =
    let rest = set_status tenant id status rs in
    if str_eq r.tenant_id tenant && str_eq r.request_id id
    then (record r { status = status }) ∷ rest
    else r ∷ rest
