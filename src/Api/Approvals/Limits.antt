-- ===== src/Api/Approvals/Limits.antt =====
-- What api/approvals.py lets no one do.
use recursive_self_improveme.Common.{
  ◌+◌, String, ◌≡◌, refl, sym, ap, ◌∙◌, subst, inl, inr, true, false, ◌&&◌, some, List, ◌∷◌, map,
  arith, Bool-cases, Option-cases, some_eq, length, All, ok, err, err_ne, Outcome-cases,
}
use recursive_self_improveme.Common.Json.{Bytes}
use recursive_self_improveme.Security.{Crypto}
use recursive_self_improveme.Selection.Authority.{
  tier_3, tier_value, tier_rejected, wrong_count, judge_evidence, require_two_person_approval,
  assert_phase2_admissible,
}
use recursive_self_improveme.Tenancy.Policy.{
  TenantEnvironment, research, production, is_production, TenantPolicyDocument,
  TenantPolicyRegistry, new_registry, policy_for, allows_tier, environment_for,
}
use recursive_self_improveme.Tenancy.Policy.Documents.{Coherent}
use recursive_self_improveme.Tenancy.Policy.Environments.{registry_parts, find_policy-All}
use recursive_self_improveme.Plugins.Privileged.{as_denied, admit_privileged, check_approvals}
use recursive_self_improveme.Api.Approvals.{
  Principal, tier4_promotion, parse_request_kind, ApprovalRequest, ApprovalDecision,
  AdmissionRecord, Board, find_request, require_proposal, request_decisions, approvals_in,
}
use recursive_self_improveme.Api.Approvals.Records.{text_of, is_promotion}
use recursive_self_improveme.Api.Approvals.Requests.{RequestSpec, allows_tier_4, create_request}
use recursive_self_improveme.Api.Approvals.Admissions.{
  as_refused, as_review_denied, evidence_of, admission_request, admit_promotion, admit_plugin,
  admitted_row, admit,
}
use recursive_self_improveme.Api.Approvals.Opening.{tier4_policy}
use recursive_self_improveme.Api.Approvals.Steps.{create-Created, admit-Admitted}

module _ (crypto : Crypto) (casefold : String → String) where
  three_refused :
      (request : ApprovalRequest) (a b c : ApprovalDecision) (rest : List ApprovalDecision)
      → request.tier ≡ tier_3
      → assert_phase2_admissible casefold request.tier
          (some (evidence_of request (a ∷ b ∷ c ∷ rest)))
        ≡ err (tier_rejected tier_3 (wrong_count (3 + length (map ApprovalDecision.approver rest))))
  unfolding assert_phase2_admissible judge_evidence require_two_person_approval tier_value
      evidence_of
  three_refused request a b c rest e = rw (e, assert_phase2_admissible) refl

  no_promotion :
      (board : Board) (request : ApprovalRequest) (a b c : ApprovalDecision)
      (rest : List ApprovalDecision) (record_id : String) (private : Bytes) (row : AdmissionRecord)
      → request.tier ≡ tier_3
      → admit_promotion crypto casefold board request (a ∷ b ∷ c ∷ rest) record_id private ≡ ok row
      → ⊥
  unfolding admit_promotion as_refused
  no_promotion board request a b c rest record_id private row t h =
      elim (Outcome-cases (
        require_proposal board request.tenant_id (text_of request.campaign_id)
          (text_of request.proposal_id))) [
            | inr e ↦ err_ne (rw (e.1, admit_promotion) at h)
            | inl p ↦
                err_ne
                  (rw (p.1, three_refused request a b c rest t, admit_promotion, as_refused) at h)
          ]

  no_plugin :
      (request : ApprovalRequest) (a b c : ApprovalDecision) (rest : List ApprovalDecision)
      (subject : String) (private : Bytes) (row : AdmissionRecord)
      → admit_plugin crypto casefold request (a ∷ b ∷ c ∷ rest) subject private ≡ ok row
      → ⊥
  unfolding admit_plugin as_review_denied admit_privileged check_approvals as_denied
  no_plugin request a b c rest subject private row h =
      elim (Outcome-cases (admission_request request)) [
        | inr e ↦ err_ne (rw (e.1, admit_plugin) at h)
        | inl r ↦ err_ne (rw (r.1, admit_plugin, admit_privileged, as_review_denied) at h)
      ]

  -- A request of tier 3, whether for a promotion or for a plugin, with three or more approvals is
  -- never admitted.
  pub third_approval :
      (principal : Principal) (request_id record_id subject : String) (private : Bytes)
      (board after : Board) (request : ApprovalRequest) (a b c : ApprovalDecision)
      (rest : List ApprovalDecision)
      → find_request principal.tenant_id request_id board.requests ≡ some request
      → request.tier ≡ tier_3
      → approvals_in (request_decisions principal.tenant_id request_id board.decisions)
        ≡ a ∷ b ∷ c ∷ rest
      → ¬ (admit crypto casefold principal request_id record_id subject private board ≡ ok after)
  unfolding admitted_row
  third_approval principal request_id record_id subject private board after request a b c rest f t d
        h =
      let m =
        admit-Admitted casefold crypto principal request_id record_id subject private board after
          h in
      let same = some_eq (sym f ∙ m.found) in
      let tier = ap ApprovalRequest.tier (sym same) ∙ t in
      let passed = rw d at (m.passed) in
      elim (Bool-cases (is_promotion m.request.kind)) [
        | inl k ↦
            no_promotion board m.request a b c rest record_id private m.row tier
              (rw (k, admitted_row) at passed)
        | inr k ↦
            no_plugin m.request a b c rest subject private m.row (rw (k, admitted_row) at passed)
      ]

not_none : false ≡ true → ⊥
not_none h = ground arith

found_policy :
    (registry : TenantPolicyRegistry) (tenant : String)
    → allows_tier_4 (policy_for registry tenant) ≡ true
    → (d : TenantPolicyDocument) × (policy_for registry tenant ≡ some d) × (allows_tier d 4 ≡ true)
unfolding allows_tier_4
found_policy registry tenant h = elim (Option-cases (policy_for registry tenant)) [
  | inl e ↦ elim (not_none (rw (e, allows_tier_4) at h)) [ ]
  | inr d ↦ (d.0, d.1, rw (d.1, allows_tier_4) at h)
]

in_research :
    (d : TenantPolicyDocument) → Coherent d → allows_tier d 4 ≡ true → d.environment ≡ research
unfolding allows_tier is_production
in_research d c h = outside d.environment (rw h at (c.tier_4_in_research))
  where
    outside : (e : TenantEnvironment) → (is_production e && true) ≡ false → e ≡ research
    outside research k = refl
    outside production k = elim (not_none (sym k)) [ ]

-- Where the tenants' documents are coherent, a tier-4 promotion is opened only by a research tenant.
pub create-research :
    (documents : List TenantPolicyDocument) (registry : TenantPolicyRegistry)
    (principal : Principal) (spec : RequestSpec) (id : String) (board after : Board)
    → new_registry documents ≡ ok registry
    → All Coherent documents
    → parse_request_kind spec.kind ≡ some tier4_promotion
    → create_request registry principal spec id board ≡ ok after
    → environment_for registry principal.tenant_id ≡ research
unfolding environment_for policy_for
create-research documents registry principal spec id board after n all k h =
    let c = create-Created registry principal spec id board after h in
    let judged = rw (some_eq (sym c.parsed ∙ k)) at (c.judged) in
    let d =
      found_policy registry principal.tenant_id
        (tier4_policy board registry principal.tenant_id spec c.tier judged) in
    let coherent =
      find_policy-All Coherent principal.tenant_id registry.by_tenant d.0 d.1
        (subst (All Coherent) (sym (registry_parts documents registry n).0) all) in
    rw (d.1, environment_for) (in_research d.0 coherent d.2)
