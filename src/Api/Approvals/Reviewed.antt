-- ===== src/Api/Approvals/Reviewed.antt =====
-- What the review was that an admission of api/approvals.py stands on.
use recursive_self_improveme.Common.{
  ℕ, ◌≤◌, ◌<◌, String, ◌≡◌, refl, sym, ap, subst, ◌≢◌, ◌⊎◌, inl, inr, Bool, true, false, some, List,
  [], ◌∷◌, map, arith, Option-cases, All, Any, ok, err, ◌>>◌, ok_eq, err_ne, Outcome-cases,
}
use recursive_self_improveme.Common.Json.{Bytes}
use recursive_self_improveme.Security.{Crypto, WorkloadIdentity, evaluator}
use recursive_self_improveme.Selection.Authority.{
  AuthorityTier, tier_1, tier_2, tier_3, tier_4, tier_value, TierRejected, tier_rejected,
  assert_phase2_admissible,
}
use recursive_self_improveme.Selection.Authority.Admission.{
  TwoPersons, requested, Admissible, assert_phase2_admissible_iff,
}
use recursive_self_improveme.Plugins.Privileged.{
  AdmissionRequest, ApprovalRecord, admit_privileged, new_pinned_version, parse_privileged_role,
}
use recursive_self_improveme.Plugins.Privileged.TwoPersons.{admitted_record_iff}
use recursive_self_improveme.Api.Approvals.{
  Principal, RequestKind, privileged_admission, tier3_promotion, tier4_promotion, RequestStatus,
  pending, approved, rejected, admitted, ApprovalRequest, ApprovalDecision, AdmissionRecord, Board,
  or_raise, find_request, require_proposal, request_decisions, approvals_in, any_reject,
}
use recursive_self_improveme.Api.Approvals.Records.{text_of, is_promotion, approval_record}
use recursive_self_improveme.Api.Approvals.Admissions.{
  is_approved, is_tier4, may_admit, as_refused, as_review_denied, evidence_of, admission_request,
  admit_promotion, admit_plugin, admitted_row, admit,
}
use recursive_self_improveme.Api.Approvals.Lookup.{find_request-eq}
use recursive_self_improveme.Api.Approvals.Opening.{Opened}
use recursive_self_improveme.Api.Approvals.Status.{Settled}
use recursive_self_improveme.Api.Approvals.People.{TwoPeople, people-TwoPeople}
use recursive_self_improveme.Api.Approvals.Steps.{admit-Admitted}
use recursive_self_improveme.Api.Approvals.Invariant.{
  ByOthers, SoundRequest, Sound, lookup-SoundRequest, unrejected,
}

pub kind-cases :
    (k : RequestKind) → (k ≡ privileged_admission) ⊎ (k ≡ tier3_promotion) ⊎ (k ≡ tier4_promotion)
kind-cases privileged_admission = inl refl
kind-cases tier3_promotion = inr (inl refl)
kind-cases tier4_promotion = inr (inr refl)

pub plugin_kind : {k : RequestKind} → k ≡ privileged_admission → is_promotion k ≡ false
unfolding is_promotion
plugin_kind e = ap is_promotion e

pub tier3_kind : {k : RequestKind} → k ≡ tier3_promotion → is_promotion k ≡ true
unfolding is_promotion
tier3_kind e = ap is_promotion e

pub records_approvers :
    (ds : List ApprovalDecision)
    → map ApprovalRecord.approver (map approval_record ds) ≡ map ApprovalDecision.approver ds
unfolding approval_record
records_approvers [] = refl
records_approvers (d ∷ ds) = ap (λ xs. d.approver ∷ xs) (records_approvers ds)

request_requester :
    (request : ApprovalRequest) (r : AdmissionRequest)
    → admission_request request ≡ ok r
    → r.requested_by ≡ request.requested_by
unfolding admission_request or_raise
request_requester request r h =
    elim (Option-cases
      (new_pinned_version (text_of request.plugin_id) (text_of request.content_digest))) [
        | inl e ↦ elim (err_ne (rw (e, admission_request) at h)) [ ]
        | inr p ↦ elim (Option-cases (parse_privileged_role (text_of request.privileged_role))) [
          | inl e ↦ elim (err_ne (rw (p.1, e, admission_request) at h)) [ ]
          | inr k ↦
              ap AdmissionRequest.requested_by (sym (ok_eq (rw (p.1, k.1, admission_request) at h)))
        ]
      ]

low : {n : ℕ} → 2 < n → n ≤ 2 → ⊥
low h k = omega (arith, h, k)

pub refused :
    (e : TierRejected) (v : AdmissionRecord) {row : AdmissionRecord}
    → (as_refused (err e) >> ok v) ≡ ok row
    → ⊥
unfolding as_refused
refused (tier_rejected t reason) v h = err_ne h

opposite : {b : Bool} → b ≡ true → b ≡ false → ⊥
opposite h k = ground arith

module _ (casefold : String → String) where
  two_people :
      (requester : String) (ds : List ApprovalDecision)
      → TwoPersons casefold (some requester) (map ApprovalDecision.approver ds)
      → TwoPeople casefold ds
  two_people requester [] p = elim p [ ]
  two_people requester (a ∷ []) p = elim p [ ]
  two_people requester (a ∷ b ∷ c ∷ rest) p = elim p [ ]
  two_people requester (a ∷ b ∷ []) (requested d f g) = record {
    first = a;
    second = b;
    in_first = inl refl;
    in_second = inr (inl refl);
    different = d;
  }

  by_tier :
      (tier : AuthorityTier) (request : ApprovalRequest) (ds : List ApprovalDecision)
      → Opened tier3_promotion tier request.human_signoff request.manually_initiated
      → Admissible casefold tier (evidence_of request ds)
      → TwoPeople casefold ds
  unfolding evidence_of tier_value
  by_tier tier_1 request ds o h = elim (low o.0 (omega arith)) [ ]
  by_tier tier_2 request ds o h = elim (low o.0 (omega arith)) [ ]
  by_tier tier_3 request ds o h = two_people request.requested_by ds h
  by_tier tier_4 request ds o h = elim (opposite h.0 o.1) [ ]

  promotion_people :
      (crypto : Crypto) (board : Board) (request : ApprovalRequest) (ds : List ApprovalDecision)
      (record_id : String) (private : Bytes) (row : AdmissionRecord)
      → Opened tier3_promotion request.tier request.human_signoff request.manually_initiated
      → admit_promotion crypto casefold board request ds record_id private ≡ ok row
      → TwoPeople casefold ds
  unfolding admit_promotion as_refused
  promotion_people crypto board request ds record_id private row o h =
      elim (Outcome-cases (
        require_proposal board request.tenant_id (text_of request.campaign_id)
          (text_of request.proposal_id))) [
            | inr e ↦ elim (err_ne (rw (e.1, admit_promotion) at h)) [ ]
            | inl p ↦
                elim (Outcome-cases (
                  assert_phase2_admissible casefold request.tier (some (evidence_of request ds)))) [
                    | inl a ↦ by_tier request.tier request ds o (
                        (assert_phase2_admissible_iff casefold request.tier
                            (evidence_of request ds)).0
                          a.1)
                    | inr e ↦ elim (refused e.0 _ (rw (p.1, e.1, admit_promotion) at h)) [ ]
                  ]
          ]

  plugin_people :
      (crypto : Crypto) (request : ApprovalRequest) (ds : List ApprovalDecision) (subject : String)
      (private : Bytes) (row : AdmissionRecord)
      → admit_plugin crypto casefold request ds subject private ≡ ok row
      → TwoPeople casefold ds
  unfolding admit_plugin as_review_denied
  plugin_people crypto request ds subject private row h =
      elim (Outcome-cases (admission_request request)) [
        | inr e ↦ elim (err_ne (rw (e.1, admit_plugin) at h)) [ ]
        | inl r ↦
            let signer : WorkloadIdentity = record { role = evaluator; subject = subject } in
            let records = map approval_record ds in
            elim (Outcome-cases (admit_privileged crypto casefold r.0 records signer private)) [
              | inr e ↦ elim (err_ne (rw (r.1, e.1, admit_plugin, as_review_denied) at h)) [ ]
              | inl a ↦
                  let p =
                    ((admitted_record_iff casefold crypto r.0 records signer private a.0).0
                      a.1).1 in
                  two_people r.0.requested_by ds
                    (subst (TwoPersons casefold (some r.0.requested_by)) (records_approvers ds) p)
            ]
      ]

  -- Two different persons approved in the list, neither of them the requester.
  pub record Reviewed (requester : String) (ds : List ApprovalDecision) : Type 0 where
    pub people : TwoPeople casefold ds
    pub not_first : casefold people.first.approver ≢ casefold requester
    pub not_second : casefold people.second.approver ≢ casefold requester

  member :
      (P : ApprovalDecision → Type 0) (ds : List ApprovalDecision) (d : ApprovalDecision)
      → All P ds
      → Any (λ e. e ≡ d) ds
      → P d
  member P [] d h m = elim m [ ]
  member P (x ∷ xs) d h (inl e) = subst P e h.0
  member P (x ∷ xs) d h (inr m) = member P xs d h.1 m

  reviewed :
      (requester : String) (ds : List ApprovalDecision)
      → ByOthers casefold requester ds
      → TwoPeople casefold ds
      → Reviewed requester ds
  reviewed requester ds o t = record {
    people = t;
    not_first = member (λ d. casefold d.approver ≢ casefold requester) ds t.first o t.in_first;
    not_second = member (λ d. casefold d.approver ≢ casefold requester) ds t.second o t.in_second;
  }

  approved_people :
      (ds : List ApprovalDecision) (status : RequestStatus)
      → may_admit status tier4_promotion ≡ ok tt
      → Settled casefold ds status
      → TwoPeople casefold (approvals_in ds)
  unfolding may_admit is_approved is_tier4
  approved_people ds pending m h = elim (err_ne m) [ ]
  approved_people ds approved m h = people-TwoPeople casefold (approvals_in ds) h.1
  approved_people ds rejected m h = elim (err_ne m) [ ]
  approved_people ds admitted m h = elim (err_ne m) [ ]

  row_people :
      (crypto : Crypto) (board : Board) (request : ApprovalRequest) (ds : List ApprovalDecision)
      (record_id subject : String) (private : Bytes) (row : AdmissionRecord)
      → SoundRequest casefold board.decisions request
      → ds ≡ request_decisions request.tenant_id request.request_id board.decisions
      → may_admit request.status request.kind ≡ ok tt
      → admitted_row crypto casefold board request (approvals_in ds) record_id subject private
        ≡ ok row
      → TwoPeople casefold (approvals_in ds)
  unfolding admitted_row
  row_people crypto board request ds record_id subject private row s e m h =
      elim (kind-cases request.kind) [
        | inl k ↦
            plugin_people crypto request (approvals_in ds) subject private row
              (rw (plugin_kind k, admitted_row) at h)
        | inr (inl k) ↦
            promotion_people crypto board request (approvals_in ds) record_id private row
              (rw k at (s.opened)) (rw (tier3_kind k, admitted_row) at h)
        | inr (inr k) ↦
            approved_people ds request.status (rw k at m)
              (subst (λ xs. Settled casefold xs request.status) (sym e) s.settled)
      ]

  -- An admission, on a sound board, of any kind: no one rejected the request that is admitted, and two
  -- different persons approved it, neither of them its requester.
  pub admit-Reviewed :
      (crypto : Crypto) (principal : Principal) (request_id record_id subject : String)
      (private : Bytes) (board after : Board)
      → Sound casefold board
      → admit crypto casefold principal request_id record_id subject private board ≡ ok after
      → (r : ApprovalRequest) × (find_request principal.tenant_id request_id board.requests
          ≡ some r)
        × (any_reject (request_decisions r.tenant_id r.request_id board.decisions) ≡ false)
        × Reviewed r.requested_by
            (approvals_in (request_decisions r.tenant_id r.request_id board.decisions))
  admit-Reviewed crypto principal request_id record_id subject private board after s h =
      let a =
        admit-Admitted casefold crypto principal request_id record_id subject private board after
          h in
      let r = a.request in
      let q = lookup-SoundRequest casefold board principal.tenant_id request_id r s a.found in
      let ds = request_decisions r.tenant_id r.request_id board.decisions in
      let e = find_request-eq principal.tenant_id request_id board.requests r a.found in
      (
        r,
        a.found,
        unrejected casefold ds r.status r.kind a.allowed q.settled,
        reviewed r.requested_by (approvals_in ds) q.by_others (
            row_people crypto board r ds record_id subject private a.row q refl a.allowed
              (rw (sym e.0, sym e.1) at (a.passed))),
      )
