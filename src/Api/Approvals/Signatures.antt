-- ===== src/Api/Approvals/Signatures.antt =====
-- The signed record that an admission of api/approvals.py leaves.
use recursive_self_improveme.Common.{
  String, ◌≡◌, refl, sym, ap, ◌∙◌, subst, inl, inr, true, false, ◌&&◌, not, Option, none, some,
  List, [], ◌∷◌, ◌++◌, map, arith, str_eq, str_eq_iff, Bool-cases, Option-cases, some_eq, some_ne,
  ok, ok_eq, err_ne, Outcome-cases,
}
use recursive_self_improveme.Common.Json.{Bytes, str, null_or, codes}
use recursive_self_improveme.Security.{Crypto, WorkloadIdentity, evaluator, sign, verify}
use recursive_self_improveme.Selection.Authority.{assert_phase2_admissible}
use recursive_self_improveme.Plugins.Privileged.{
  PinnedVersion, new_pinned_version, PrivilegedRole, privileged_role_value, parse_privileged_role,
  matches_digest, AdmissionRequest, SignedAdmissionRecord, signed_bytes, unsigned_record,
  sign_record, admit_privileged, verify_admission_record,
}
use recursive_self_improveme.Plugins.Privileged.TwoPersons.{admitted_record_iff, verify-sign_record}
use recursive_self_improveme.Api.Approvals.{
  Principal, RequestKind, tier4_promotion, ApprovalRequest, ApprovalDecision, AdmissionRecord,
  Board, or_raise, require_proposal, request_decisions, approvals_in,
}
use recursive_self_improveme.Api.Approvals.Records.{
  text_of, is_promotion, approval_record, promotion_row, privileged_row, row_verifies,
  verify_admission_signature,
}
use recursive_self_improveme.Api.Approvals.Requests.{is_some}
use recursive_self_improveme.Api.Approvals.Admissions.{
  as_refused, as_review_denied, evidence_of, admission_request, admit_promotion, admit_plugin,
  admitted_row, admit,
}
use recursive_self_improveme.Api.Approvals.Opening.{Targeted}
use recursive_self_improveme.Api.Approvals.Steps.{admit-Admitted}
use recursive_self_improveme.Api.Approvals.Invariant.{Sound, lookup-SoundRequest}
use recursive_self_improveme.Api.Approvals.Reviewed.{
  records_approvers, kind-cases, plugin_kind, tier3_kind,
}

null-text : (o : Option String) → is_some o ≡ true → null_or o ≡ str (text_of o)
unfolding text_of
null-text none h = ground arith
null-text (some s) h = refl

role-value :
    (s : String) (k : PrivilegedRole)
    → parse_privileged_role s ≡ some k
    → privileged_role_value k ≡ s
unfolding parse_privileged_role privileged_role_value
role-value s k h = ground (arith, str_eq_iff s "adapter", str_eq_iff s "evaluator")

pinned_lem :
    (plugin digest : String) (p : PinnedVersion)
    → new_pinned_version plugin digest ≡ some p
    → (p.plugin_id ≡ plugin) × (p.digest ≡ digest)
unfolding new_pinned_version
pinned_lem plugin digest p h =
    elim (Bool-cases (not (str_eq plugin "") && matches_digest (codes "sha256:") (codes digest))) [
      | inl e ↦
          let f = some_eq (rw (e, new_pinned_version) at h) in
          (ap PinnedVersion.plugin_id (sym f), ap PinnedVersion.digest (sym f))
      | inr e ↦ elim (some_ne (sym (rw (e, new_pinned_version) at h))) [ ]
    ]

-- What the request that is handed to the gate has from its row.
record Handed (request : ApprovalRequest) (r : AdmissionRequest) : Type 0 where
  plugin : r.pinned.plugin_id ≡ text_of request.plugin_id
  pin : r.pinned.digest ≡ text_of request.content_digest
  role : privileged_role_value r.privileged_role ≡ text_of request.privileged_role

request-Handed :
    (request : ApprovalRequest) (r : AdmissionRequest)
    → admission_request request ≡ ok r
    → Handed request r
unfolding admission_request or_raise
request-Handed request r h =
    elim (Option-cases
      (new_pinned_version (text_of request.plugin_id) (text_of request.content_digest))) [
        | inl e ↦ elim (err_ne (rw (e, admission_request) at h)) [ ]
        | inr p ↦ elim (Option-cases (parse_privileged_role (text_of request.privileged_role))) [
          | inl e ↦ elim (err_ne (rw (p.1, e, admission_request) at h)) [ ]
          | inr k ↦
              let n =
                pinned_lem (text_of request.plugin_id) (text_of request.content_digest) p.0 p.1 in
              subst (Handed request) (ok_eq (rw (p.1, k.1, admission_request) at h)) (record {
                plugin = n.0;
                pin = n.1;
                role = role-value (text_of request.privileged_role) k.0 k.1;
              })
        ]
      ]

tier4_kind : {k : RequestKind} → k ≡ tier4_promotion → is_promotion k ≡ true
unfolding is_promotion
tier4_kind e = ap is_promotion e

module _ (crypto : Crypto) where
  promotion_row-verifies :
      (request : ApprovalRequest) (approvals : List ApprovalDecision) (pd record_id : String)
      (private : Bytes) (q : Option AdmissionRequest)
      → is_promotion request.kind ≡ true
      → verify_admission_signature crypto
          (promotion_row crypto request approvals pd record_id private)
          q
        ≡ true
  unfolding verify_admission_signature promotion_row row_verifies sign verify text_of
  promotion_row-verifies request approvals pd record_id private q k =
      rw (k, records_approvers approvals) (crypto.signed_verifies private _)

  privileged_row-verifies :
      (request : ApprovalRequest) (signed : SignedAdmissionRecord) (q : AdmissionRequest)
      → is_promotion request.kind ≡ false
      → null_or request.plugin_id ≡ str signed.admitted_version.plugin_id
      → null_or request.content_digest ≡ str signed.admitted_version.digest
      → null_or request.privileged_role ≡ str (privileged_role_value signed.privileged_role)
      → signed.decision ≡ "admitted"
      → verify_admission_signature crypto (privileged_row request signed) (some q)
        ≡ verify_admission_record crypto signed
  unfolding verify_admission_signature privileged_row row_verifies verify_admission_record
      signed_bytes
  privileged_row-verifies request signed q k p d r a = rw (k, p, d, r, a) refl

  promotion-verifies :
      (casefold : String → String) (board : Board) (request : ApprovalRequest)
      (approvals : List ApprovalDecision) (record_id : String) (private : Bytes)
      (row : AdmissionRecord) (q : AdmissionRequest)
      → is_promotion request.kind ≡ true
      → admit_promotion crypto casefold board request approvals record_id private ≡ ok row
      → verify_admission_signature crypto row (some q) ≡ true
  unfolding admit_promotion
  promotion-verifies casefold board request approvals record_id private row q k h =
      elim (Outcome-cases (
        require_proposal board request.tenant_id (text_of request.campaign_id)
          (text_of request.proposal_id))) [
            | inr e ↦ elim (err_ne (rw (e.1, admit_promotion) at h)) [ ]
            | inl p ↦
                elim (Outcome-cases (
                  as_refused (
                    assert_phase2_admissible casefold request.tier
                      (some (evidence_of request approvals))))) [
                        | inr e ↦ elim (err_ne (rw (p.1, e.1, admit_promotion) at h)) [ ]
                        | inl a ↦
                            subst (λ x. verify_admission_signature crypto x (some q) ≡ true)
                              (ok_eq (rw (p.1, a.1, admit_promotion) at h))
                              (promotion_row-verifies request approvals p.0.proposed_digest
                                record_id private (some q) k)
                      ]
          ]

  plugin-verifies :
      (casefold : String → String) (request : ApprovalRequest) (approvals : List ApprovalDecision)
      (subject : String) (private : Bytes) (row : AdmissionRecord) (q : AdmissionRequest)
      → is_promotion request.kind ≡ false
      → (is_some request.plugin_id ≡ true)
        × (is_some request.content_digest ≡ true)
        × (is_some request.privileged_role ≡ true)
      → admit_plugin crypto casefold request approvals subject private ≡ ok row
      → verify_admission_signature crypto row (some q) ≡ true
  unfolding admit_plugin as_review_denied unsigned_record sign_record
  plugin-verifies casefold request approvals subject private row q k t h =
      elim (Outcome-cases (admission_request request)) [
        | inr e ↦ elim (err_ne (rw (e.1, admit_plugin) at h)) [ ]
        | inl r ↦
            let signer : WorkloadIdentity = record { role = evaluator; subject = subject } in
            let records = map approval_record approvals in
            elim (Outcome-cases (admit_privileged crypto casefold r.0 records signer private)) [
              | inr e ↦ elim (err_ne (rw (r.1, e.1, admit_plugin, as_review_denied) at h)) [ ]
              | inl a ↦
                  let n = request-Handed request r.0 r.1 in
                  let made =
                    ((admitted_record_iff casefold crypto r.0 records signer private a.0).0
                      a.1).2 in
                  let signed = sign_record crypto (unsigned_record crypto r.0 records) private in
                  subst (λ x. verify_admission_signature crypto x (some q) ≡ true)
                    (ap (privileged_row request) (sym made)
                      ∙ ok_eq (rw (r.1, a.1, admit_plugin, as_review_denied) at h))
                    (privileged_row-verifies request signed q k
                        (null-text request.plugin_id t.0 ∙ ap str (sym n.plugin))
                        (null-text request.content_digest t.1 ∙ ap str (sym n.pin))
                        (null-text request.privileged_role t.2 ∙ ap str (sym n.role)) refl
                      ∙ verify-sign_record casefold crypto (unsigned_record crypto r.0 records)
                          private)
            ]
      ]

  -- An admission on a sound board appends one record, and the check of its signature accepts it.
  pub admit-verifies :
      (casefold : String → String) (principal : Principal) (request_id record_id subject : String)
      (private : Bytes) (board after : Board) (q : AdmissionRequest)
      → Sound casefold board
      → admit crypto casefold principal request_id record_id subject private board ≡ ok after
      → (row : AdmissionRecord) × (after.admissions ≡ board.admissions ++ row ∷ [])
        × (verify_admission_signature crypto row (some q) ≡ true)
  unfolding admitted_row
  admit-verifies casefold principal request_id record_id subject private board after q s h =
      let a =
        admit-Admitted casefold crypto principal request_id record_id subject private board after
          h in
      let r = a.request in
      let sound = lookup-SoundRequest casefold board principal.tenant_id request_id r s a.found in
      let approvals =
        approvals_in (request_decisions principal.tenant_id request_id board.decisions) in
      (
        a.row,
        ap Board.admissions a.written,
        elim (kind-cases r.kind) [
          | inl k ↦
              plugin-verifies casefold r approvals subject private a.row q (plugin_kind k)
                (subst (λ x. Targeted x r.plugin_id r.content_digest r.privileged_role) k
                  sound.targeted)
                (rw (plugin_kind k, admitted_row) at (a.passed))
          | inr (inl k) ↦
              promotion-verifies casefold board r approvals record_id private a.row q (tier3_kind k)
                (rw (tier3_kind k, admitted_row) at (a.passed))
          | inr (inr k) ↦
              promotion-verifies casefold board r approvals record_id private a.row q (tier4_kind k)
                (rw (tier4_kind k, admitted_row) at (a.passed))
        ],
      )
