-- ===== src/Api/Approvals/Steps.antt =====
-- What a call of api/approvals.py has found and written when it returns.
use recursive_self_improveme.Common.{
  String, ◌≡◌, sym, inl, inr, false, ◌&&◌, none, some, [], ◌∷◌, ◌++◌, Bool-cases, Option-cases, ok,
  ◌>>◌, ok_eq, err_ne, Outcome-cases,
}
use recursive_self_improveme.Common.Json.{Bytes}
use recursive_self_improveme.Security.{Crypto}
use recursive_self_improveme.Selection.Authority.{AuthorityTier, same_person}
use recursive_self_improveme.Tenancy.Policy.{TenantPolicyRegistry}
use recursive_self_improveme.Api.Approvals.{
  Principal, identity_id, RequestKind, DecisionKind, parse_decision, is_approve, ApprovalRequest,
  AdmissionRecord, Board, or_raise, raise_if, integrity_error, find_request, require_request,
  request_decisions, approvals_in, admitted, set_status, parse_request_kind,
}
use recursive_self_improveme.Api.Approvals.Requests.{
  RequestSpec, request_tier, new_request, has_request_id, insert_request, create_request, is_blank,
}
use recursive_self_improveme.Api.Approvals.Decisions.{
  is_closed, find_decision, new_decision, record_decision, may_decide, decide, has_decision_id,
}
use recursive_self_improveme.Api.Approvals.Admissions.{
  may_admit, admitted_row, has_record_id, record_admission, admit,
}

-- `create_request`: the tier was judged, and the request was added under a fresh identifier.
pub record Created (registry : TenantPolicyRegistry) (principal : Principal) (spec : RequestSpec)
    (id : String) (board after : Board) : Type 0 where
  pub kind : RequestKind
  pub tier : AuthorityTier
  pub parsed : parse_request_kind spec.kind ≡ some kind
  pub judged : request_tier board registry principal.tenant_id spec kind ≡ ok tier
  pub fresh : has_request_id id board.requests ≡ false
  pub added :
      after
      ≡ record board { requests = board.requests ++ new_request principal spec kind tier id ∷ [] }

pub create-Created :
    (registry : TenantPolicyRegistry) (principal : Principal) (spec : RequestSpec) (id : String)
    (board after : Board)
    → create_request registry principal spec id board ≡ ok after
    → Created registry principal spec id board after
unfolding create_request insert_request or_raise
create-Created registry principal spec id board after h =
    elim (Option-cases (parse_request_kind spec.kind)) [
      | inl e ↦ elim (err_ne (rw (e, create_request) at h)) [ ]
      | inr k ↦ elim (Bool-cases (is_blank spec.justification)) [
        | inl b ↦ elim (err_ne (rw (k.1, b, create_request) at h)) [ ]
        | inr b ↦ elim (Outcome-cases (request_tier board registry principal.tenant_id spec k.0)) [
          | inr e ↦ elim (err_ne (rw (k.1, b, e.1, create_request) at h)) [ ]
          | inl t ↦ elim (Bool-cases (has_request_id id board.requests)) [
            | inl f ↦ elim (err_ne (rw (k.1, b, t.1, f, create_request, insert_request) at h)) [ ]
            | inr f ↦
                let e = rw (k.1, b, t.1, f, create_request, insert_request) at h in
                record {
                  kind = k.0;
                  tier = t.0;
                  parsed = k.1;
                  judged = t.1;
                  fresh = f;
                  added = sym (ok_eq e);
                }
          ]
        ]
      ]
    ]

module _ (casefold : String → String) where
  -- `decide`: the request is open, the caller has not decided it, and does not approve a request of
  -- their own.
  pub record Decided (principal : Principal) (request_id note decision_id : String)
      (board after : Board) : Type 0 where
    pub kind : DecisionKind
    pub request : ApprovalRequest
    pub found : find_request principal.tenant_id request_id board.requests ≡ some request
    pub is_open : is_closed request.status ≡ false
    pub not_own :
        is_approve kind && same_person casefold (identity_id principal) request.requested_by ≡ false
    pub first :
        find_decision principal.tenant_id request.request_id (identity_id principal) board.decisions
        ≡ none
    pub written :
        after
        ≡ record_decision casefold request
            (new_decision principal request_id kind note decision_id)
            board

  decided :
      (kind : DecisionKind) (request : ApprovalRequest) (principal : Principal)
      (request_id note decision_id : String) (board after : Board)
      → find_request principal.tenant_id request_id board.requests ≡ some request
      → (may_decide casefold principal request kind board
          >> raise_if (has_decision_id decision_id board.decisions) (integrity_error decision_id)
          >> ok (
              record_decision casefold request
                (new_decision principal request_id kind note decision_id)
                board))
        ≡ ok after
      → Decided principal request_id note decision_id board after
  unfolding may_decide
  decided kind request principal request_id note decision_id board after r h =
      elim (Bool-cases (is_closed request.status)) [
        | inl c ↦ elim (err_ne (rw (c, may_decide) at h)) [ ]
        | inr c ↦
            elim (Bool-cases (
              is_approve kind
              && same_person casefold (identity_id principal) request.requested_by)) [
                | inl o ↦ elim (err_ne (rw (c, o, may_decide) at h)) [ ]
                | inr o ↦
                    elim (Option-cases (
                      find_decision principal.tenant_id request.request_id (identity_id principal)
                        board.decisions)) [
                          | inr d ↦ elim (err_ne (rw (c, o, d.1, may_decide) at h)) [ ]
                          | inl d ↦
                              elim (Bool-cases (has_decision_id decision_id board.decisions)) [
                                | inl i ↦ elim (err_ne (rw (c, o, d, i, may_decide) at h)) [ ]
                                | inr i ↦ record {
                                  kind = kind;
                                  request = request;
                                  found = r;
                                  is_open = c;
                                  not_own = o;
                                  first = d;
                                  written = sym (ok_eq (rw (c, o, d, i, may_decide) at h));
                                }
                              ]
                        ]
              ]
      ]

  pub decide-Decided :
      (principal : Principal) (request_id decision note decision_id : String) (board after : Board)
      → decide casefold principal request_id decision note decision_id board ≡ ok after
      → Decided principal request_id note decision_id board after
  unfolding decide require_request or_raise may_decide
  decide-Decided principal request_id decision note decision_id board after h =
      elim (Option-cases (parse_decision decision)) [
        | inl e ↦ elim (err_ne (rw (e, decide) at h)) [ ]
        | inr k ↦ elim (Option-cases (find_request principal.tenant_id request_id board.requests)) [
          | inl e ↦ elim (err_ne (rw (k.1, e, decide, require_request) at h)) [ ]
          | inr r ↦
              decided k.0 r.0 principal request_id note decision_id board after r.1
                (rw (k.1, r.1, decide, require_request) at h)
        ]
      ]

  -- `admit`: the status allows it, the gate returned the row, and it is written.
  pub record Admitted (crypto : Crypto) (principal : Principal)
      (request_id record_id subject : String) (private : Bytes) (board after : Board) : Type 0 where
    pub request : ApprovalRequest
    pub row : AdmissionRecord
    pub found : find_request principal.tenant_id request_id board.requests ≡ some request
    pub allowed : may_admit request.status request.kind ≡ ok tt
    pub passed :
        admitted_row crypto casefold board request
          (approvals_in (request_decisions principal.tenant_id request_id board.decisions))
          record_id
          subject
          private
        ≡ ok row
    pub fresh : has_record_id row.record_id board.admissions ≡ false
    pub written : after ≡ record board {
      admissions = board.admissions ++ row ∷ [];
      requests = set_status request.tenant_id request.request_id admitted board.requests;
    }

  pub admit-Admitted :
      (crypto : Crypto) (principal : Principal) (request_id record_id subject : String)
      (private : Bytes) (board after : Board)
      → admit crypto casefold principal request_id record_id subject private board ≡ ok after
      → Admitted crypto principal request_id record_id subject private board after
  unfolding admit require_request or_raise record_admission
  admit-Admitted crypto principal request_id record_id subject private board after h =
      elim (Option-cases (find_request principal.tenant_id request_id board.requests)) [
        | inl e ↦ elim (err_ne (rw (e, admit, require_request) at h)) [ ]
        | inr r ↦ elim (Outcome-cases (may_admit r.0.status r.0.kind)) [
          | inr e ↦ elim (err_ne (rw (r.1, e.1, admit, require_request) at h)) [ ]
          | inl m ↦
              elim (Outcome-cases (
                admitted_row crypto casefold board r.0
                  (approvals_in (request_decisions principal.tenant_id request_id board.decisions))
                  record_id subject private)) [
                    | inr e ↦ elim (err_ne (rw (r.1, m.1, e.1, admit, require_request) at h)) [ ]
                    | inl w ↦ elim (Bool-cases (has_record_id w.0.record_id board.admissions)) [
                      | inl f ↦
                          elim (err_ne (
                            rw (r.1, m.1, w.1, f, admit, require_request, record_admission) at
                              h)) [ ]
                      | inr f ↦ record {
                        request = r.0;
                        row = w.0;
                        found = r.1;
                        allowed = m.1;
                        passed = w.1;
                        fresh = f;
                        written = sym (
                            ok_eq (
                              rw (r.1, m.1, w.1, f, admit, require_request, record_admission) at
                                h));
                      }
                    ]
                  ]
        ]
      ]
