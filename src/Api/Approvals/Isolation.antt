-- ===== src/Api/Approvals/Isolation.antt =====
-- The calls of one tenant of api/approvals.py and the rows of another.
use recursive_self_improveme.Common.{
  String, ◌≡◌, refl, sym, ◌∙◌, subst, ◌≢◌, inl, inr, false, ◌&&◌, none, List, [], ◌∷◌, ◌++◌, arith,
  str_eq, str_eq_iff, Bool-cases, All, ok, Outcome-cases,
}
use recursive_self_improveme.Common.Json.{Bytes}
use recursive_self_improveme.Security.{Crypto}
use recursive_self_improveme.Tenancy.Policy.{TenantPolicyRegistry}
use recursive_self_improveme.Api.Approvals.{
  RequestStatus, admitted, ApprovalRequest, ApprovalDecision, Board, is_request_of,
  request_decisions, set_status,
}
use recursive_self_improveme.Api.Approvals.Requests.{new_request, requests_of}
use recursive_self_improveme.Api.Approvals.Decisions.{new_decision, projected, record_decision}
use recursive_self_improveme.Api.Approvals.Lookup.{find_request-eq, decisions-append, matches}
use recursive_self_improveme.Api.Approvals.Steps.{create-Created, decide-Decided, admit-Admitted}
use recursive_self_improveme.Api.Approvals.Histories.{
  Call, creating, deciding, admitting, committed, run_call, run_calls,
}

-- The tenant whose principal makes the call.
abbrev pub caller : Call → String
caller (creating principal spec id) = principal.tenant_id
caller (deciding principal id decision note decision_id) = principal.tenant_id
caller (admitting principal id record_id) = principal.tenant_id

-- What the tenant reads of its requests, and of the decisions on each, is the same on both boards.
pub record Same (t : String) (board after : Board) : Type 0 where
  pub requests : requests_of t none after.requests ≡ requests_of t none board.requests
  pub decisions :
      (i : String) → request_decisions t i after.decisions ≡ request_decisions t i board.decisions

other_tenant : (u t : String) → u ≢ t → str_eq u t ≡ false
other_tenant u t n = ground (arith, str_eq_iff u t)

requests-append :
    (t : String) (rs : List ApprovalRequest) (r : ApprovalRequest)
    → r.tenant_id ≢ t
    → requests_of t none (rs ++ r ∷ []) ≡ requests_of t none rs
unfolding requests_of
requests-append t [] r n = rw (other_tenant r.tenant_id t n) refl
requests-append t (x ∷ xs) r n = rw (requests-append t xs r n) refl

requests-set_status :
    (t u i : String) (status : RequestStatus) (rs : List ApprovalRequest)
    → u ≢ t
    → requests_of t none (set_status u i status rs) ≡ requests_of t none rs
unfolding requests_of set_status
requests-set_status t u i status [] n = refl
requests-set_status t u i status (x ∷ xs) n =
    elim (Bool-cases (str_eq x.tenant_id u && str_eq x.request_id i)) [
      | inl e ↦
          let m = matches x.tenant_id x.request_id u i e in
          let f = other_tenant x.tenant_id t (λ k. n (sym m.0 ∙ k)) in
          rw (e, requests_of, f) (requests-set_status t u i status xs n)
      | inr e ↦ rw (e, requests_of, requests-set_status t u i status xs n) refl
    ]

unasked : (t i : String) (d : ApprovalDecision) → d.tenant_id ≢ t → is_request_of t i d ≡ false
unfolding is_request_of
unasked t i d n = rw (other_tenant d.tenant_id t n) refl

module _ (crypto : Crypto) (casefold : String → String) (registry : TenantPolicyRegistry)
    (subject : String) (private : Bytes) (t : String) where
  call-Same :
      (c : Call) (board after : Board)
      → run_call crypto casefold registry subject private c board ≡ ok after
      → caller c ≢ t
      → Same t board after
  unfolding run_call record_decision new_decision new_request
  call-Same (creating principal spec id) board after h n =
      let c = create-Created registry principal spec id board after h in
      subst (Same t board) (sym c.added) (record {
        requests = requests-append t board.requests (new_request principal spec c.kind c.tier id) n;
        decisions = λ i. refl;
      })
  call-Same (deciding principal id decision note decision_id) board after h n =
      let d = decide-Decided casefold principal id decision note decision_id board after h in
      let row = new_decision principal id d.kind note decision_id in
      let e = find_request-eq principal.tenant_id id board.requests d.request d.found in
      subst (Same t board) (sym d.written) (record {
        requests =
            requests-set_status t d.request.tenant_id d.request.request_id
              (projected casefold
                (request_decisions d.request.tenant_id d.request.request_id
                  (board.decisions ++ row ∷ []))
                d.request.status)
              board.requests (λ k. n (sym e.0 ∙ k));
        decisions = λ i. rw (decisions-append t i board.decisions row, unasked t i row n) refl;
      })
  call-Same (admitting principal id record_id) board after h n =
      let a = admit-Admitted casefold crypto principal id record_id subject private board after h in
      let e = find_request-eq principal.tenant_id id board.requests a.request a.found in
      subst (Same t board) (sym a.written) (record {
        requests =
            requests-set_status t a.request.tenant_id a.request.request_id admitted board.requests
              (λ k. n (sym e.0 ∙ k));
        decisions = λ i. refl;
      })

  -- A history of calls by other tenants leaves a tenant's requests and their decisions as they were.
  pub run_calls-Same :
      (cs : List Call) (board : Board)
      → All (λ c. caller c ≢ t) cs
      → Same t board (run_calls crypto casefold registry subject private cs board)
  unfolding run_calls committed
  run_calls-Same [] board n = record { requests = refl; decisions = λ i. refl }
  run_calls-Same (c ∷ cs) board n =
      elim (Outcome-cases (run_call crypto casefold registry subject private c board)) [
        | inr e ↦ rw (e.1, committed) (run_calls-Same cs board n.1)
        | inl a ↦
            let one = call-Same c board a.0 a.1 n.0 in
            let rest = run_calls-Same cs a.0 n.1 in
            rw (a.1, committed)
              (record {
                requests = rest.requests ∙ one.requests;
                decisions = λ i. rest.decisions i ∙ one.decisions i;
              })
      ]
