-- ===== src/Api/Approvals/Closing.antt =====
-- A closed review of api/approvals.py is final.
use recursive_self_improveme.Common.{
  String, ◌≡◌, refl, sym, ap, ◌∙◌, subst, inl, inr, true, false, ◌&&◌, some, List, [], ◌∷◌, ◌++◌,
  str_eq, Bool-cases, some_eq, some_ne, ok, err_ne, Outcome-cases,
}
use recursive_self_improveme.Common.Json.{Bytes}
use recursive_self_improveme.Security.{Crypto}
use recursive_self_improveme.Tenancy.Policy.{TenantPolicyRegistry}
use recursive_self_improveme.Api.Approvals.{
  Principal, RequestStatus, pending, approved, rejected, admitted, RequestKind, ApprovalRequest,
  ApprovalDecision, Board, find_request, is_request_of, request_decisions, set_status,
}
use recursive_self_improveme.Api.Approvals.Requests.{RequestSpec, new_request, create_request}
use recursive_self_improveme.Api.Approvals.Decisions.{
  is_closed, new_decision, projected, record_decision, decide,
}
use recursive_self_improveme.Api.Approvals.Admissions.{may_admit, admit}
use recursive_self_improveme.Api.Approvals.Lookup.{
  find-set_status, find_request-eq, decisions-append, matches, clash,
}
use recursive_self_improveme.Api.Approvals.Steps.{create-Created, decide-Decided, admit-Admitted}
use recursive_self_improveme.Api.Approvals.Histories.{
  Call, creating, deciding, admitting, committed, run_call, run_calls,
}

-- The row of a request and its decisions, as a board has them.
pub record Stands (t i : String) (r : ApprovalRequest) (ds : List ApprovalDecision) (board : Board)
    : Type 0 where
  pub row : find_request t i board.requests ≡ some r
  pub decisions : request_decisions t i board.decisions ≡ ds

find-append_left :
    (t i : String) (rs more : List ApprovalRequest) (r : ApprovalRequest)
    → find_request t i rs ≡ some r
    → find_request t i (rs ++ more) ≡ some r
unfolding find_request
find-append_left t i [] more r h = elim (some_ne (sym h)) [ ]
find-append_left t i (x ∷ xs) more r h =
    elim (Bool-cases (str_eq x.tenant_id t && str_eq x.request_id i)) [
      | inl e ↦ rw e (rw e at h)
      | inr e ↦ rw e (find-append_left t i xs more r (rw e at h))
    ]

-- A request of the names is the request that a lookup finds there.
same_request :
    (t i u j : String) (rs : List ApprovalRequest) (r s : ApprovalRequest)
    → find_request t i rs ≡ some r
    → find_request u j rs ≡ some s
    → (str_eq t s.tenant_id && str_eq i s.request_id) ≡ true
    → r ≡ s
same_request t i u j rs r s f g e =
    let m = matches t i s.tenant_id s.request_id e in
    let n = find_request-eq u j rs s g in
    some_eq (
      sym f
      ∙ ap (λ a. find_request a i rs) (m.0 ∙ n.0)
      ∙ ap (λ b. find_request u b rs) (m.1 ∙ n.1)
      ∙ g)

open_or_closed :
    {r s : ApprovalRequest} → r ≡ s → is_closed r.status ≡ true → is_closed s.status ≡ false → ⊥
open_or_closed e c o = clash c (ap (λ x. is_closed x.status) e ∙ o)

-- Setting the status of an open request leaves a closed one.
set_status-closed :
    (t i u j : String) (status : RequestStatus) (rs : List ApprovalRequest) (r s : ApprovalRequest)
    → find_request t i rs ≡ some r
    → find_request u j rs ≡ some s
    → is_closed r.status ≡ true
    → is_closed s.status ≡ false
    → find_request t i (set_status s.tenant_id s.request_id status rs) ≡ some r
set_status-closed t i u j status rs r s f g c o =
    elim (Bool-cases (str_eq t s.tenant_id && str_eq i s.request_id)) [
      | inl e ↦ elim (open_or_closed (same_request t i u j rs r s f g e) c o) [ ]
      | inr e ↦ rw (find-set_status t i s.tenant_id s.request_id status rs, e, f) refl
    ]

may_admit_open :
    (status : RequestStatus) (kind : RequestKind)
    → may_admit status kind ≡ ok tt
    → is_closed status ≡ false
unfolding may_admit is_closed
may_admit_open pending kind h = refl
may_admit_open approved kind h = refl
may_admit_open rejected kind h = elim (err_ne h) [ ]
may_admit_open admitted kind h = elim (err_ne h) [ ]

module _ (casefold : String → String) (t i : String) (r : ApprovalRequest)
    (ds : List ApprovalDecision) where
  create-Stands :
      (registry : TenantPolicyRegistry) (principal : Principal) (spec : RequestSpec) (id : String)
      (board after : Board)
      → create_request registry principal spec id board ≡ ok after
      → Stands t i r ds board
      → Stands t i r ds after
  create-Stands registry principal spec id board after h s =
      let c = create-Created registry principal spec id board after h in
      subst (Stands t i r ds) (sym c.added) (record {
        row =
            find-append_left t i board.requests (new_request principal spec c.kind c.tier id ∷ []) r
              s.row;
        decisions = s.decisions;
      })

  decide-Stands :
      (principal : Principal) (request_id decision note decision_id : String) (board after : Board)
      → decide casefold principal request_id decision note decision_id board ≡ ok after
      → is_closed r.status ≡ true
      → Stands t i r ds board
      → Stands t i r ds after
  unfolding record_decision new_decision is_request_of
  decide-Stands principal request_id decision note decision_id board after h c s =
      let d =
        decide-Decided casefold principal request_id decision note decision_id board after h in
      let row = new_decision principal request_id d.kind note decision_id in
      subst (Stands t i r ds) (sym d.written) (record {
        row =
            set_status-closed t i principal.tenant_id request_id
              (projected casefold
                (request_decisions d.request.tenant_id d.request.request_id
                  (board.decisions ++ row ∷ []))
                d.request.status)
              board.requests r d.request s.row d.found c d.is_open;
        decisions = elim (Bool-cases (is_request_of t i row)) [
          | inl e ↦
              let m = matches principal.tenant_id request_id t i e in
              elim (open_or_closed
                (some_eq (
                  sym s.row
                  ∙ ap (λ a. find_request a i board.requests) (sym m.0)
                  ∙ ap (λ b. find_request principal.tenant_id b board.requests) (sym m.1)
                  ∙ d.found))
                c d.is_open) [ ]
          | inr e ↦ rw (decisions-append t i board.decisions row, e) (s.decisions)
        ];
      })

  admit-Stands :
      (crypto : Crypto) (principal : Principal) (request_id record_id subject : String)
      (private : Bytes) (board after : Board)
      → admit crypto casefold principal request_id record_id subject private board ≡ ok after
      → is_closed r.status ≡ true
      → Stands t i r ds board
      → Stands t i r ds after
  admit-Stands crypto principal request_id record_id subject private board after h c s =
      let a =
        admit-Admitted casefold crypto principal request_id record_id subject private board after
          h in
      subst (Stands t i r ds) (sym a.written) (record {
        row =
            set_status-closed t i principal.tenant_id request_id admitted board.requests r a.request
              s.row a.found c (may_admit_open a.request.status a.request.kind a.allowed);
        decisions = s.decisions;
      })

module _ (crypto : Crypto) (casefold : String → String) (registry : TenantPolicyRegistry)
    (subject : String) (private : Bytes) (t i : String) (r : ApprovalRequest)
    (ds : List ApprovalDecision) where
  call-Stands :
      (c : Call) (board after : Board)
      → run_call crypto casefold registry subject private c board ≡ ok after
      → is_closed r.status ≡ true
      → Stands t i r ds board
      → Stands t i r ds after
  unfolding run_call
  call-Stands (creating principal spec id) board after h c s =
      create-Stands casefold t i r ds registry principal spec id board after h s
  call-Stands (deciding principal id decision note decision_id) board after h c s =
      decide-Stands casefold t i r ds principal id decision note decision_id board after h c s
  call-Stands (admitting principal id record_id) board after h c s =
      admit-Stands casefold t i r ds crypto principal id record_id subject private board after h c s

  -- Once a request is rejected or admitted, no history of calls changes its row or its decisions.
  pub run_calls-Stands :
      (cs : List Call) (board : Board)
      → is_closed r.status ≡ true
      → Stands t i r ds board
      → Stands t i r ds (run_calls crypto casefold registry subject private cs board)
  unfolding run_calls
  run_calls-Stands [] board c s = s
  run_calls-Stands (call ∷ cs) board c s =
      run_calls-Stands cs
        (committed board (run_call crypto casefold registry subject private call board)) c
        (elim (Outcome-cases (run_call crypto casefold registry subject private call board)) [
          | inr e ↦ rw (e.1, committed) s
          | inl a ↦ rw (a.1, committed) (call-Stands call board a.0 a.1 c s)
        ])
