-- ===== src/Api/Approvals/Kept.antt =====
-- The calls of api/approvals.py keep the invariant of its tables.
use recursive_self_improveme.Common.{
  String, ◌≡◌, refl, sym, ap, ◌∙◌, subst, inl, inr, Bool, true, false, ◌&&◌, Option, none, some,
  List, [], ◌∷◌, ◌++◌, arith, str_eq, str_eq_iff, Bool-cases, some_ne, All, All-append, ok,
}
use recursive_self_improveme.Common.Json.{Bytes}
use recursive_self_improveme.Security.{Crypto}
use recursive_self_improveme.Selection.Authority.{same_person}
use recursive_self_improveme.Tenancy.Policy.{TenantPolicyRegistry}
use recursive_self_improveme.Api.Approvals.{
  Principal, identity_id, RequestStatus, admitted, is_approve, ApprovalRequest, ApprovalDecision,
  Board, find_request, is_request_of, request_decisions, set_status,
}
use recursive_self_improveme.Api.Approvals.Requests.{
  RequestSpec, new_request, has_request_id, create_request,
}
use recursive_self_improveme.Api.Approvals.Decisions.{
  is_closed, new_decision, projected, record_decision, decide,
}
use recursive_self_improveme.Api.Approvals.Admissions.{admit}
use recursive_self_improveme.Api.Approvals.Lookup.{
  find_request-eq, find-append, set_status-cases, matches, clash, fresh_decisions,
}
use recursive_self_improveme.Api.Approvals.Opening.{request_tier-Opened, request_tier-Targeted}
use recursive_self_improveme.Api.Approvals.Steps.{create-Created, decide-Decided, admit-Admitted}
use recursive_self_improveme.Api.Approvals.Invariant.{
  SoundRequest, SoundAt, Sound, lookup-SoundRequest, decided_request, undecided_request,
  admitted_request, new-SoundRequest,
}

-- A table with a row for the identifier still has it when a row is added or a status is set.
known-append :
    (id : String) (rs more : List ApprovalRequest)
    → has_request_id id rs ≡ true
    → has_request_id id (rs ++ more) ≡ true
unfolding has_request_id
known-append id [] more h = ground arith
known-append id (r ∷ rs) more h = elim (Bool-cases (str_eq r.request_id id)) [
  | inl e ↦ rw e refl
  | inr e ↦ rw e (known-append id rs more (rw e at h))
]

known-set_status :
    (id t i : String) (status : RequestStatus) (rs : List ApprovalRequest)
    → has_request_id id (set_status t i status rs) ≡ has_request_id id rs
unfolding has_request_id set_status
known-set_status id t i status [] = refl
known-set_status id t i status (r ∷ rs) =
    elim (Bool-cases (str_eq r.tenant_id t && str_eq r.request_id i)) [
      | inl e ↦ rw (e, known-set_status id t i status rs) refl
      | inr e ↦ rw (e, known-set_status id t i status rs) refl
    ]

still_known :
    (rs ss : List ApprovalRequest) (ds : List ApprovalDecision)
    → ((id : String) → has_request_id id rs ≡ true → has_request_id id ss ≡ true)
    → All (λ d. has_request_id d.request_id rs ≡ true) ds
    → All (λ d. has_request_id d.request_id ss ≡ true) ds
still_known rs ss [] f h = tt
still_known rs ss (d ∷ ds) f h = (f d.request_id h.0, still_known rs ss ds f h.1)

and_false : (a : Bool) → (a && false) ≡ false
and_false a = ground arith

same_names : {t u i j : String} → t ≡ u → i ≡ j → (str_eq t u && str_eq i j) ≡ true
same_names {t = t} {i = i} a b =
    rw (sym a, sym b, (str_eq_iff t t).1 refl, (str_eq_iff i i).1 refl) refl

found_known :
    (t i : String) (rs : List ApprovalRequest) (r : ApprovalRequest)
    → find_request t i rs ≡ some r
    → has_request_id i rs ≡ true
unfolding find_request has_request_id
found_known t i [] r h = elim (some_ne (sym h)) [ ]
found_known t i (x ∷ xs) r h = elim (Bool-cases (str_eq x.request_id i)) [
  | inl e ↦ rw e refl
  | inr e ↦ rw e (found_known t i xs r (rw (e, and_false (str_eq x.tenant_id t)) at h))
]

module _ (casefold : String → String) where
  -- To show that a lookup finds a sound request, if any.
  sound_at :
      (ds : List ApprovalDecision) (o : Option ApprovalRequest)
      → ((r : ApprovalRequest) → o ≡ some r → SoundRequest casefold ds r)
      → SoundAt casefold ds o
  sound_at ds none f = tt
  sound_at ds (some r) f = f r refl

  pub create-Sound :
      (registry : TenantPolicyRegistry) (principal : Principal) (spec : RequestSpec) (id : String)
      (board after : Board)
      → create_request registry principal spec id board ≡ ok after
      → Sound casefold board
      → Sound casefold after
  unfolding new_request
  create-Sound registry principal spec id board after h s =
      let c = create-Created registry principal spec id board after h in
      let row = new_request principal spec c.kind c.tier id in
      subst (Sound casefold) (sym c.added) (record {
        at = λ t i. sound_at board.decisions (find_request t i (board.requests ++ row ∷ [])) (λ r f.
            elim (find-append t i board.requests row r f) [
              | inl old ↦ lookup-SoundRequest casefold board t i r s old
              | inr new ↦ subst (SoundRequest casefold board.decisions) (sym new) (
                  new-SoundRequest casefold board.decisions row
                    (fresh_decisions principal.tenant_id id board.requests board.decisions c.fresh
                      s.known)
                    refl
                    (request_tier-Opened board registry principal.tenant_id spec c.kind c.tier
                      c.judged)
                    (request_tier-Targeted board registry principal.tenant_id spec c.kind c.tier
                      c.judged))
            ]);
        known =
            still_known board.requests (board.requests ++ row ∷ []) board.decisions
              (λ i. known-append i board.requests (row ∷ [])) s.known;
      })

  -- A found request is found under its own names.
  own_lookup :
      (t i : String) (rs : List ApprovalRequest) (r : ApprovalRequest)
      → find_request t i rs ≡ some r
      → find_request r.tenant_id r.request_id rs ≡ some r
  own_lookup t i rs r f =
      let e = find_request-eq t i rs r f in
      ap (λ a. find_request a r.request_id rs) e.0 ∙ ap (λ b. find_request t b rs) e.1 ∙ f

  other_request :
      (t i : String) (target : ApprovalRequest) (d : ApprovalDecision)
      → is_request_of target.tenant_id target.request_id d ≡ true
      → (str_eq t target.tenant_id && str_eq i target.request_id) ≡ false
      → is_request_of t i d ≡ false
  unfolding is_request_of
  other_request t i target d m e = elim (Bool-cases (is_request_of t i d)) [
    | inr f ↦ f
    | inl f ↦
        let a = matches d.tenant_id d.request_id target.tenant_id target.request_id m in
        let b = matches d.tenant_id d.request_id t i f in
        elim (clash (same_names (sym b.0 ∙ a.0) (sym b.1 ∙ a.1)) e) [ ]
  ]

  record_decision-Sound :
      (board : Board) (t i : String) (request : ApprovalRequest) (d : ApprovalDecision)
      → find_request t i board.requests ≡ some request
      → is_request_of request.tenant_id request.request_id d ≡ true
      → is_closed request.status ≡ false
      → (is_approve d.decision && same_person casefold d.approver request.requested_by) ≡ false
      → Sound casefold board
      → Sound casefold (record_decision casefold request d board)
  unfolding record_decision is_request_of
  record_decision-Sound board t i request d f m o n s =
      let status =
        projected casefold
          (request_decisions request.tenant_id request.request_id (board.decisions ++ d ∷ []))
          request.status in
      let after = set_status request.tenant_id request.request_id status board.requests in
      record {
        at = λ u j. sound_at (board.decisions ++ d ∷ []) (find_request u j after) (λ r g.
            elim (set_status-cases u j status board.requests request r
              (own_lookup t i board.requests request f) g) [
                | inl e ↦ subst (SoundRequest casefold (board.decisions ++ d ∷ [])) (sym e) (
                    decided_request casefold board.decisions request d m o n
                      (lookup-SoundRequest casefold board t i request s f))
                | inr e ↦
                    let names = find_request-eq u j board.requests r e.0 in
                    undecided_request casefold board.decisions r d
                      (rw (names.0, names.1) (other_request u j request d m e.1))
                      (lookup-SoundRequest casefold board u j r s e.0)
              ]);
        known =
            All-append (λ x. has_request_id x.request_id after ≡ true) board.decisions (d ∷ [])
              (still_known board.requests after board.decisions
                (λ k h.
                  known-set_status k request.tenant_id request.request_id status board.requests ∙ h)
                s.known)
              (
                known-set_status d.request_id request.tenant_id request.request_id status
                      board.requests
                    ∙ subst (λ k. has_request_id k board.requests ≡ true)
                        (sym
                          (matches d.tenant_id d.request_id request.tenant_id request.request_id
                            m).1)
                        (found_known request.tenant_id request.request_id board.requests request
                          (own_lookup t i board.requests request f)),
                tt,
              );
      }

  pub decide-Sound :
      (principal : Principal) (request_id decision note decision_id : String) (board after : Board)
      → decide casefold principal request_id decision note decision_id board ≡ ok after
      → Sound casefold board
      → Sound casefold after
  unfolding new_decision is_request_of identity_id
  decide-Sound principal request_id decision note decision_id board after h s =
      let d =
        decide-Decided casefold principal request_id decision note decision_id board after h in
      let e = find_request-eq principal.tenant_id request_id board.requests d.request d.found in
      subst (Sound casefold) (sym d.written) (
        record_decision-Sound board principal.tenant_id request_id d.request
          (new_decision principal request_id d.kind note decision_id) d.found
          (same_names (sym e.0) (sym e.1)) d.is_open d.not_own s)

  pub admit-Sound :
      (crypto : Crypto) (principal : Principal) (request_id record_id subject : String)
      (private : Bytes) (board after : Board)
      → admit crypto casefold principal request_id record_id subject private board ≡ ok after
      → Sound casefold board
      → Sound casefold after
  admit-Sound crypto principal request_id record_id subject private board after h s =
      let a =
        admit-Admitted casefold crypto principal request_id record_id subject private board after
          h in
      let r = a.request in
      let rows = set_status r.tenant_id r.request_id admitted board.requests in
      subst (Sound casefold) (sym a.written) (record {
        at = λ u j. sound_at board.decisions (find_request u j rows) (λ x g.
            elim (set_status-cases u j admitted board.requests r x
              (own_lookup principal.tenant_id request_id board.requests r a.found) g) [
                | inl e ↦ subst (SoundRequest casefold board.decisions) (sym e) (
                    admitted_request casefold board.decisions r a.allowed (
                      lookup-SoundRequest casefold board principal.tenant_id request_id r s
                        a.found))
                | inr e ↦ lookup-SoundRequest casefold board u j x s e.0
              ]);
        known =
            still_known board.requests rows board.decisions
              (λ k h. known-set_status k r.tenant_id r.request_id admitted board.requests ∙ h)
              s.known;
      })
