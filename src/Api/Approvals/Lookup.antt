-- ===== src/Api/Approvals/Lookup.antt =====
-- How the lookups of api/approvals.py see a table after a row is added or a status is set.
use recursive_self_improveme.Common.{
  String, ◌≡◌, refl, sym, ap, subst, ◌⊎◌, inl, inr, Bool, true, false, ◌&&◌, Option, none, some,
  List, [], ◌∷◌, ◌++◌, arith, str_eq, str_eq_iff, if◌then◌else◌, Bool-cases, some_eq, some_ne, All,
}
use recursive_self_improveme.Api.Approvals.{
  RequestStatus, ApprovalRequest, ApprovalDecision, find_request, is_request_of, request_decisions,
  set_status,
}
use recursive_self_improveme.Api.Approvals.Requests.{has_request_id}

both : {a b : Bool} → (a && b) ≡ true → (a ≡ true) × (b ≡ true)
both h = (ground arith, ground arith)

pub clash : {b : Bool} → b ≡ true → b ≡ false → ⊥
clash h k = ground arith

pub matches : (t i u j : String) → (str_eq t u && str_eq i j) ≡ true → (t ≡ u) × (i ≡ j)
matches t i u j h = ((str_eq_iff t u).0 (both h).0, (str_eq_iff i j).0 (both h).1)

pub find_request-eq :
    (t i : String) (rs : List ApprovalRequest) (r : ApprovalRequest)
    → find_request t i rs ≡ some r
    → (r.tenant_id ≡ t) × (r.request_id ≡ i)
unfolding find_request
find_request-eq t i [] r h = elim (some_ne (sym h)) [ ]
find_request-eq t i (x ∷ xs) r h =
    elim (Bool-cases (str_eq x.tenant_id t && str_eq x.request_id i)) [
      | inl e ↦
          subst (λ y. (y.tenant_id ≡ t) × (y.request_id ≡ i)) (some_eq (rw e at h))
            (matches x.tenant_id x.request_id t i e)
      | inr e ↦ find_request-eq t i xs r (rw e at h)
    ]

pub find-append :
    (t i : String) (rs : List ApprovalRequest) (r x : ApprovalRequest)
    → find_request t i (rs ++ r ∷ []) ≡ some x
    → (find_request t i rs ≡ some x) ⊎ (x ≡ r)
unfolding find_request
find-append t i [] r x h = elim (Bool-cases (str_eq r.tenant_id t && str_eq r.request_id i)) [
  | inl e ↦ inr (sym (some_eq (rw e at h)))
  | inr e ↦ elim (some_ne (sym (rw e at h))) [ ]
]
find-append t i (y ∷ ys) r x h = elim (Bool-cases (str_eq y.tenant_id t && str_eq y.request_id i)) [
  | inl e ↦ inl (rw e (rw e at h))
  | inr e ↦ elim (find-append t i ys r x (rw e at h)) [ inl f ↦ inl (rw e f) | inr f ↦ inr f ]
]

-- The row with the status, if it is the one that is set.
abbrev pub restatus : Bool → RequestStatus → Option ApprovalRequest → Option ApprovalRequest
restatus b status none = none
restatus true status (some r) = some (record r { status = status })
restatus false status (some r) = some r

pub find-set_status :
    (t i u j : String) (status : RequestStatus) (rs : List ApprovalRequest)
    → find_request t i (set_status u j status rs)
      ≡ restatus (str_eq t u && str_eq i j) status (find_request t i rs)
unfolding find_request set_status
find-set_status t i u j status [] = refl
find-set_status t i u j status (x ∷ xs) =
    elim (Bool-cases (str_eq x.tenant_id t && str_eq x.request_id i)) [
      | inl e ↦
          let m = matches x.tenant_id x.request_id t i e in
          elim (Bool-cases (str_eq x.tenant_id u && str_eq x.request_id j)) [
            | inl c ↦ rw (c, find_request, e, rw (m.0, m.1) at c) refl
            | inr c ↦ rw (c, find_request, e, rw (m.0, m.1) at c) refl
          ]
      | inr e ↦ elim (Bool-cases (str_eq x.tenant_id u && str_eq x.request_id j)) [
        | inl c ↦ rw (c, find_request, e) (find-set_status t i u j status xs)
        | inr c ↦ rw (c, find_request, e) (find-set_status t i u j status xs)
      ]
    ]

-- What a lookup finds after the status of a row was set.
pub set_status-cases :
    (t i : String) (status : RequestStatus) (rs : List ApprovalRequest) (target r : ApprovalRequest)
    → find_request target.tenant_id target.request_id rs ≡ some target
    → find_request t i (set_status target.tenant_id target.request_id status rs) ≡ some r
    → (r ≡ record target { status = status })
      ⊎ ((find_request t i rs ≡ some r)
          × ((str_eq t target.tenant_id && str_eq i target.request_id) ≡ false))
set_status-cases t i status rs target r f h =
    elim (Bool-cases (str_eq t target.tenant_id && str_eq i target.request_id)) [
      | inl e ↦
          let m = matches t i target.tenant_id target.request_id e in
          let g = rw (find-set_status t i target.tenant_id target.request_id status rs, e) at h in
          inl (sym (some_eq (rw (m.0, m.1, f) at g)))
      | inr e ↦
          let g = rw (find-set_status t i target.tenant_id target.request_id status rs, e) at h in
          inr (unchanged (find_request t i rs) g, e)
    ]
  where
    unchanged : (o : Option ApprovalRequest) → restatus false status o ≡ some r → o ≡ some r
    unchanged none g = g
    unchanged (some x) g = g

pub decisions-append :
    (t i : String) (ds : List ApprovalDecision) (d : ApprovalDecision)
    → request_decisions t i (ds ++ d ∷ []) ≡ (
        if is_request_of t i d
        then request_decisions t i ds ++ d ∷ []
        else request_decisions t i ds)
unfolding request_decisions
decisions-append t i [] d = refl
decisions-append t i (e ∷ es) d = elim (Bool-cases (is_request_of t i e)) [
  | inl b ↦ elim (Bool-cases (is_request_of t i d)) [
    | inl c ↦ rw (b, c) (ap (λ xs. e ∷ xs) (rw c at (decisions-append t i es d)))
    | inr c ↦ rw (b, c) (ap (λ xs. e ∷ xs) (rw c at (decisions-append t i es d)))
  ]
  | inr b ↦ rw b (decisions-append t i es d)
]

-- A request that no row names has no decisions, if every decision is on a request of the table.
pub fresh_decisions :
    (t i : String) (rs : List ApprovalRequest) (ds : List ApprovalDecision)
    → has_request_id i rs ≡ false
    → All (λ d. has_request_id d.request_id rs ≡ true) ds
    → request_decisions t i ds ≡ []
unfolding request_decisions is_request_of
fresh_decisions t i rs [] f k = refl
fresh_decisions t i rs (d ∷ ds) f k =
    elim (Bool-cases (str_eq d.tenant_id t && str_eq d.request_id i)) [
      | inl e ↦
          elim (clash
            (subst (λ j. has_request_id j rs ≡ true) (matches d.tenant_id d.request_id t i e).1 k.0)
            f) [ ]
      | inr e ↦ rw e (fresh_decisions t i rs ds f k.1)
    ]
