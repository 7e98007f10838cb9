-- ===== src/Api/Approvals/Status.antt =====
-- The status of a request as the projection of its decisions: `_project_request_status` of
-- api/approvals.py.
use recursive_self_improveme.Common.{
  ℕ, ◌≤◌, ◌<◌, String, ◌≡◌, refl, ap, ◌⊎◌, inl, inr, true, false, List, [], ◌∷◌, ◌++◌, arith, leb,
  if◌then◌else◌, leb→le, Bool-cases, length,
}
use recursive_self_improveme.Api.Approvals.{
  RequestStatus, pending, approved, rejected, admitted, is_approve, ApprovalDecision, approvals_in,
  any_reject,
}
use recursive_self_improveme.Api.Approvals.Decisions.{
  is_closed, has_text, insert_person, people_from, projected,
}

below : {n : ℕ} → leb 2 n ≡ false → n < 2
below h = ground arith

enough : {n : ℕ} → leb 2 n ≡ false → 2 ≤ n → ⊥
enough h k = ground arith

trans : {a b c : ℕ} → a ≤ b → b ≤ c → a ≤ c
trans h k = omega (arith, h, k)

closed : true ≡ false → ⊥
closed h = ground arith

module _ (casefold : String → String) where
  -- How many persons approved.
  abbrev pub people : List ApprovalDecision → ℕ
  people ds = length (people_from casefold [] (approvals_in ds))

  -- What a status says of the decisions.
  abbrev pub Settled : List ApprovalDecision → RequestStatus → Type 0
  Settled ds pending = (any_reject ds ≡ false) × (people ds < 2)
  Settled ds approved = (any_reject ds ≡ false) × (2 ≤ people ds)
  Settled ds rejected = any_reject ds ≡ true
  Settled ds admitted = any_reject ds ≡ false

  insert-length : (s : String) (xs : List String) → length xs ≤ length (insert_person s xs)
  unfolding insert_person
  insert-length s xs = elim (Bool-cases (has_text xs s)) [
    | inl e ↦ rw e (omega arith)
    | inr e ↦ rw e (omega arith)
  ]

  people_from-append :
      (xs : List String) (ds : List ApprovalDecision) (d : ApprovalDecision)
      → people_from casefold xs (ds ++ d ∷ [])
        ≡ insert_person (casefold d.approver) (people_from casefold xs ds)
  unfolding people_from
  people_from-append xs [] d = refl
  people_from-append xs (e ∷ es) d =
      people_from-append (insert_person (casefold e.approver) xs) es d

  approvals-append :
      (ds : List ApprovalDecision) (d : ApprovalDecision)
      → approvals_in (ds ++ d ∷ [])
        ≡ (if is_approve d.decision then approvals_in ds ++ d ∷ [] else approvals_in ds)
  unfolding approvals_in
  approvals-append [] d = refl
  approvals-append (e ∷ es) d = elim (Bool-cases (is_approve e.decision)) [
    | inl b ↦ elim (Bool-cases (is_approve d.decision)) [
      | inl c ↦ rw (b, c) (ap (λ xs. e ∷ xs) (rw c at (approvals-append es d)))
      | inr c ↦ rw (b, c) (ap (λ xs. e ∷ xs) (rw c at (approvals-append es d)))
    ]
    | inr b ↦ rw b (approvals-append es d)
  ]

  people-append :
      (ds : List ApprovalDecision) (d : ApprovalDecision) → people ds ≤ people (ds ++ d ∷ [])
  people-append ds d = elim (Bool-cases (is_approve d.decision)) [
    | inl e ↦
        rw (approvals-append ds d, e, people_from-append [] (approvals_in ds) d)
          (insert-length (casefold d.approver) (people_from casefold [] (approvals_in ds)))
    | inr e ↦ rw (approvals-append ds d, e) (omega arith)
  ]

  projects :
      (ds : List ApprovalDecision) (status : RequestStatus)
      → is_closed status ≡ false
      → (status ≡ pending) ⊎ (2 ≤ people ds)
      → Settled ds (projected casefold ds status)
  unfolding projected
  projects ds status o h = elim (Bool-cases (any_reject ds)) [
    | inl r ↦ rw (r, projected) r
    | inr r ↦ elim (Bool-cases (leb 2 (people ds))) [
      | inl e ↦ rw (r, e, projected) (r, leb→le 2 (people ds) e)
      | inr e ↦ elim h [
        | inl p ↦ rw (r, e, p, projected) (r, below e)
        | inr n ↦ elim (enough e n) [ ]
      ]
    ]
  ]

  -- A decision on an open request leaves a status that is settled by the decisions with it.
  pub projected-Settled :
      (ds : List ApprovalDecision) (d : ApprovalDecision) (status : RequestStatus)
      → is_closed status ≡ false
      → Settled ds status
      → Settled (ds ++ d ∷ []) (projected casefold (ds ++ d ∷ []) status)
  unfolding is_closed
  projected-Settled ds d pending o h = projects (ds ++ d ∷ []) pending refl (inl refl)
  projected-Settled ds d approved o h =
      projects (ds ++ d ∷ []) approved refl (inr (trans h.1 (people-append ds d)))
  projected-Settled ds d rejected o h = elim (closed o) [ ]
  projected-Settled ds d admitted o h = elim (closed o) [ ]
