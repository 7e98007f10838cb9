-- ===== src/Api/Approvals/People.antt =====
-- The persons whom `_project_request_status` of api/approvals.py counts.
use recursive_self_improveme.Common.{
  ◌≤◌, String, ◌≡◌, refl, sym, ◌∙◌, ◌≢◌, inl, inr, Bool, false, ◌||◌, List, [], ◌∷◌, arith, str_eq,
  str_eq_iff, Bool-cases, length, All, Any,
}
use recursive_self_improveme.Api.Approvals.{ApprovalDecision}
use recursive_self_improveme.Api.Approvals.Decisions.{has_text, insert_person, people_from}

-- No text stands twice in the list.
abbrev Different : List String → Type 0
Different [] = Unit
Different (s ∷ ss) = (has_text ss s ≡ false) × Different ss

insert-Different : (s : String) (xs : List String) → Different xs → Different (insert_person s xs)
unfolding insert_person
insert-Different s xs h = elim (Bool-cases (has_text xs s)) [ inl e ↦ rw e h | inr e ↦ rw e (e, h) ]

insert-All :
    (P : String → Type 0) (s : String) (xs : List String)
    → P s
    → All P xs
    → All P (insert_person s xs)
unfolding insert_person
insert-All P s xs p h = elim (Bool-cases (has_text xs s)) [ inl e ↦ rw e h | inr e ↦ rw e (p, h) ]

later-Any :
    (ds : List ApprovalDecision) (d : ApprovalDecision) (all : List ApprovalDecision)
    → All (λ x. Any (λ e. e ≡ x) all) ds
    → All (λ x. Any (λ e. e ≡ x) (d ∷ all)) ds
later-Any [] d all h = tt
later-Any (x ∷ xs) d all h = (inr h.0, later-Any xs d all h.1)

-- Every element of a list is in it.
members : (ds : List ApprovalDecision) → All (λ x. Any (λ e. e ≡ x) ds) ds
members [] = tt
members (d ∷ ds) = (inl refl, later-Any ds d ds (members ds))

apart : (x y : String) (b : Bool) → (str_eq y x || b) ≡ false → x ≡ y → ⊥
apart x y b h e = ground (arith, str_eq_iff y x)

module _ (casefold : String → String) where
  -- The decision in the list whose approver this is.
  abbrev pub Names : List ApprovalDecision → String → Type 0
  Names ds s = (d : ApprovalDecision) × Any (λ e. e ≡ d) ds × (casefold d.approver ≡ s)

  named :
      (all ds : List ApprovalDecision)
      → All (λ d. Any (λ e. e ≡ d) all) ds
      → All (λ d. Names all (casefold d.approver)) ds
  named all [] h = tt
  named all (d ∷ ds) h = ((d, h.0, refl), named all ds h.1)

  people-All :
      (P : String → Type 0) (xs : List String) (ds : List ApprovalDecision)
      → All P xs
      → All (λ d. P (casefold d.approver)) ds
      → All P (people_from casefold xs ds)
  unfolding people_from
  people-All P xs [] h k = h
  people-All P xs (d ∷ ds) h k =
      people-All P (insert_person (casefold d.approver) xs) ds
        (insert-All P (casefold d.approver) xs k.0 h) k.1

  people-Different :
      (xs : List String) (ds : List ApprovalDecision)
      → Different xs
      → Different (people_from casefold xs ds)
  unfolding people_from
  people-Different xs [] h = h
  people-Different xs (d ∷ ds) h =
      people-Different (insert_person (casefold d.approver) xs) ds
        (insert-Different (casefold d.approver) xs h)

  -- Two decisions in the list by different persons.
  pub record TwoPeople (ds : List ApprovalDecision) : Type 0 where
    pub first : ApprovalDecision
    pub second : ApprovalDecision
    pub in_first : Any (λ e. e ≡ first) ds
    pub in_second : Any (λ e. e ≡ second) ds
    pub different : casefold first.approver ≢ casefold second.approver

  two_of :
      (ds : List ApprovalDecision) (xs : List String)
      → Different xs
      → All (Names ds) xs
      → 2 ≤ length xs
      → TwoPeople ds
  unfolding has_text
  two_of ds [] u n h = ground arith
  two_of ds (x ∷ []) u n h = ground arith
  two_of ds (x ∷ y ∷ rest) u n h = record {
    first = n.0.0;
    second = n.1.0.0;
    in_first = n.0.1;
    in_second = n.1.0.1;
    different = λ e. apart x y (has_text rest x) u.0 (sym n.0.2 ∙ e ∙ n.1.0.2);
  }

  -- If the set has two members, two different persons are in the list.
  pub people-TwoPeople :
      (ds : List ApprovalDecision) → 2 ≤ length (people_from casefold [] ds) → TwoPeople ds
  people-TwoPeople ds h =
      two_of ds (people_from casefold [] ds) (people-Different [] ds tt)
        (people-All (Names ds) [] ds tt (named ds ds (members ds))) h
