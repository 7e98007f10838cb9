-- ===== src/Selection/Authority/Admission.antt =====
-- What the tier gate of selection/authority.py lets through.
use recursive_self_improveme.Common.{
  String, ◌≤◌, ◌≡◌, refl, ◌≢◌, ◌↔◌, inl, inr, true, false, Option, none, some, List, [], ◌∷◌, arith,
  str_eq_iff, Bool-cases, ok,
}
use recursive_self_improveme.Selection.Authority.{
  AuthorityTier, tier_1, tier_2, tier_3, tier_4, tier_value, TierApprovalEvidence, missing_evidence,
  require_legs, same_person, names_requester, require_two_person_approval, judge_evidence,
  assert_phase2_admissible,
}

module _ (casefold : String → String) where
  -- Two people approved who are not the same and neither of whom is the requester.
  pub data TwoPersons : Option String → List String → Type 0 where
    unrequested : {a b : String} → casefold a ≢ casefold b → TwoPersons none (a ∷ b ∷ [])
    requested :
        {r a b : String}
        → casefold a ≢ casefold b
        → casefold a ≢ casefold r
        → casefold b ≢ casefold r
        → TwoPersons (some r) (a ∷ b ∷ [])

  -- What the gate asks of each tier.
  abbrev pub Admissible : AuthorityTier → TierApprovalEvidence → Type 0
  Admissible tier_1 e = Unit
  Admissible tier_2 e = Unit
  Admissible tier_3 e = TwoPersons e.requested_by e.approvers
  Admissible tier_4 e = (e.human_signoff ≡ true) × (e.manually_initiated ≡ true)

  same_person_iff : (a b : String) → (same_person casefold a b ≡ true) ↔ (casefold a ≡ casefold b)
  unfolding same_person
  same_person_iff a b =
      ((str_eq_iff (casefold a) (casefold b)).0, (str_eq_iff (casefold a) (casefold b)).1)

  pub not_same_person : (a b : String) → same_person casefold a b ≡ false → casefold a ≢ casefold b
  not_same_person a b h = ground (arith, same_person_iff a b)

  two_persons :
      (requester : Option String) (a b : String)
      → casefold a ≢ casefold b
      → names_requester casefold requester (a ∷ b ∷ []) ≡ false
      → TwoPersons requester (a ∷ b ∷ [])
  unfolding names_requester
  two_persons none a b d n = unrequested d
  two_persons (some r) a b d n =
      requested d (not_same_person a r (ground arith)) (not_same_person b r (ground arith))

  require-two :
      (e : TierApprovalEvidence) (tier : AuthorityTier) (requester : Option String)
      (people : List String)
      → require_two_person_approval casefold
          (record e { requested_by = requester; approvers = people })
          tier
        ≡ ok tt
      → TwoPersons requester people
  unfolding require_two_person_approval
  require-two e tier requester [] h = ground arith
  require-two e tier requester (a ∷ []) h = ground arith
  require-two e tier requester (a ∷ b ∷ []) h = elim (Bool-cases (same_person casefold a b)) [
    | inl s ↦ ground arith
    | inr s ↦ two_persons requester a b (not_same_person a b s) (ground arith)
  ]
  require-two e tier requester (a ∷ b ∷ c ∷ rest) h = ground arith

  persons-require :
      (e : TierApprovalEvidence) (tier : AuthorityTier) (requester : Option String)
      (people : List String)
      → TwoPersons requester people
      → require_two_person_approval casefold
          (record e { requested_by = requester; approvers = people })
          tier
        ≡ ok tt
  unfolding require_two_person_approval names_requester
  persons-require e tier requester people (unrequested {a} {b} d) =
      ground (arith, same_person_iff a b)
  persons-require e tier requester people (requested {r} {a} {b} d f g) =
      ground (arith, same_person_iff a b, same_person_iff a r, same_person_iff b r)

  legs_iff :
      (e : TierApprovalEvidence) (tier : AuthorityTier)
      → (require_legs tier (missing_evidence e) ≡ ok tt)
        ↔ ((e.human_signoff ≡ true) × (e.manually_initiated ≡ true))
  unfolding require_legs missing_evidence
  legs_iff e tier = ground arith

  -- The gate lets a release of each tier through exactly on the evidence that the tier asks for.
  pub assert_phase2_admissible_iff :
      (tier : AuthorityTier) (e : TierApprovalEvidence)
      → (assert_phase2_admissible casefold tier (some e) ≡ ok tt) ↔ Admissible tier e
  unfolding assert_phase2_admissible judge_evidence tier_value
  assert_phase2_admissible_iff tier_1 e = ((λ h. tt), λ h. refl)
  assert_phase2_admissible_iff tier_2 e = ((λ h. tt), λ h. refl)
  assert_phase2_admissible_iff tier_3 e = (
    (λ h. require-two e tier_3 e.requested_by e.approvers h),
    λ h. persons-require e tier_3 e.requested_by e.approvers h,
  )
  assert_phase2_admissible_iff tier_4 e = legs_iff e tier_4

  -- What a tier below 4 asks for, where evidence may be missing.
  abbrev pub Evidenced : AuthorityTier → Option TierApprovalEvidence → Type 0
  Evidenced tier_1 presented = Unit
  Evidenced tier_2 presented = Unit
  Evidenced tier_3 none = ⊥
  Evidenced tier_3 (some e) = TwoPersons e.requested_by e.approvers
  Evidenced tier_4 presented = ⊥

  -- Up to tier 3, the gate lets a release through exactly on the evidence that its tier asks for: tiers 1
  -- and 2 always, also with no evidence, and tier 3 exactly if evidence is presented of two approvers who
  -- are two persons, neither of them the requester if one is named.
  pub tiers_to_3_iff :
      (tier : AuthorityTier) (presented : Option TierApprovalEvidence)
      → tier_value tier ≤ 3
      → (assert_phase2_admissible casefold tier presented ≡ ok tt) ↔ Evidenced tier presented
  unfolding assert_phase2_admissible judge_evidence tier_value
  tiers_to_3_iff tier_1 presented h = ((λ k. tt), λ k. refl)
  tiers_to_3_iff tier_2 presented h = ((λ k. tt), λ k. refl)
  tiers_to_3_iff tier_3 none h = ground arith
  tiers_to_3_iff tier_3 (some e) h = assert_phase2_admissible_iff tier_3 e
  tiers_to_3_iff tier_4 presented h = absurd (omega (arith, h))
