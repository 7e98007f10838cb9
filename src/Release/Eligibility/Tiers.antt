-- ===== src/Release/Eligibility/Tiers.antt =====
-- The canary gate of release/eligibility.py against the tiers of selection/authority.py.
use recursive_self_improveme.Common.{
  String, ◌≡◌, refl, sym, ◌↔◌, Bool, true, false, ◌&&◌, not, none, List, [], ◌∷◌, is_empty, arith,
  str_eq, ltb, if◌then◌else◌, All, ok,
}
use recursive_self_improveme.Selection.Authority.{
  AuthorityTier, tier_value, tier_2, tier_3, ResolvedRelease, of_classes, resolve_authority_tier,
  assert_phase2_admissible, judge_evidence, tier_by_class, class_tiers, max_of, missing_evidence,
  require_legs, require_two_person_approval,
}
use recursive_self_improveme.Selection.Authority.Classes.{
  ApprovalFree, Contained, resolve-Contained, is_elevated, Contained-is_elevated, not_elevated,
  max_of_iff,
}
use recursive_self_improveme.Release.Eligibility.{
  refuse_if, ineligible_class, ineligible_in, refusals_of, resolve_canary_eligibility,
  assert_canary_eligible,
}

above_iff : (t : AuthorityTier) → (ltb (tier_value tier_2) (tier_value t) ≡ false) ↔ ApprovalFree t
unfolding ApprovalFree tier_value
above_iff t = ground arith

-- A class on its own is judged by the table.
ineligible_class_iff :
    (cls : String) → (ineligible_class cls ≡ false) ↔ ApprovalFree (tier_by_class cls)
unfolding ineligible_class resolve_authority_tier of_classes class_tiers max_of
ineligible_class_iff cls = above_iff (tier_by_class cls)

keep_iff :
    {F G : Type 0} (b : Bool) (cls : String) (others : List String)
    → (b ≡ false) ↔ F
    → (is_empty others ≡ true) ↔ G
    → (is_empty (if b then cls ∷ others else others) ≡ true) ↔ (F × G)
keep_iff true cls others f g = ((λ h. cc), λ h. sym (f.1 h.0))
keep_iff false cls others f g = ((λ h. (f.0 refl, g.0 h)), λ h. g.1 h.1)

ineligible_in_iff :
    (classes : List String)
    → (is_empty (ineligible_in classes) ≡ true)
      ↔ All (λ cls. ApprovalFree (tier_by_class cls)) classes
unfolding ineligible_in
ineligible_in_iff [] = ((λ h. tt), λ h. refl)
ineligible_in_iff (cls ∷ rest) =
    keep_iff (ineligible_class cls) cls (ineligible_in rest) (ineligible_class_iff cls)
      (ineligible_in_iff rest)

tier_3_not_free : ApprovalFree tier_3 → ⊥
unfolding ApprovalFree tier_value
tier_3_not_free h = omega (arith, h)

classes_iff :
    (classes : List String)
    → ApprovalFree (class_tiers classes)
      ↔ ((is_empty classes ≡ false) × (is_empty (ineligible_in classes) ≡ true))
unfolding class_tiers
classes_iff [] = ((λ h. elim (tier_3_not_free h) [ ]), λ h. cc)
classes_iff (cls ∷ rest) =
    let top = max_of_iff (tier_by_class cls) rest in
    let kept = ineligible_in_iff (cls ∷ rest) in
    ((λ h. (refl, kept.1 (top.0 h))), λ h. top.1 (kept.0 h.1))

empty-refuse_if :
    (test : Bool) (reason : String) (rest : List String)
    → is_empty (refuse_if test reason rest) ≡ not test && is_empty rest
unfolding refuse_if
empty-refuse_if true reason rest = refl
empty-refuse_if false reason rest = refl

empty-refusals :
    (r : ResolvedRelease)
    → is_empty (refusals_of r) ≡ (
        not (is_empty r.artifact_classes)
        && (not (not r.reversible)
            && (not (str_eq r.runtime_surface "runtime")
                && (not r.touches_harness
                    && (not r.contains_executable_content
                        && (not (str_eq r.memory_write_mode "direct") && true))))))
unfolding refusals_of
empty-refusals r = simp empty-refuse_if refl

facts :
    (r : ResolvedRelease)
    → is_empty (ineligible_in r.artifact_classes) && is_empty (refusals_of r) ≡ true
    → (r.touches_harness ≡ false)
      × (is_elevated r ≡ false)
      × ((is_empty r.artifact_classes ≡ false)
          × (is_empty (ineligible_in r.artifact_classes) ≡ true))
unfolding is_elevated
facts r h = let e = empty-refusals r in (ground arith, ground arith, (ground arith, ground arith))

-- The canary gate lets through exactly the releases that need no approval.
pub eligible_iff :
    (r : ResolvedRelease) → ((resolve_canary_eligibility r).eligible ≡ true) ↔ Contained r
unfolding resolve_canary_eligibility is_elevated
eligible_iff r = (
  (λ h. let f = facts r h in not_elevated r f.0 f.1 ((classes_iff r.artifact_classes).1 f.2)),
  λ c.
      let e = empty-refusals r in
      let f = Contained-is_elevated r c in
      let g = (classes_iff r.artifact_classes).0 c.classes_free in
      let k = c.outside_harness in ground arith,
)

module _ (casefold : String → String) where
  free_iff :
      (tier : AuthorityTier)
      → (assert_phase2_admissible casefold tier none ≡ ok tt) ↔ ApprovalFree tier
  unfolding assert_phase2_admissible judge_evidence tier_value ApprovalFree
      require_two_person_approval require_legs missing_evidence
  free_iff tier = ground arith

  -- The canary gate lets through exactly the releases that the tier gate admits with no approval
  -- evidence at all.
  pub canary_iff_tier :
      (r : ResolvedRelease)
      → (assert_canary_eligible r ≡ ok (resolve_canary_eligibility r))
        ↔ (assert_phase2_admissible casefold (resolve_authority_tier r) none ≡ ok tt)
  unfolding assert_canary_eligible
  canary_iff_tier r =
      let a = eligible_iff r in
      let b = resolve-Contained r in
      let c = free_iff (resolve_authority_tier r) in
      ((λ h. c.1 (b.1 (a.0 (ground arith)))), λ h. rw (a.1 (b.0 (c.0 h))) refl)
