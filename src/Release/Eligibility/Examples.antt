-- ===== src/Release/Eligibility/Examples.antt =====
-- The canary gate of release/eligibility.py at concrete releases.
use recursive_self_improveme.Common.{String, ◌≡◌, refl, ◌↔◌, false, none, [], ◌∷◌, ok, err}
use recursive_self_improveme.Selection.Authority.{
  of_classes, resolve_authority_tier, assert_phase2_admissible,
}
use recursive_self_improveme.Release.Manifest.{canary_ineligible}
use recursive_self_improveme.Release.Eligibility.{
  resolve_canary_eligibility, assert_canary_eligible,
}
use recursive_self_improveme.Release.Eligibility.Tiers.{canary_iff_tier}

abbrev same_case : String → String
same_case s = s

refused_test :
    assert_canary_eligible
      (record (of_classes ("prompt_bundle" ∷ "tool_spec" ∷ [])) { reversible = false })
    ≡ err (
        canary_ineligible
          ("tool_spec" ∷ [])
          ("the release is not reversible by pointer rollback alone" ∷ []))
unfolding assert_canary_eligible of_classes
refused_test = refl

canary_iff_tier_example :
    (let r = of_classes ("prompt_bundle" ∷ "skill_package" ∷ []) in
      (assert_canary_eligible r ≡ ok (resolve_canary_eligibility r))
      ↔ (assert_phase2_admissible same_case (resolve_authority_tier r) none ≡ ok tt))
canary_iff_tier_example =
    canary_iff_tier same_case (of_classes ("prompt_bundle" ∷ "skill_package" ∷ []))
