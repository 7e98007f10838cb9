-- ===== src/Release/Eligibility.antt =====
-- The canary admission gate: release/eligibility.py.
pub mod Tiers
mod Examples
use recursive_self_improveme.Common.{
  ℕ, zero, suc, ◌+◌, ◌-◌, ◌*◌, ◌/◌, ◌%◌, ◌≤◌, ◌<◌, min, max, String, ◌≡◌, refl, sym, ap, ◌∙◌, subst,
  ◌≢◌, ◌↔◌, ◌⊎◌, inl, inr, Bool, true, false, ◌&&◌, ◌||◌, not, Option, none, some, List, [], ◌∷◌,
  is_empty, ◌++◌, map, arith, str_eq, str_eq_iff, ltb, leb, ◌==◌, if◌then◌else◌, ltb→lt, lt→ltb,
  leb→le, ==_iff, Bool-cases, Option-cases, opt_eq, opt_eq→eq, opt_eq_refl, length, length-append,
  replicate, All, All-append, Outcome, ok, err, Outcome-cases,
}
use recursive_self_improveme.Selection.Authority.{
  tier_value, tier_2, ResolvedRelease, of_classes, resolve_authority_tier,
}
use recursive_self_improveme.Release.Manifest.{ReleaseError, canary_ineligible}

pub record CanaryEligibility : Type 0 where
  pub eligible : Bool
  pub ineligible_classes : List String
  pub refusals : List String

-- A class is refused if a release of it alone is of a tier above tier 2.
unfoldable pub ineligible_class : String → Bool
unfolding resolve_authority_tier of_classes tier_value
ineligible_class cls =
    ltb (tier_value tier_2) (tier_value (resolve_authority_tier (of_classes (cls ∷ []))))

unfoldable pub ineligible_in : List String → List String
unfolding ineligible_class
ineligible_in [] = []
ineligible_in (cls ∷ rest) =
    let others = ineligible_in rest in if ineligible_class cls then cls ∷ others else others

-- `if test: refusals.append(reason)`
unfoldable pub refuse_if : Bool → String → List String → List String
refuse_if test reason rest = if test then reason ∷ rest else rest

unfoldable pub refusals_of : ResolvedRelease → List String
unfolding refuse_if
refusals_of r =
    refuse_if (is_empty r.artifact_classes) "the release resolves to no artifact classes" (
      refuse_if (not r.reversible) "the release is not reversible by pointer rollback alone" (
        refuse_if (str_eq r.runtime_surface "runtime") "the release reaches the runtime surface" (
          refuse_if r.touches_harness "the release touches the evaluation harness" (
            refuse_if r.contains_executable_content "the release contains executable content" (
              refuse_if (str_eq r.memory_write_mode "direct") "the release writes memory directly"
                [])))))

unfoldable pub resolve_canary_eligibility : ResolvedRelease → CanaryEligibility
unfolding ineligible_in refusals_of
resolve_canary_eligibility r = record {
  eligible = is_empty (ineligible_in r.artifact_classes) && is_empty (refusals_of r);
  ineligible_classes = ineligible_in r.artifact_classes;
  refusals = refusals_of r;
}

unfoldable pub assert_canary_eligible : ResolvedRelease → Outcome ReleaseError CanaryEligibility
unfolding resolve_canary_eligibility
assert_canary_eligible r =
    let eligibility = resolve_canary_eligibility r in
    if not eligibility.eligible
    then err (canary_ineligible eligibility.ineligible_classes eligibility.refusals)
    else ok eligibility
