-- ===== src/Selection/Authority/Examples.antt =====
-- The tier gate of selection/authority.py and the canary gate of release/eligibility.py at concrete
-- releases.
use recursive_self_improveme.Common.{
  String, ◌≡◌, refl, ◌↔◌, arith, true, false, some, List, [], ◌∷◌, ok, err,
}
use recursive_self_improveme.Selection.Authority.{
  tier_value, tier_2, tier_3, tier_4, of_classes, resolve_authority_tier, bad_runtime_surface,
  check_shape, TierApprovalEvidence, tier_rejected, same_approver, assert_phase2_admissible,
}
use recursive_self_improveme.Selection.Authority.Admission.{Evidenced, tiers_to_3_iff}

abbrev approved_by : List String → TierApprovalEvidence
approved_by people = record {
  approvers = people;
  requested_by = some "ann";
  human_signoff = false;
  manually_initiated = false;
}

abbrev same_case : String → String
same_case s = s

tier_2_test : resolve_authority_tier (of_classes ("prompt_bundle" ∷ "memory_entry" ∷ [])) ≡ tier_2
unfolding resolve_authority_tier of_classes
tier_2_test = refl

unknown_class_test : resolve_authority_tier (of_classes ("prompt_bundle" ∷ "novel" ∷ [])) ≡ tier_3
unfolding resolve_authority_tier of_classes
unknown_class_test = refl

shape_test :
    check_shape (record (of_classes []) { runtime_surface = "kernel" })
    ≡ err (bad_runtime_surface "kernel")
unfolding check_shape of_classes
shape_test = refl

same_approver_test :
    assert_phase2_admissible same_case tier_3 (some (approved_by ("bob" ∷ "bob" ∷ [])))
    ≡ err (tier_rejected tier_3 (same_approver "bob"))
unfolding assert_phase2_admissible
same_approver_test = refl

-- Tier 4 is judged on its two legs alone: with them, no approver is asked for.
tier_4_test :
    assert_phase2_admissible same_case tier_4
      (some (record (approved_by []) { human_signoff = true; manually_initiated = true }))
    ≡ ok tt
unfolding assert_phase2_admissible
tier_4_test = refl

tiers_to_3_iff_example :
    (assert_phase2_admissible same_case tier_3 (some (approved_by ("bob" ∷ "eve" ∷ []))) ≡ ok tt)
    ↔ Evidenced same_case tier_3 (some (approved_by ("bob" ∷ "eve" ∷ [])))
unfolding tier_value
tiers_to_3_iff_example =
    tiers_to_3_iff same_case tier_3 (some (approved_by ("bob" ∷ "eve" ∷ []))) (omega arith)
