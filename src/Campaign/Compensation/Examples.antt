-- ===== src/Campaign/Compensation/Examples.antt =====
-- Plans, walks and promotions at concrete values, and a campaign under the checkpointed gate.
use recursive_self_improveme.Common.{
  ℕ, suc, ◌+◌, ◌≡◌, refl, ◌↔◌, true, false, none, some, [], ◌∷◌, ◌++◌, ok, err, ◌==◌, if◌then◌else◌,
}
use recursive_self_improveme.Common.Json.{Bytes}
use recursive_self_improveme.Security.Fixtures.{demo_crypto}
use recursive_self_improveme.Campaign.Compensation.{
  CompensationAction, CompensationExecutionRecord, execution_failed, unexecuted,
  SignedCompensationPlan, compensation_plan_body, body, plan_verifies, dict, text,
  sign_compensation_plan,
}
use recursive_self_improveme.Campaign.Compensation.Execution.{
  CompensationExecutor, execute_rollback_compensations, assert_promotion_allowed,
  gate_execute_rollback,
}
use recursive_self_improveme.Campaign.Compensation.Promotion.{
  Discharged, assert_promotion_allowed_iff,
}
use recursive_self_improveme.Campaign.Compensation.Evidence.{
  Evidence, execute_rollback-Evidence, gate_rollback-discharges,
}
use recursive_self_improveme.Campaign.Compensation.Failures.{Aborts, execute_rollback_fails_iff}

abbrev revoke : CompensationAction
revoke = record {
  artifact_digest = "sha256:1";
  action = "revoke_artifact";
  mode = "cas";
  executed = false;
}

abbrev hook : CompensationAction
hook = record {
  artifact_digest = "sha256:2";
  action = "run_compensation_hook";
  mode = "requires_execution";
  executed = false;
}

abbrev key : Bytes
key = 7 ∷ 9 ∷ []

abbrev demo_plan : SignedCompensationPlan
demo_plan = record {
  plan_id = "plan-1";
  campaign_id = some "campaign-1";
  manifest_digest = none;
  actions = revoke ∷ hook ∷ [];
  plan_digest = "sha256:cafe";
  signature = key ++ compensation_plan_body "plan-1" (some "campaign-1") none (revoke ∷ hook ∷ []);
  signer_public_key = key;
}

demo_plan_signed :
    sign_compensation_plan demo_crypto "plan-1"
      (some "campaign-1")
      none
      (dict (text "sha256:1") (text "cas") "revoke_artifact" false
        ∷ dict (text "sha256:2") (text "requires_execution") "run_compensation_hook" false
        ∷ [])
      key
    ≡ ok demo_plan
unfolding sign_compensation_plan
demo_plan_signed = refl

demo_plan_verifies : plan_verifies demo_crypto demo_plan ≡ true
unfolding plan_verifies compensation_plan_body body
demo_plan_verifies = refl

-- The world counts the executed actions.
abbrev counting : CompensationExecutor ℕ
counting = record { execute = λ index action w. (ok tt, suc w); clock = some (λ w. 100 + w) }

abbrev hook_record : CompensationExecutionRecord
hook_record = record {
  plan_id = "plan-1";
  action_index = 1;
  artifact_digest = "sha256:2";
  at = 101;
}

assert_promotion_allowed_iff_example :
    (assert_promotion_allowed demo_crypto demo_plan (hook_record ∷ []) ≡ ok tt) ↔ (
      (plan_verifies demo_crypto demo_plan ≡ true)
      × Discharged "plan-1" (hook_record ∷ []) 0 (revoke ∷ hook ∷ []))
assert_promotion_allowed_iff_example =
    assert_promotion_allowed_iff demo_crypto demo_plan (hook_record ∷ [])

refused_without_record :
    assert_promotion_allowed demo_crypto demo_plan []
    ≡ err (unexecuted "plan-1" 1 "run_compensation_hook" "sha256:2")
unfolding assert_promotion_allowed compensation_plan_body body
refused_without_record = refl

execute_rollback-Evidence_at_test : Evidence "plan-1" 0 (revoke ∷ hook ∷ []) (hook_record ∷ [])
unfolding execute_rollback_compensations
execute_rollback-Evidence_at_test =
    execute_rollback-Evidence demo_plan counting 0 1 (hook_record ∷ []) refl

gate_rollback-discharges_example :
    assert_promotion_allowed demo_crypto demo_plan (hook_record ∷ []) ≡ ok tt
unfolding gate_execute_rollback plan_verifies compensation_plan_body body
gate_rollback-discharges_example =
    gate_rollback-discharges demo_crypto demo_plan counting 0 1 [] (hook_record ∷ []) refl refl

-- Two actions: the first is executed, the second raises.
abbrev two_hooks : SignedCompensationPlan
two_hooks = record {
  plan_id = "plan-2";
  campaign_id = none;
  manifest_digest = none;
  actions = revoke ∷ hook ∷ hook ∷ hook ∷ [];
  plan_digest = "sha256:cafe";
  signature = [];
  signer_public_key = key;
}

abbrev second_fails : CompensationExecutor ℕ
second_fails = record {
  execute = λ index action w.
      if index == 2 then (err (execution_failed "hook"), suc w) else (ok tt, suc w);
  clock = none;
}

execute_rollback_fails_iff_example :
    (execute_rollback_compensations two_hooks second_fails 0 ≡ (err (execution_failed "hook"), 2))
    ↔ Aborts second_fails 0 (revoke ∷ hook ∷ hook ∷ hook ∷ []) 0 (execution_failed "hook") 2
execute_rollback_fails_iff_example =
    execute_rollback_fails_iff two_hooks second_fails 0 2 (execution_failed "hook")

second_fails_test :
    execute_rollback_compensations two_hooks second_fails 0 ≡ (err (execution_failed "hook"), 2)
unfolding execute_rollback_compensations
second_fails_test = refl

-- The gate keeps no record of the action that was executed before the one that failed.
failed_gate_test :
    gate_execute_rollback demo_crypto two_hooks second_fails (0, hook_record ∷ [])
    ≡ (err (execution_failed "hook"), (2, hook_record ∷ []))
unfolding gate_execute_rollback
failed_gate_test = refl
