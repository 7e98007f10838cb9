-- ===== src/Campaign/Examples.antt =====
-- A campaign under the checkpointed compensation gate, at concrete values.
use recursive_self_improveme.Common.{
  ℕ, String, ◌≡◌, refl, true, false, none, some, List, [], ◌∷◌, ok,
}
use recursive_self_improveme.Security.Fixtures.{demo_crypto}
use recursive_self_improveme.Campaign.Phase.{
  plan, propose, dev_evaluate, select_freeze, holdout, approve, canary,
}
use recursive_self_improveme.Campaign.Machine.{
  CampaignOrchestrator, Operation, move, fresh, run, perform,
}
use recursive_self_improveme.Campaign.Compensation.{
  CompensationAction, SignedCompensationPlan, compensation_plan_body, body, CompensationError,
}
use recursive_self_improveme.Campaign.Compensation.Execution.{
  CompensationExecutor, checkpointed_gate, GateWorld,
}
use recursive_self_improveme.Campaign.Promotion.{IsDischarged, IsGated, gate, released-IsDischarged}

abbrev revoke : CompensationAction
revoke = record {
  artifact_digest = "sha256:1";
  action = "revoke_artifact";
  mode = "cas";
  executed = false;
}

abbrev revoking_plan : SignedCompensationPlan
revoking_plan = record {
  plan_id = "plan-2";
  campaign_id = none;
  manifest_digest = none;
  actions = revoke ∷ [];
  plan_digest = "sha256:cafe";
  signature = 7 ∷ compensation_plan_body "plan-2" none none (revoke ∷ []);
  signer_public_key = 7 ∷ [];
}

abbrev idle : CompensationExecutor ℕ
idle = record { execute = λ index action w. (ok tt, w); clock = none }

abbrev until_canary : List (Operation × String × ℕ)
until_canary =
    (move plan, "", 1)
    ∷ (move propose, "", 2)
    ∷ (move dev_evaluate, "", 3)
    ∷ (move select_freeze, "", 4)
    ∷ (move holdout, "", 5)
    ∷ (move approve, "", 6)
    ∷ (move canary, "", 7)
    ∷ []

abbrev gated : CampaignOrchestrator (GateWorld ℕ) CompensationError
gated = fresh true none (some (gate demo_crypto revoking_plan idle))

gated-IsGated : IsGated demo_crypto revoking_plan idle gated
unfolding fresh
gated-IsGated = record { installed = refl; apart = λ g w h. cc }

reaches_canary : (run until_canary gated (0, [])).0.phase ≡ canary
unfolding run perform fresh checkpointed_gate body compensation_plan_body
reaches_canary = refl

released-IsDischarged_example :
    IsDischarged demo_crypto revoking_plan idle (run until_canary gated (0, [])).1
unfolding run perform fresh checkpointed_gate body compensation_plan_body
released-IsDischarged_example =
    released-IsDischarged demo_crypto revoking_plan idle until_canary true none (0, [])
      gated-IsGated (λ h. h)
