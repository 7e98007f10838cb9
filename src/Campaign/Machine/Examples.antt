-- ===== src/Campaign/Machine/Examples.antt =====
-- Runs of the orchestrator, and the theorems about it at concrete campaigns.
use recursive_self_improveme.Common.{
  ℕ, suc, String, ◌≡◌, refl, true, false, none, some, List, [], ◌∷◌, err, map,
}
use recursive_self_improveme.Common.Effects.{pure}
use recursive_self_improveme.Campaign.Phase.{
  plan, propose, dev_evaluate, select_freeze, holdout, approve, canary, promoted, paused,
}
use recursive_self_improveme.Campaign.Phase.Edges.{evaluating}
use recursive_self_improveme.Campaign.Machine.{
  CampaignOrchestrator, ExecutionGate, CompensationGate, raised, Operation, move, suspend, wake,
  fresh, perform, run, transition, consult,
}
use recursive_self_improveme.Campaign.Machine.Moves.{advanced}
use recursive_self_improveme.Campaign.Machine.History.{IsFaithful, run-fresh-IsFaithful}
use recursive_self_improveme.Campaign.Machine.Milestones.{IsOrderly, run-fresh-IsOrderly, effective}
use recursive_self_improveme.Campaign.Machine.Gates.{evaluation_refused}
use recursive_self_improveme.Campaign.Machine.Barred.{
  BeforeExecution, NeverReleased, never_executed, never_released,
}
use recursive_self_improveme.Campaign.Machine.Progress.{Reaches, Move-Reaches}

-- The gates' objects count how often they were asked.
abbrev closed_gate : ExecutionGate ℕ String
closed_gate = record { approve_execution = λ w. (err "blocked", suc w) }

abbrev no_canary : CompensationGate ℕ String
no_canary = record {
  approve_canary = λ w. (err "unexecuted", suc w);
  execute_rollback_compensations = pure tt;
}

abbrev whole_lifecycle : List (Operation × String × ℕ)
whole_lifecycle =
    (move plan, "", 1)
    ∷ (move propose, "", 2)
    ∷ (move dev_evaluate, "", 3)
    ∷ (move propose, "revise", 4)
    ∷ (move dev_evaluate, "", 5)
    ∷ (move select_freeze, "", 6)
    ∷ (suspend, "night", 7)
    ∷ (suspend, "again", 8)
    ∷ (wake, "", 9)
    ∷ (move holdout, "", 10)
    ∷ (move approve, "", 11)
    ∷ (move canary, "", 12)
    ∷ (move promoted, "", 13)
    ∷ []

abbrev ungated : CampaignOrchestrator ℕ String
ungated = fresh true none none

phases_of_whole_lifecycle :
    map (λ tr. tr.to_phase) (run whole_lifecycle ungated 0).0.sink
    ≡ plan ∷ propose ∷ dev_evaluate ∷ propose ∷ dev_evaluate ∷ select_freeze ∷ paused
      ∷ select_freeze ∷ holdout ∷ approve ∷ canary ∷ promoted ∷ []
unfolding fresh run perform
phases_of_whole_lifecycle = refl

gate_was_asked : (run whole_lifecycle (fresh true (some closed_gate) none) 0).1 ≡ 2
unfolding fresh run perform
gate_was_asked = refl

-- The campaign waits for the phase that it was suspended in.
abbrev asleep : CampaignOrchestrator ℕ String
unfolding run fresh
asleep = (run ((move plan, "", 1) ∷ (suspend, "night", 2) ∷ []) ungated 0).0

run-fresh-IsFaithful_example : IsFaithful (run whole_lifecycle ungated 0).0
run-fresh-IsFaithful_example = run-fresh-IsFaithful whole_lifecycle true none none 0

run-fresh-IsOrderly_example : IsOrderly (run whole_lifecycle ungated 0).0
run-fresh-IsOrderly_example = run-fresh-IsOrderly whole_lifecycle true none none 0

abbrev proposing_campaign : CampaignOrchestrator ℕ String
proposing_campaign = record {
  phase = propose;
  resume_target = none;
  sink = [];
  has_clock = false;
  execution_gate = some closed_gate;
  compensation_gate = none;
}

evaluation_refused_at_test :
    transition dev_evaluate "go" 0 proposing_campaign 3
    ≡ (err (raised "blocked"), proposing_campaign, 4)
evaluation_refused_at_test =
    evaluation_refused proposing_campaign 3 4 "blocked" "go" 0 closed_gate refl refl refl

never_executed_at_test : BeforeExecution (
    effective
      (run whole_lifecycle (fresh true (some closed_gate) none) 0).0.phase
      (run whole_lifecycle (fresh true (some closed_gate) none) 0).0.resume_target)
unfolding fresh
never_executed_at_test =
    never_executed whole_lifecycle true (some closed_gate) none 0
      (closed_gate, refl, λ w. ("blocked", suc w, refl))

refusing_gate_test : NeverReleased (
    effective
      (run whole_lifecycle (fresh true none (some no_canary)) 0).0.phase
      (run whole_lifecycle (fresh true none (some no_canary)) 0).0.resume_target)
unfolding fresh
refusing_gate_test =
    never_released whole_lifecycle true none (some no_canary) 0
      (no_canary, refl, λ w. ("unexecuted", suc w, refl))

abbrev open_campaign : CampaignOrchestrator ℕ String
open_campaign = record proposing_campaign { execution_gate = none }

Move-Reaches_at_test :
    (operation : Operation) × Reaches open_campaign 0 0 "go" 0
      (perform operation "go" 0 open_campaign 0)
      dev_evaluate
      none
unfolding consult
Move-Reaches_at_test = Move-Reaches open_campaign 0 0 "go" 0 (advanced evaluating refl) refl
