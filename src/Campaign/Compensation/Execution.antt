-- ===== src/Campaign/Compensation/Execution.antt =====
-- The execution of a compensation plan, the promotion check on the evidence, and the gate over
-- both: the second half of campaign/compensation.py.
use recursive_self_improveme.Common.{
  ℕ, suc, Bool, true, false, ◌&&◌, ◌||◌, not, String, str_eq, Option, none, some, List, [], ◌∷◌,
  ◌++◌, Outcome, ok, err, if◌then◌else◌, ◌==◌,
}
use recursive_self_improveme.Common.Effects.{Effect, pure, ◌>>◌}
use recursive_self_improveme.Security.{Crypto}
use recursive_self_improveme.Campaign.Machine.{CompensationGate}
use recursive_self_improveme.Campaign.Compensation.{
  CompensationAction, CompensationExecutionRecord, SignedCompensationPlan, CompensationError,
  tampered, unexecuted, cas_mode, plan_verifies,
}

-- The executor of compensations, over what it acts on, `X`: `execute` may raise. `clock` reads the
-- injected clock, if there is one.
pub record CompensationExecutor (X : Type 0) : Type 0 where
  pub execute : ℕ → CompensationAction → Effect X CompensationError (Unit {0})
  pub clock : Option (X → ℕ)

unfoldable pub is_cas : CompensationAction → Bool
is_cas action = str_eq action.mode cas_mode

module _ {X : Type 0} (plan : SignedCompensationPlan) (executor : CompensationExecutor X) where
  unfoldable pub read_clock : X → ℕ
  read_clock x = elim executor.clock [ none ↦ 0 | some now ↦ now x ]

  unfoldable pub execution_record : ℕ → CompensationAction → X → CompensationExecutionRecord
  unfolding read_clock
  execution_record index action x = record {
    plan_id = plan.plan_id;
    action_index = index;
    artifact_digest = action.artifact_digest;
    at = read_clock x;
  }

  -- The loop, with the records so far. What the executor raises, the loop raises.
  unfoldable pub walk :
      ℕ
      → List CompensationAction
      → List CompensationExecutionRecord
      → Effect X CompensationError (List CompensationExecutionRecord)
  unfolding execution_record is_cas
  walk index [] records = pure records
  walk index (action ∷ rest) records = elim (is_cas action) [
    | true ↦ walk (suc index) rest records
    | false ↦ do
      executor.execute index action
      λ x. walk (suc index) rest (records ++ execution_record index action x ∷ []) x
  ]

  unfoldable pub execute_rollback_compensations :
      Effect X CompensationError (List CompensationExecutionRecord)
  unfolding walk
  execute_rollback_compensations = walk 0 plan.actions []

-- `index in {record.action_index for record in executions if record.plan_id == plan.plan_id}`
unfoldable pub was_executed : String → List CompensationExecutionRecord → ℕ → Bool
was_executed plan_id [] index = false
was_executed plan_id (r ∷ rs) index =
    (str_eq r.plan_id plan_id && r.action_index == index) || was_executed plan_id rs index

unfoldable pub check_from :
    String
    → List CompensationExecutionRecord
    → ℕ
    → List CompensationAction
    → Outcome CompensationError (Unit {0})
unfolding was_executed is_cas
check_from plan_id executions index [] = ok tt
check_from plan_id executions index (action ∷ rest) =
    let later = check_from plan_id executions (suc index) rest in
    if is_cas action || was_executed plan_id executions index
    then later
    else err (unexecuted plan_id index action.action action.artifact_digest)

unfoldable pub assert_promotion_allowed :
    Crypto
    → SignedCompensationPlan
    → List CompensationExecutionRecord
    → Outcome CompensationError (Unit {0})
unfolding plan_verifies check_from
assert_promotion_allowed crypto plan executions =
    if not (plan_verifies crypto plan)
    then err (tampered plan.plan_id)
    else check_from plan.plan_id executions 0 plan.actions

-- What a gate acts on: the executor's world, and the sink of execution records.
abbrev pub GateWorld : Type 0 → Type 0
GateWorld X = X × List CompensationExecutionRecord

module _ {X : Type 0} (crypto : Crypto) (plan : SignedCompensationPlan)
    (executor : CompensationExecutor X) where
  -- `CheckpointedCompensationGate.approve_canary`
  unfoldable pub gate_approve_canary : Effect (GateWorld X) CompensationError (Unit {0})
  unfolding assert_promotion_allowed
  gate_approve_canary (x, sink) = (assert_promotion_allowed crypto plan sink, (x, sink))

  -- `CheckpointedCompensationGate.execute_rollback_compensations`: the records are appended when
  -- the walk has returned them all.
  unfoldable pub append_records :
      Outcome CompensationError (List CompensationExecutionRecord) × X
      → List CompensationExecutionRecord
      → Outcome CompensationError (Unit {0}) × GateWorld X
  append_records (ok records, x) sink = (ok tt, (x, sink ++ records))
  append_records (err e, x) sink = (err e, (x, sink))

  unfoldable pub gate_execute_rollback : Effect (GateWorld X) CompensationError (Unit {0})
  unfolding execute_rollback_compensations append_records
  gate_execute_rollback (x, sink) =
      append_records (execute_rollback_compensations plan executor x) sink

  unfoldable pub checkpointed_gate : CompensationGate (GateWorld X) CompensationError
  unfolding gate_approve_canary gate_execute_rollback
  checkpointed_gate = record {
    approve_canary = gate_approve_canary;
    execute_rollback_compensations = gate_execute_rollback;
  }
