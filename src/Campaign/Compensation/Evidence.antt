-- ===== src/Campaign/Compensation/Evidence.antt =====
-- What the rollback walk of campaign/compensation.py executes and records.
use recursive_self_improveme.Common.{
  ℕ, suc, ◌≡◌, ◌≢◌, refl, sym, ◌∙◌, subst, inl, inr, true, false, Bool-cases, String, str_eq_iff,
  List, [], ◌∷◌, ◌++◌, Outcome, ok, err, arith, Any-append_right,
}
use mathlib.Core.List.{append-nil, append_assoc}
use recursive_self_improveme.Common.Effects.{Returned-cases, ok_injective, ok_ne_err}
use recursive_self_improveme.Security.{Crypto}
use recursive_self_improveme.Campaign.Compensation.{
  CompensationAction, CompensationExecutionRecord, SignedCompensationPlan, CompensationError,
  cas_mode, plan_verifies,
}
use recursive_self_improveme.Campaign.Compensation.Execution.{
  CompensationExecutor, is_cas, execution_record, walk, execute_rollback_compensations,
  assert_promotion_allowed, append_records, gate_execute_rollback,
}
use recursive_self_improveme.Campaign.Compensation.Promotion.{
  Discharged, assert_promotion_allowed_iff,
}

-- One record for each action that is no compare-and-swap, in the declared order.
pub data Evidence (plan_id : String)
    : ℕ → List CompensationAction → List CompensationExecutionRecord → Type 0 where
  done : {i : ℕ} → Evidence plan_id i [] []
  skipped :
      {i : ℕ} {a : CompensationAction} {rest : List CompensationAction}
      {rs : List CompensationExecutionRecord}
      → a.mode ≡ cas_mode
      → Evidence plan_id (suc i) rest rs
      → Evidence plan_id i (a ∷ rest) rs
  executed :
      {i : ℕ} {a : CompensationAction} {rest : List CompensationAction}
      {r : CompensationExecutionRecord} {rs : List CompensationExecutionRecord}
      → a.mode ≢ cas_mode
      → r.plan_id ≡ plan_id
      → r.action_index ≡ i
      → r.artifact_digest ≡ a.artifact_digest
      → Evidence plan_id (suc i) rest rs
      → Evidence plan_id i (a ∷ rest) (r ∷ rs)

-- Records before or behind do no harm.
Evidence-Discharged :
    {plan_id : String} {i : ℕ} {actions : List CompensationAction}
    {rs : List CompensationExecutionRecord} (before : List CompensationExecutionRecord)
    → Evidence plan_id i actions rs
    → Discharged plan_id (before ++ rs) i actions
Evidence-Discharged before done = tt
Evidence-Discharged before (skipped cas e) = (inl cas, Evidence-Discharged before e)
Evidence-Discharged {plan_id} {i} before (executed {r = r} {rs = rs} ne p q d e) = (
  inr (
      Any-append_right (λ r. (r.plan_id ≡ plan_id) × (r.action_index ≡ i)) before (r ∷ rs)
        (inl (p, q))),
  rw (append_assoc before (r ∷ []) rs) at (Evidence-Discharged (before ++ r ∷ []) e),
)

module _ {X : Type 0} (plan : SignedCompensationPlan) (executor : CompensationExecutor X) where
  -- The records that the walk adds.
  abbrev Adds :
      ℕ
      → List CompensationAction
      → List CompensationExecutionRecord
      → List CompensationExecutionRecord
      → Type 0
  Adds i actions before all =
      (new : List CompensationExecutionRecord) × (all ≡ before ++ new)
      × Evidence plan.plan_id i actions new

  pub walk-cas :
      (i : ℕ) (a : CompensationAction) (rest : List CompensationAction)
      (before : List CompensationExecutionRecord) (x : X)
      → is_cas a ≡ true
      → walk plan executor i (a ∷ rest) before x ≡ walk plan executor (suc i) rest before x
  unfolding walk
  walk-cas i a rest before x h = rw (h, walk)

  pub walk-ok :
      (i : ℕ) (a : CompensationAction) (rest : List CompensationAction)
      (before : List CompensationExecutionRecord) (x y : X)
      → is_cas a ≡ false
      → executor.execute i a x ≡ (ok tt, y)
      → walk plan executor i (a ∷ rest) before x
        ≡ walk plan executor (suc i) rest (before ++ execution_record plan executor i a y ∷ []) y
  unfolding walk
  walk-ok i a rest before x y h e = rw (h, e, walk)

  pub walk-err :
      (i : ℕ) (a : CompensationAction) (rest : List CompensationAction)
      (before : List CompensationExecutionRecord) (x y : X) (f : CompensationError)
      → is_cas a ≡ false
      → executor.execute i a x ≡ (err f, y)
      → walk plan executor i (a ∷ rest) before x ≡ (err f, y)
  unfolding walk
  walk-err i a rest before x y f h e = rw (h, e, walk)

  pub is_cas-true : (a : CompensationAction) → is_cas a ≡ true → a.mode ≡ cas_mode
  unfolding is_cas
  is_cas-true a h = (str_eq_iff a.mode cas_mode).0 h

  pub is_cas-false : (a : CompensationAction) → is_cas a ≡ false → a.mode ≢ cas_mode
  unfolding is_cas
  is_cas-false a h e = ground (arith, str_eq_iff a.mode cas_mode)

  walk-Adds :
      (i : ℕ) (actions : List CompensationAction) (before : List CompensationExecutionRecord)
      (x x' : X) (all : List CompensationExecutionRecord)
      → walk plan executor i actions before x ≡ (ok all, x')
      → Adds i actions before all
  unfolding walk execution_record
  walk-Adds i [] before x x' all h = ([], sym (ok_injective h).0 ∙ sym (append-nil before), done)
  walk-Adds i (a ∷ rest) before x x' all h = elim (Bool-cases (is_cas a)) [
    | inl cas ↦
        let (new, e, evidence) =
          walk-Adds (suc i) rest before x x' all (sym (walk-cas i a rest before x cas) ∙ h) in
        (new, e, skipped (is_cas-true a cas) evidence)
    | inr not_cas ↦ elim (Returned-cases (executor.execute i a x)) [
      | inl (_, y, e) ↦
          let r = execution_record plan executor i a y in
          let (new, eq, evidence) =
            walk-Adds (suc i) rest (before ++ r ∷ []) y x' all
              (sym (walk-ok i a rest before x y not_cas e) ∙ h) in
          (
            r ∷ new,
            eq ∙ append_assoc before (r ∷ []) new,
            executed (is_cas-false a not_cas) refl refl refl evidence,
          )
      | inr (f, y, e) ↦ absurd (ok_ne_err (sym h ∙ walk-err i a rest before x y f not_cas e))
    ]
  ]

  -- A rollback walk that succeeds returns one record for each action that requires execution, with
  -- the plan's id and the action's position and artifact, in the declared order, and no other.
  pub execute_rollback-Evidence :
      (x x' : X) (records : List CompensationExecutionRecord)
      → execute_rollback_compensations plan executor x ≡ (ok records, x')
      → Evidence plan.plan_id 0 plan.actions records
  unfolding execute_rollback_compensations
  execute_rollback-Evidence x x' records h =
      let (new, e, evidence) = walk-Adds 0 plan.actions [] x x' records h in
      subst (Evidence plan.plan_id 0 plan.actions) (sym e) evidence

module _ {X : Type 0} (crypto : Crypto) (plan : SignedCompensationPlan)
    (executor : CompensationExecutor X) (x x' : X)
    (sink sink' : List CompensationExecutionRecord) where
  append_records-ok :
      (r : Outcome CompensationError (List CompensationExecutionRecord) × X)
      → append_records crypto plan executor r sink ≡ (ok tt, (x', sink'))
      → (records : List CompensationExecutionRecord) × (r ≡ (ok records, x'))
        × (sink' ≡ sink ++ records)
  unfolding append_records
  append_records-ok (ok records, y) h = (records, ground arith, ground arith)
  append_records-ok (err e, y) h = absurd (ok_ne_err (sym h))

  -- A rollback through the gate that succeeds discharges the plan: the promotion check passes on
  -- the sink that it leaves, whatever the sink held before.
  pub gate_rollback-discharges :
      plan_verifies crypto plan ≡ true
      → gate_execute_rollback crypto plan executor (x, sink) ≡ (ok tt, (x', sink'))
      → assert_promotion_allowed crypto plan sink' ≡ ok tt
  unfolding gate_execute_rollback
  gate_rollback-discharges verifies h =
      let (records, e, eq) = append_records-ok (execute_rollback_compensations plan executor x) h in
      (assert_promotion_allowed_iff crypto plan sink').1 (
        verifies,
        rw eq (Evidence-Discharged sink (execute_rollback-Evidence plan executor x x' records e)),
      )
