-- ===== src/Campaign/Compensation/Failures.antt =====
-- How the rollback walk of campaign/compensation.py fails: what was executed before an action raised.
use recursive_self_improveme.Common.{
  ℕ, suc, ◌≡◌, ◌≢◌, sym, ap, ◌↔◌, ◌∙◌, inl, inr, true, false, Bool-cases, str_eq_iff, List, [], ◌∷◌,
  ◌++◌, ok, err, arith,
}
use recursive_self_improveme.Common.Effects.{Returned-cases, err_injective, ok_ne_err}
use recursive_self_improveme.Campaign.Compensation.{
  CompensationAction, CompensationExecutionRecord, SignedCompensationPlan, CompensationError,
  cas_mode,
}
use recursive_self_improveme.Campaign.Compensation.Execution.{
  CompensationExecutor, is_cas, execution_record, walk, execute_rollback_compensations,
}
use recursive_self_improveme.Campaign.Compensation.Evidence.{
  walk-cas, walk-ok, walk-err, is_cas-true, is_cas-false,
}

-- From a position on and from a world: the actions that are no compare-and-swap were executed in their
-- order until one raised, which is the last that was tried.
pub data Aborts {X : Type 0} (executor : CompensationExecutor X)
    : ℕ → List CompensationAction → X → CompensationError → X → Type 0 where
  raises :
      {i : ℕ} {a : CompensationAction} {rest : List CompensationAction} {x y : X}
      {e : CompensationError}
      → a.mode ≢ cas_mode
      → executor.execute i a x ≡ (err e, y)
      → Aborts executor i (a ∷ rest) x e y
  passes_by :
      {i : ℕ} {a : CompensationAction} {rest : List CompensationAction} {x y : X}
      {e : CompensationError}
      → a.mode ≡ cas_mode
      → Aborts executor (suc i) rest x e y
      → Aborts executor i (a ∷ rest) x e y
  goes_on :
      {i : ℕ} {a : CompensationAction} {rest : List CompensationAction} {x y : X} (between : X)
      {e : CompensationError}
      → a.mode ≢ cas_mode
      → executor.execute i a x ≡ (ok tt, between)
      → Aborts executor (suc i) rest between e y
      → Aborts executor i (a ∷ rest) x e y

module _ {X : Type 0} (plan : SignedCompensationPlan) (executor : CompensationExecutor X) where
  walk-Aborts :
      (i : ℕ) (actions : List CompensationAction) (before : List CompensationExecutionRecord)
      (x x' : X) (e : CompensationError)
      → walk plan executor i actions before x ≡ (err e, x')
      → Aborts executor i actions x e x'
  unfolding walk
  walk-Aborts i [] before x x' e h = absurd (ok_ne_err h)
  walk-Aborts i (a ∷ rest) before x x' e h = elim (Bool-cases (is_cas a)) [
    | inl cas ↦ passes_by (is_cas-true plan executor a cas) (
        walk-Aborts (suc i) rest before x x' e
          (sym (walk-cas plan executor i a rest before x cas) ∙ h))
    | inr not_cas ↦
        let other = is_cas-false plan executor a not_cas in
        elim (Returned-cases (executor.execute i a x)) [
          | inl (_, y, r) ↦ goes_on y other r (
              walk-Aborts (suc i) rest (before ++ execution_record plan executor i a y ∷ []) y x' e
                (sym (walk-ok plan executor i a rest before x y not_cas r) ∙ h))
          | inr (f, y, r) ↦
              let same =
                err_injective (sym (walk-err plan executor i a rest before x y f not_cas r) ∙ h) in
              raises other (r ∙ ap (λ g. (err g, y)) same.0 ∙ ap (λ z. (err e, z)) same.1)
        ]
  ]

  not_cas : (a : CompensationAction) → a.mode ≢ cas_mode → is_cas a ≡ false
  unfolding is_cas
  not_cas a h = ground (arith, str_eq_iff a.mode cas_mode)

  cas_is_cas : (a : CompensationAction) → a.mode ≡ cas_mode → is_cas a ≡ true
  unfolding is_cas
  cas_is_cas a h = (str_eq_iff a.mode cas_mode).1 h

  Aborts-walk :
      (i : ℕ) (actions : List CompensationAction) (before : List CompensationExecutionRecord)
      (x x' : X) (e : CompensationError)
      → Aborts executor i actions x e x'
      → walk plan executor i actions before x ≡ (err e, x')
  Aborts-walk i [] before x x' e h = elim h [ ]
  Aborts-walk i (a ∷ rest) before x x' e (raises other r) =
      walk-err plan executor i a rest before x x' e (not_cas a other) r
  Aborts-walk i (a ∷ rest) before x x' e (passes_by cas later) =
      walk-cas plan executor i a rest before x (cas_is_cas a cas)
      ∙ Aborts-walk (suc i) rest before x x' e later
  Aborts-walk i (a ∷ rest) before x x' e (goes_on y other r later) =
      walk-ok plan executor i a rest before x y (not_cas a other) r
      ∙ Aborts-walk (suc i) rest (before ++ execution_record plan executor i a y ∷ []) y x' e later

  -- A rollback walk raises an error and leaves a world exactly if the actions that are no compare-and-swap
  -- were executed in the declared order, each in the world that the one before left, until one of them
  -- raised that error and left that world; no action behind it is executed.
  pub execute_rollback_fails_iff :
      (x x' : X) (e : CompensationError)
      → (execute_rollback_compensations plan executor x ≡ (err e, x'))
        ↔ Aborts executor 0 plan.actions x e x'
  unfolding execute_rollback_compensations
  execute_rollback_fails_iff x x' e =
      (walk-Aborts 0 plan.actions [] x x' e, Aborts-walk 0 plan.actions [] x x' e)
