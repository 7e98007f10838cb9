-- ===== src/Eval/Cascade/Scores.antt =====
-- The candidate's scores for the paired comparison of eval/cascade.py.
use recursive_self_improveme.Common.{
  ℕ, ◌≤◌, String, ◌≡◌, refl, sym, ◌≢◌, ◌⊎◌, inl, inr, true, false, none, some, List, [], ◌∷◌, arith,
  ltb, Bool-cases, Option-cases, replicate, ok,
}
use recursive_self_improveme.Common.Effects.{Effect, ok_ne_err}
use recursive_self_improveme.Eval.Cascade.{
  CascadeStage, StageOutcome, StageRun, CascadeResult, CascadeError, sorted, insert, run_cascade,
  completed, last_run, candidate_scores,
}
use recursive_self_improveme.Eval.Cascade.Runs.{Cascaded, stopped, continued, run_cascade-IsCascade}

insert-nonempty : (s : CascadeStage) (ss : List CascadeStage) → insert s ss ≢ []
unfolding insert
insert-nonempty s [] h = cc
insert-nonempty s (t ∷ ts) h = ground arith

-- The candidate cleared the whole cascade: no short-circuit, and the last stage passed.
abbrev pub Cleared : {V : Type 0} → CascadeResult V → StageRun V → Type 0
Cleared result run =
    (result.short_circuited_at ≡ none)
    × (last_run result.stage_runs ≡ some run)
    × (run.outcome.passed ≡ true)

-- A short-circuit, or a last stage that failed.
abbrev pub Failed : {V : Type 0} → CascadeResult V → StageRun V → Type 0
Failed result run =
    (last_run result.stage_runs ≡ some run)
    × ((result.short_circuited_at ≢ none) ⊎ (run.outcome.passed ≡ false))

complete :
    {V : Type 0} (result : CascadeResult V)
    → result.short_circuited_at ≡ none
    → completed result ≡ true
unfolding completed
complete result e = rw e refl

incomplete :
    {V : Type 0} (result : CascadeResult V) (n : String)
    → result.short_circuited_at ≡ some n
    → completed result ≡ false
unfolding completed
incomplete result n e = rw e refl

module _ {V : Type 0} (to_float : ℕ → V) (show : ℕ → String) {W : Type 0}
    (evaluate : CascadeStage → Effect W CascadeError (StageOutcome V)) where
  last-after :
      (first : StageRun V) (runs : List (StageRun V))
      → (run : StageRun V) × (last_run (first ∷ runs) ≡ some run)
  unfolding last_run
  last-after first [] = (first, refl)
  last-after first (next ∷ rest) = last-after next rest

  has_last :
      (s : CascadeStage) (ss : List CascadeStage) (w w' : W) (result : CascadeResult V)
      → Cascaded to_float show evaluate (s ∷ ss) w result w'
      → (run : StageRun V) × (last_run result.stage_runs ≡ some run)
  has_last s ss w w' result (stopped _ _ _) = last-after _ []
  has_last s ss w w' result (continued {result = later} _ _ _) = last-after _ later.stage_runs

  some_last :
      (stages : List CascadeStage) (w w' : W) (result : CascadeResult V)
      → run_cascade to_float show evaluate stages w ≡ (ok result, w')
      → Cascaded to_float show evaluate (sorted stages) w result w'
      → (run : StageRun V) × (last_run result.stage_runs ≡ some run)
  unfolding run_cascade sorted
  some_last [] w w' result h cascaded = absurd (ok_ne_err (sym h))
  some_last (s ∷ ss) w w' result h cascaded =
      nonempty (insert s (sorted ss)) (insert-nonempty s (sorted ss)) cascaded
    where
      nonempty :
          (ordered : List CascadeStage)
          → ordered ≢ []
          → Cascaded to_float show evaluate ordered w result w'
          → (run : StageRun V) × (last_run result.stage_runs ≡ some run)
      nonempty [] h c = absurd (h refl)
      nonempty (t ∷ ts) h c = has_last t ts w w' result c

  score :
      (result : CascadeResult V) (run : StageRun V) (tasks : ℕ)
      → 1 ≤ tasks
      → last_run result.stage_runs ≡ some run
      → (Cleared result run × (candidate_scores result tasks ≡ ok (replicate tasks 1)))
        ⊎ (Failed result run × (candidate_scores result tasks ≡ ok (replicate tasks 0)))
  unfolding candidate_scores
  score result run tasks h last = elim (Option-cases result.short_circuited_at) [
    | inr (n, e) ↦ inr ((last, inl (λ n'. cc (e, n'))), simp (enough, incomplete result n e))
    | inl e ↦ elim (Bool-cases run.outcome.passed) [
      | inl passed ↦ inl ((e, last, passed), simp (enough, complete result e, last, passed))
      | inr failed ↦ inr ((last, inr failed), simp (enough, complete result e, last, failed))
    ]
  ]
    where
      enough : ltb tasks 1 ≡ false
      enough = ground (arith, h)

  -- The scores of a run that returned, for at least one task: one score for each task, all 1.0 if no
  -- stage short-circuited and the last stage passed, and all 0.0 otherwise; the call never raises.
  pub run_cascade-scores :
      (stages : List CascadeStage) (w w' : W) (result : CascadeResult V) (tasks : ℕ)
      → run_cascade to_float show evaluate stages w ≡ (ok result, w')
      → 1 ≤ tasks
      → (run : StageRun V) × ((Cleared result run
            × (candidate_scores result tasks ≡ ok (replicate tasks 1)))
          ⊎ (Failed result run × (candidate_scores result tasks ≡ ok (replicate tasks 0))))
  run_cascade-scores stages w w' result tasks h enough =
      let cascade = run_cascade-IsCascade to_float show evaluate stages w w' result h in
      let (run, last) = some_last stages w w' result h cascade.cascaded in
      (run, score result run tasks enough last)
