-- ===== src/Eval/Cascade/Runs.antt =====
-- What a run of the cascade of eval/cascade.py evaluates, skips and scores.
use mathlib.Core.List.{Perm}
use recursive_self_improveme.Common.{
  ℕ, String, ◌≡◌, refl, sym, subst, ◌⊎◌, inl, inr, Bool, true, false, ◌&&◌, not, none, some, List,
  [], ◌∷◌, Outcome, ok, err,
}
use recursive_self_improveme.Common.Effects.{Effect, pure, continue, Returned-cases, ok_ne_err}
use recursive_self_improveme.Eval.Cascade.{
  CascadeStage, StageOutcome, CascadeResult, CascadeError, sorted, duplicates, record_run, before,
  after_stage, run_stages, run_ordered, run_cascade,
}
use recursive_self_improveme.Eval.Cascade.Order.{
  numbers, StrictlyAscending, sorted-Perm, sorted-StrictlyAscending,
}

module _ {V : Type 0} (to_float : ℕ → V) (show : ℕ → String) {W : Type 0}
    (evaluate : CascadeStage → Effect W CascadeError (StageOutcome V)) where
  -- From world to world: the stages, in order, up to the first that fails and short-circuits, are
  -- evaluated once each, in this order; those behind it are skipped and not evaluated.
  pub data Cascaded : List CascadeStage → W → CascadeResult V → W → Type 0 where
    finished :
        {w : W}
        → Cascaded [] w
            (record { stage_runs = []; skipped_stages = []; short_circuited_at = none })
            w
    stopped :
        {s : CascadeStage} {rest : List CascadeStage} {w w' : W} {outcome : StageOutcome V}
        → evaluate s w ≡ (ok outcome, w')
        → outcome.passed ≡ false
        → s.short_circuit ≡ true
        → Cascaded
            (s ∷ rest)
            w
            (record {
              stage_runs = record_run to_float show s outcome ∷ [];
              skipped_stages = rest;
              short_circuited_at = some s.name;
            })
            w'
    continued :
        {s : CascadeStage} {rest : List CascadeStage} {w w' w'' : W} {outcome : StageOutcome V}
        {result : CascadeResult V}
        → evaluate s w ≡ (ok outcome, w')
        → (outcome.passed ≡ true) ⊎ (s.short_circuit ≡ false)
        → Cascaded rest w' result w''
        → Cascaded
            (s ∷ rest)
            w
            (record {
              stage_runs = record_run to_float show s outcome ∷ result.stage_runs;
              skipped_stages = result.skipped_stages;
              short_circuited_at = result.short_circuited_at;
            })
            w''

  stopping : (passed short : Bool) → not passed && short ≡ true → (passed ≡ false) × (short ≡ true)
  stopping true short h = absurd (cc h)
  stopping false short h = (refl, h)

  passing : (passed short : Bool) → not passed && short ≡ false → (passed ≡ true) ⊎ (short ≡ false)
  passing true short h = inl refl
  passing false short h = inr h

  -- What a call gives if it returns.
  abbrev Describes : List CascadeStage → W → Outcome CascadeError (CascadeResult V) × W → Type 0
  Describes ss w (ok result, w') = Cascaded ss w result w'
  Describes ss w (err e, w') = Unit {0}

  Describes-continued :
      (s : CascadeStage) (rest : List CascadeStage) (w w' : W) (outcome : StageOutcome V)
      (r : Outcome CascadeError (CascadeResult V) × W)
      → evaluate s w ≡ (ok outcome, w')
      → (outcome.passed ≡ true) ⊎ (s.short_circuit ≡ false)
      → Describes rest w' r
      → Describes (s ∷ rest) w (
          continue r (λ result.
            pure (before to_float show evaluate (record_run to_float show s outcome) result)))
  unfolding before
  Describes-continued s rest w w' outcome (ok result, w'') e g h = continued e g h
  Describes-continued s rest w w' outcome (err f, w'') e g h = tt

  after_stage-Describes :
      (stop : Bool) (s : CascadeStage) (rest : List CascadeStage) (w w' : W)
      (outcome : StageOutcome V)
      → not outcome.passed && s.short_circuit ≡ stop
      → evaluate s w ≡ (ok outcome, w')
      → Describes rest w' (run_stages to_float show evaluate rest w')
      → Describes (s ∷ rest) w (
          after_stage to_float show evaluate stop s outcome rest
            (run_stages to_float show evaluate rest)
            w')
  unfolding after_stage
  after_stage-Describes true s rest w w' outcome g e later =
      let (failed, short) = stopping outcome.passed s.short_circuit g in stopped e failed short
  after_stage-Describes false s rest w w' outcome g e later =
      Describes-continued s rest w w' outcome (run_stages to_float show evaluate rest w') e
        (passing outcome.passed s.short_circuit g) later

  run_stages-Describes :
      (ss : List CascadeStage) (w : W) → Describes ss w (run_stages to_float show evaluate ss w)
  unfolding run_stages
  run_stages-Describes [] w = finished
  run_stages-Describes (s ∷ rest) w = elim (Returned-cases (evaluate s w)) [
    | inr (f, w', e) ↦ rw e tt
    | inl (outcome, w', e) ↦ rw e (
        after_stage-Describes (not outcome.passed && s.short_circuit) s rest w w' outcome refl e
          (run_stages-Describes rest w'))
  ]

  -- The order is total, and the run is a cascade over it.
  pub record IsCascade (stages : List CascadeStage) (w : W) (result : CascadeResult V) (w' : W)
      : Type 0 where
    pub reordered : Perm stages (sorted stages)
    pub ascending : StrictlyAscending (sorted stages)
    pub cascaded : Cascaded (sorted stages) w result w'

  run_ordered-Cascaded :
      (ns : List ℕ) (ss : List CascadeStage) (w w' : W) (result : CascadeResult V)
      → run_ordered to_float show evaluate ns ss w ≡ (ok result, w')
      → (ns ≡ []) × Cascaded ss w result w'
  unfolding run_ordered
  run_ordered-Cascaded [] ss w w' result h =
      (refl, subst (Describes ss w) h (run_stages-Describes ss w))
  run_ordered-Cascaded (n ∷ ns) ss w w' result h = absurd (ok_ne_err (sym h))

  -- A run that returns has evaluated the given stages in strictly ascending order of their numbers,
  -- each once, up to the first that failed and short-circuits; it has skipped those behind it
  -- without evaluating them, and its result says so.
  pub run_cascade-IsCascade :
      (stages : List CascadeStage) (w w' : W) (result : CascadeResult V)
      → run_cascade to_float show evaluate stages w ≡ (ok result, w')
      → IsCascade stages w result w'
  unfolding run_cascade
  run_cascade-IsCascade [] w w' result h = absurd (ok_ne_err (sym h))
  run_cascade-IsCascade (s ∷ ss) w w' result h =
      let ordered = sorted (s ∷ ss) in
      let (total, run) =
        run_ordered-Cascaded (duplicates (numbers ordered)) ordered w w' result h in
      record {
        reordered = sorted-Perm (s ∷ ss);
        ascending = sorted-StrictlyAscending (s ∷ ss) total;
        cascaded = run;
      }
