-- ===== src/Eval/Cascade.antt =====
-- The cascade of eval/cascade.py: stages in ascending order, stopped by a failing stage that
-- short-circuits. A metric's value is a `float`, of a type `V` with the numbers that the code writes.
pub mod Order
pub mod Runs
pub mod Scores
mod Examples
use Prim.Native.String.{◌++◌ as str_append}
use recursive_self_improveme.Common.{
  ℕ, zero, suc, ◌+◌, ◌-◌, ◌*◌, ◌/◌, ◌%◌, ◌≤◌, ◌<◌, min, max, String, ◌≡◌, refl, sym, ap, ◌∙◌, subst,
  ◌≢◌, ◌↔◌, ◌⊎◌, inl, inr, Bool, true, false, ◌&&◌, ◌||◌, not, Option, none, some, List, [], ◌∷◌,
  ◌++◌, map, arith, str_eq, str_eq_iff, ltb, leb, ◌==◌, if◌then◌else◌, ltb→lt, lt→ltb, leb→le,
  ==_iff, Bool-cases, Option-cases, opt_eq, opt_eq→eq, opt_eq_refl, length, length-append,
  replicate, All, All-append, Outcome, ok, err, Outcome-cases,
}
use recursive_self_improveme.Common.Effects.{Effect, pure, raise, ◌>>=◌, ◌>>◌}

pub data EvaluatorCostClass : Type 0 where
  cheap standard expensive : EvaluatorCostClass

pub data CascadeError : Type 0 where
  empty_name no_stages no_final_run : CascadeError
  duplicate_stages : List ℕ → CascadeError
  too_few_tasks : ℕ → CascadeError
  evaluation_failed : String → CascadeError

pub record CascadeStage : Type 0 where
  pub name : String
  pub stage : ℕ
  pub cost_class : EvaluatorCostClass
  pub short_circuit : Bool

-- `CascadeStage.__post_init__`; a stage number is a natural number here.
unfoldable pub new_stage :
    String → ℕ → EvaluatorCostClass → Bool → Outcome CascadeError CascadeStage
new_stage name stage cost_class short_circuit =
    if str_eq name ""
    then err empty_name
    else ok (record {
      name = name;
      stage = stage;
      cost_class = cost_class;
      short_circuit = short_circuit;
    })

pub record StageOutcome (V : Type 0) : Type 0 where
  pub passed : Bool
  pub metrics : List (String × V)

pub record StageRun (V : Type 0) : Type 0 where
  pub stage : CascadeStage
  pub outcome : StageOutcome V
  pub metrics : List (String × V)

pub record CascadeResult (V : Type 0) : Type 0 where
  pub stage_runs : List (StageRun V)
  pub skipped_stages : List CascadeStage
  pub short_circuited_at : Option String

-- `sorted(stages, key=lambda stage: stage.stage)`, which keeps the order of equal keys.
unfoldable pub insert : CascadeStage → List CascadeStage → List CascadeStage
insert s [] = s ∷ []
insert s (t ∷ ts) = let rest = insert s ts in if leb s.stage t.stage then s ∷ t ∷ ts else t ∷ rest

unfoldable pub sorted : List CascadeStage → List CascadeStage
unfolding insert
sorted [] = []
sorted (s ∷ ss) = insert s (sorted ss)

unfoldable pub count : ℕ → List ℕ → ℕ
count n [] = 0
count n (k ∷ ks) = let rest = count n ks in if k == n then suc rest else rest

has_number : ℕ → List ℕ → Bool
has_number n [] = false
has_number n (k ∷ ks) = k == n || has_number n ks

-- `sorted({n for n in numbers if numbers.count(n) > 1})` on numbers in ascending order.
unfoldable pub repeated : List ℕ → List ℕ → List ℕ
unfolding count has_number
repeated all [] = []
repeated all (n ∷ ns) =
    let rest = repeated all ns in
    if ltb 1 (count n all) && not (has_number n rest) then n ∷ rest else rest

unfoldable pub duplicates : List ℕ → List ℕ
unfolding repeated
duplicates numbers = repeated numbers numbers

module _ {V : Type 0} (to_float : ℕ → V) (show : ℕ → String) where
  -- `tagged[key] = value` on a dict in insertion order.
  set_key : String → V → List (String × V) → List (String × V)
  set_key key value [] = (key, value) ∷ []
  set_key key value ((k, v) ∷ rest) =
      let later = set_key key value rest in
      if str_eq k key then (key, value) ∷ rest else (k, v) ∷ later

  tag_all : String → List (String × V) → List (String × V) → List (String × V)
  unfolding set_key
  tag_all prefix [] tagged = tagged
  tag_all prefix ((k, v) ∷ rest) tagged =
      tag_all prefix rest (set_key (str_append prefix k) v tagged)

  unfoldable pub stage_tagged_metrics : CascadeStage → StageOutcome V → List (String × V)
  unfolding tag_all
  stage_tagged_metrics s outcome =
      let prefix = str_append (str_append "stage_" (show s.stage)) "." in
      tag_all prefix outcome.metrics (
        (str_append prefix "stage_index", to_float s.stage)
        ∷ (str_append prefix "passed", if outcome.passed then to_float 1 else to_float 0)
        ∷ [])

  -- `StageRun.record`
  unfoldable pub record_run : CascadeStage → StageOutcome V → StageRun V
  unfolding stage_tagged_metrics
  record_run s outcome = record {
    stage = s;
    outcome = outcome;
    metrics = stage_tagged_metrics s outcome;
  }

  module _ {W : Type 0} (evaluate : CascadeStage → Effect W CascadeError (StageOutcome V)) where
    -- The result of the first stage before those of the rest.
    unfoldable pub before : StageRun V → CascadeResult V → CascadeResult V
    before run result = record result { stage_runs = run ∷ result.stage_runs }

    -- After the evaluation of a stage: a short-circuit skips the rest.
    unfoldable pub after_stage :
        Bool
        → CascadeStage
        → StageOutcome V
        → List CascadeStage
        → Effect W CascadeError (CascadeResult V)
        → Effect W CascadeError (CascadeResult V)
    unfolding before record_run
    after_stage true s outcome rest later = pure (record {
      stage_runs = record_run s outcome ∷ [];
      skipped_stages = rest;
      short_circuited_at = some s.name;
    })
    after_stage false s outcome rest later = do
      result ← later
      pure (before (record_run s outcome) result)

    -- The loop over the ordered stages.
    unfoldable pub run_stages : List CascadeStage → Effect W CascadeError (CascadeResult V)
    unfolding after_stage
    run_stages [] =
        pure (record { stage_runs = []; skipped_stages = []; short_circuited_at = none })
    run_stages (s ∷ rest) = do
      outcome ← evaluate s
      after_stage (not outcome.passed && s.short_circuit) s outcome rest (run_stages rest)

    unfoldable pub run_ordered :
        List ℕ → List CascadeStage → Effect W CascadeError (CascadeResult V)
    unfolding run_stages
    run_ordered [] ordered = run_stages ordered
    run_ordered (n ∷ ns) ordered = raise (duplicate_stages (n ∷ ns))

    unfoldable pub run_cascade : List CascadeStage → Effect W CascadeError (CascadeResult V)
    unfolding run_ordered sorted duplicates
    run_cascade [] = raise no_stages
    run_cascade (s ∷ ss) =
        let ordered = sorted (s ∷ ss) in
        run_ordered (duplicates (map (λ (t : CascadeStage). t.stage) ordered)) ordered

unfoldable pub completed : {V : Type 0} → CascadeResult V → Bool
completed result = elim result.short_circuited_at [ none ↦ true | some n ↦ false ]

-- `stage_runs[-1]`
unfoldable pub last_run : {V : Type 0} → List (StageRun V) → Option (StageRun V)
last_run [] = none
last_run (run ∷ []) = some run
last_run (run ∷ next ∷ rest) = last_run (next ∷ rest)

-- The score 1.0 is 1 and 0.0 is 0. An empty tuple of runs raises an `IndexError`.
unfoldable pub candidate_scores : {V : Type 0} → CascadeResult V → ℕ → Outcome CascadeError (List ℕ)
unfolding completed last_run
candidate_scores result tasks =
    if ltb tasks 1
    then err (too_few_tasks tasks)
    else if not (completed result)
    then ok (replicate tasks 0)
    else elim (last_run result.stage_runs) [
      | none ↦ err no_final_run
      | some run ↦ ok (replicate tasks (if run.outcome.passed then 1 else 0))
    ]
