-- ===== src/Eval/Cascade/Examples.antt =====
-- A cascade whose evaluator logs the stages that it is asked to evaluate.
use recursive_self_improveme.Common.{
  ℕ, String, ◌≡◌, refl, ◌⊎◌, true, false, some, List, [], ◌∷◌, ◌++◌, map, arith, ltb, ◌==◌,
  if◌then◌else◌, ok, err,
}
use recursive_self_improveme.Common.Effects.{Effect}
use recursive_self_improveme.Eval.Cascade.{
  CascadeStage, cheap, standard, expensive, StageOutcome, StageRun, CascadeResult, CascadeError,
  duplicate_stages, run_cascade, record_run, candidate_scores,
}
use recursive_self_improveme.Eval.Cascade.Runs.{IsCascade, run_cascade-IsCascade}
use recursive_self_improveme.Eval.Cascade.Scores.{Cleared, Failed, run_cascade-scores}

abbrev lint : CascadeStage
lint = record { name = "lint"; stage = 1; cost_class = cheap; short_circuit = false }

abbrev tests : CascadeStage
tests = record { name = "tests"; stage = 2; cost_class = standard; short_circuit = true }

abbrev holdout_pass : CascadeStage
holdout_pass = record { name = "holdout"; stage = 7; cost_class = expensive; short_circuit = true }

-- Lint and the tests fail.
abbrev logging : CascadeStage → Effect (List String) CascadeError (StageOutcome ℕ)
logging s w =
    (ok (record { passed = ltb 5 s.stage; metrics = ("rate", s.stage) ∷ [] }), w ++ s.name ∷ [])

abbrev show_number : ℕ → String
show_number n = if n == 1 then "1" else if n == 2 then "2" else "7"

abbrev to_number : ℕ → ℕ
to_number n = n

abbrev result : CascadeResult ℕ
result = record {
  stage_runs =
      record_run to_number show_number lint (record { passed = false; metrics = ("rate", 1) ∷ [] })
      ∷ record_run to_number show_number tests
          (record { passed = false; metrics = ("rate", 2) ∷ [] })
      ∷ [];
  skipped_stages = holdout_pass ∷ [];
  short_circuited_at = some "tests";
}

stopped_at_tests :
    run_cascade to_number show_number logging (holdout_pass ∷ lint ∷ tests ∷ []) []
    ≡ (ok result, "lint" ∷ "tests" ∷ [])
unfolding run_cascade record_run
stopped_at_tests = refl

tagged :
    map (λ r. r.metrics) result.stage_runs
    ≡ (("stage_1.stage_index", 1) ∷ ("stage_1.passed", 0) ∷ ("stage_1.rate", 1) ∷ [])
      ∷ (("stage_2.stage_index", 2) ∷ ("stage_2.passed", 0) ∷ ("stage_2.rate", 2) ∷ [])
      ∷ []
unfolding record_run
tagged = refl

twice_the_same_number :
    (run_cascade to_number show_number logging (tests ∷ lint ∷ tests ∷ []) []).0
    ≡ err (duplicate_stages (2 ∷ []))
unfolding run_cascade
twice_the_same_number = refl

run_cascade-IsCascade_example :
    IsCascade to_number show_number logging
      (holdout_pass ∷ lint ∷ tests ∷ [])
      []
      result
      ("lint" ∷ "tests" ∷ [])
run_cascade-IsCascade_example =
    run_cascade-IsCascade to_number show_number logging (holdout_pass ∷ lint ∷ tests ∷ []) []
      ("lint" ∷ "tests" ∷ []) result stopped_at_tests

run_cascade-scores_at_test :
    (run : StageRun ℕ) × ((Cleared result run × (candidate_scores result 3 ≡ ok (1 ∷ 1 ∷ 1 ∷ [])))
      ⊎ (Failed result run × (candidate_scores result 3 ≡ ok (0 ∷ 0 ∷ 0 ∷ []))))
run_cascade-scores_at_test =
    run_cascade-scores to_number show_number logging (holdout_pass ∷ lint ∷ tests ∷ []) []
      ("lint" ∷ "tests" ∷ []) result 3 stopped_at_tests (omega arith)
