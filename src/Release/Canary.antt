-- ===== src/Release/Canary.antt =====
-- The fixed-horizon canary of release/canary.py. Allocations are in millionths, the horizon in
-- seconds. The fleet's clock is read at each task and once before and behind them.
pub mod Run
pub mod Pointer
pub mod Guardrails
pub mod Draws
mod Examples
use Prim.Native.String.{◌++◌ as str_append}
use mathlib.Core.List.{Permᴰ}
use recursive_self_improveme.Common.{
  ℕ, zero, suc, ◌+◌, ◌-◌, ◌*◌, ◌/◌, ◌%◌, ◌≤◌, ◌<◌, min, max, String, ◌≡◌, refl, sym, ap, ◌∙◌, subst,
  ◌≢◌, ◌↔◌, ◌⊎◌, inl, inr, Bool, true, false, ◌&&◌, ◌||◌, not, Option, none, some, List, [], ◌∷◌,
  ◌++◌, map, arith, str_eq, str_eq_iff, ltb, leb, ◌==◌, if◌then◌else◌, ltb→lt, lt→ltb, leb→le,
  ==_iff, Bool-cases, Option-cases, opt_eq, opt_eq→eq, opt_eq_refl, length, length-append,
  replicate, All, All-append, Outcome, ok, err, Outcome-cases,
}
use recursive_self_improveme.Common.Effects.{Effect, continue, pure, raise, lift, ◌>>=◌, ◌>>◌}
use recursive_self_improveme.Common.Json.{Json, num, str, obj, field, end}
use recursive_self_improveme.Security.{Crypto}
use recursive_self_improveme.Campaign.Compensation.{
  CompensationExecutionRecord, SignedCompensationPlan, CompensationError, unexecuted,
}
use recursive_self_improveme.Campaign.Compensation.Execution.{
  CompensationExecutor, execute_rollback_compensations, assert_promotion_allowed,
}
use recursive_self_improveme.Selection.ReleasePointer.{
  ReleasePointer, PointerAuditLog, ReleasePointerStore,
}
use recursive_self_improveme.Release.Manifest.{
  SignedReleaseManifest, ReleaseError, invalid_canary_config, no_active_release,
  compensation_refused,
}
use recursive_self_improveme.Release.Controller.{ReleaseController, activate, rollback}
use recursive_self_improveme.Release.Fleet.{
  SessionArm, candidate, incumbent, arm_namespace, Fleet, pin_session, resolve_manifest,
  report_digest, write_state, invalidate_caches,
}

abbrev pub min_paired_tasks_floor : ℕ
min_paired_tasks_floor = 200

abbrev pub allocation_ceiling : ℕ
allocation_ceiling = 50000

abbrev pub observation_floor : ℕ
observation_floor = 86400

pub record CanaryConfig : Type 0 where
  pub min_paired_tasks : ℕ
  pub max_candidate_allocation : ℕ
  pub observation_horizon : ℕ
  pub seed : ℕ

unfoldable pub new_config : ℕ → ℕ → ℕ → ℕ → Outcome ReleaseError CanaryConfig
new_config tasks allocation horizon seed =
    if ltb tasks min_paired_tasks_floor
    then err (invalid_canary_config "min_paired_tasks")
    else if not (ltb 0 allocation && leb allocation allocation_ceiling)
    then err (invalid_canary_config "max_candidate_allocation")
    else if ltb horizon observation_floor
    then err (invalid_canary_config "observation_horizon")
    else ok (record {
      min_paired_tasks = tasks;
      max_candidate_allocation = allocation;
      observation_horizon = horizon;
      seed = seed;
    })

pub record GuardrailEvent : Type 0 where
  pub severity : ℕ
  pub kind : String
  pub task_index : ℕ
  pub detail : String

pub data CanaryOutcome : Type 0 where
  finished rolled_back : CanaryOutcome

-- The measurements that are fractions or percentiles of the fleet are left out.
pub record CanaryResult : Type 0 where
  pub outcome : CanaryOutcome
  pub paired_tasks : ℕ
  pub total_sessions : ℕ
  pub candidate_sessions : ℕ
  pub stopped_reason : Option String
  pub rolled_back_to : Option String
  pub guardrail_events : List GuardrailEvent

-- The two draws from `random.Random(seed)`: `uniform(0, cap)`, then the shuffle, which permutes.
pub record Randomness : Type 0 where
  pub uniform : ℕ → ℕ → ℕ
  pub uniform_within : (seed cap : ℕ) → uniform seed cap ≤ cap
  pub shuffle : ℕ → List SessionArm → List SessionArm
  pub shuffle_permutes : (seed : ℕ) (arms : List SessionArm) → Permᴰ (shuffle seed arms) arms

unfoldable pub candidate_count : Randomness → CanaryConfig → ℕ
candidate_count rng config =
    config.min_paired_tasks * rng.uniform config.seed config.max_candidate_allocation / 1000000

unfoldable pub draw_arms : Randomness → CanaryConfig → List SessionArm
unfolding candidate_count
draw_arms rng config = rng.shuffle config.seed (
    replicate (candidate_count rng config) candidate
    ++ replicate (config.min_paired_tasks - candidate_count rng config) incumbent)

-- `_events_by_task(events).get(index, ())`
unfoldable pub events_at : ℕ → List GuardrailEvent → List GuardrailEvent
events_at index [] = []
events_at index (e ∷ es) =
    let rest = events_at index es in if e.task_index == index then e ∷ rest else rest

-- The loop over the events of a task, which a severity-1 event breaks.
unfoldable pub fire : List GuardrailEvent → List GuardrailEvent × Option String
fire [] = ([], none)
fire (e ∷ es) =
    let rest = fire es in
    if e.severity == 1
    then (e ∷ [], some (str_append "severity-1 guardrail event: " e.kind))
    else (e ∷ rest.0, rest.1)

pub record Progress : Type 0 where
  pub candidate_sessions : ℕ
  pub fired : List GuardrailEvent
  pub stopped_reason : Option String
  pub tasks_run : ℕ

abbrev pub is_candidate : SessionArm → Bool
is_candidate candidate = true
is_candidate incumbent = false

-- `show` is the decimal text of an index, `now` the fleet's time at a task.
module _ (show : ℕ → String) (now : ℕ → ℕ) (m : SignedReleaseManifest)
    (incumbent_digest : String) where
  serve_resolved :
      Outcome ReleaseError String → String → ℕ → SessionArm → Effect Fleet ReleaseError (Unit {0})
  serve_resolved (err e) id index arm f = (err e, f)
  serve_resolved (ok digest) id index arm f =
      (do
        report_digest id digest (now index)
        write_state id (str_append "canary-task-" (show index))
            (obj (field "manifest" (str digest) (field "task_index" (num index) end)))
            (arm_namespace arm))
        f

  unfoldable pub serve : ℕ → SessionArm → Effect Fleet ReleaseError (Unit {0})
  unfolding serve_resolved
  serve index arm = do
    pin_session (str_append "canary-session-" (show index))
        (if is_candidate arm then m.manifest_digest else incumbent_digest) arm
    λ f.
        serve_resolved (resolve_manifest (str_append "canary-session-" (show index)) f)
          (str_append "canary-session-" (show index)) index arm f

  unfoldable pub advance : List GuardrailEvent → ℕ → SessionArm → Progress → Progress
  unfolding fire events_at
  advance events index arm p =
      let fired = fire (events_at index events) in
      record {
        candidate_sessions =
            if is_candidate arm then p.candidate_sessions + 1 else p.candidate_sessions;
        fired = p.fired ++ fired.0;
        stopped_reason = fired.1;
        tasks_run = index + 1;
      }

  -- The two `break`s.
  unfoldable pub unless_stopped :
      Option String
      → Progress
      → Effect Fleet ReleaseError Progress
      → Effect Fleet ReleaseError Progress
  unless_stopped (some reason) p later = pure p
  unless_stopped none p later = later

  unfoldable pub run_tasks :
      List GuardrailEvent → ℕ → List SessionArm → Progress → Effect Fleet ReleaseError Progress
  unfolding serve advance unless_stopped
  run_tasks events index [] p = pure p
  run_tasks events index (arm ∷ arms) p = do
    serve index arm
    unless_stopped (advance events index arm p).stopped_reason (advance events index arm p)
        (run_tasks events (suc index) arms (advance events index arm p))
