-- ===== src/Release/Canary/Run.antt =====
-- The run of the canary of release/canary.py over the controller, the fleet and the compensations.
use recursive_self_improveme.Common.{
  ℕ, String, Bool, Option, none, some, List, [], ◌++◌, str_eq, if◌then◌else◌, Outcome, ok, err,
}
use recursive_self_improveme.Common.Effects.{Effect, pure, raise, ◌>>◌}
use recursive_self_improveme.Security.{Crypto}
use recursive_self_improveme.Campaign.Compensation.{
  CompensationExecutionRecord, SignedCompensationPlan, CompensationError, unexecuted,
}
use recursive_self_improveme.Campaign.Compensation.Execution.{
  CompensationExecutor, execute_rollback_compensations, assert_promotion_allowed,
}
use recursive_self_improveme.Selection.ReleasePointer.{
  ReleasePointer, PointerAuditLog, ReleasePointerStore,
}
use recursive_self_improveme.Release.Manifest.{
  SignedReleaseManifest, ReleaseError, invalid_canary_config, no_active_release,
  compensation_refused,
}
use recursive_self_improveme.Release.Controller.{ReleaseController, activate, rollback}
use recursive_self_improveme.Release.Fleet.{Fleet, invalidate_caches}
use recursive_self_improveme.Release.Canary.{
  CanaryConfig, GuardrailEvent, CanaryOutcome, finished, rolled_back, CanaryResult, Randomness,
  draw_arms, Progress, run_tasks,
}

-- What the canary acts on: the store and the fleet, what the executor of compensations acts on, and
-- the sink of execution records.
pub record CanaryWorld (L X : Type 0) : Type 0 where
  pub store : ReleasePointerStore L
  pub fleet : Fleet
  pub outside : X
  pub executions : List CompensationExecutionRecord

pub record CanaryHarness (L X : Type 0) : Type 0 where
  pub config : CanaryConfig
  pub controller : ReleaseController
  pub audit_log : PointerAuditLog L
  pub plan : Option SignedCompensationPlan
  pub has_sink : Bool
  pub executor : Option (CompensationExecutor X)

module _ {L X : Type 0} (crypto : Crypto) (h : CanaryHarness L X) (m : SignedReleaseManifest) where
  unfoldable pub restored :
      Outcome ReleaseError ReleasePointer × ReleasePointerStore L
      → String
      → ℕ
      → Effect (CanaryWorld L X) ReleaseError (Unit {0})
  restored (err e, s) incumbent_digest now w = (err e, record w { store = s })
  restored (ok p, s) incumbent_digest now w =
      (ok tt, record w { store = s; fleet = invalidate_caches incumbent_digest now w.fleet })

  -- The rollback of the pointer and the fleet.
  unfoldable pub restore : String → ℕ → Effect (CanaryWorld L X) ReleaseError (Unit {0})
  unfolding restored
  restore incumbent_digest now w =
      restored (rollback crypto h.audit_log h.controller m w.store) incumbent_digest now w

  unfoldable pub recorded :
      Outcome CompensationError (List CompensationExecutionRecord) × X
      → Effect (CanaryWorld L X) ReleaseError (Unit {0})
  recorded (err e, x) w = (err (compensation_refused e), record w { outside = x })
  recorded (ok records, x) w = (
    ok tt,
    record w {
      outside = x;
      executions = if h.has_sink then w.executions ++ records else w.executions;
    },
  )

  unfoldable pub compensate :
      Option SignedCompensationPlan
      → Option (CompensationExecutor X)
      → Effect (CanaryWorld L X) ReleaseError (Unit {0})
  unfolding recorded
  compensate none executor w = (ok tt, w)
  compensate (some plan) none w = (ok tt, w)
  compensate (some plan) (some executor) w =
      recorded (execute_rollback_compensations plan executor w.outside) w

  unfoldable pub result_of : CanaryOutcome → Option String → Progress → CanaryResult
  result_of outcome rolled_back_to p = record {
    outcome = outcome;
    paired_tasks = p.tasks_run;
    total_sessions = h.config.min_paired_tasks;
    candidate_sessions = p.candidate_sessions;
    stopped_reason = p.stopped_reason;
    rolled_back_to = rolled_back_to;
    guardrail_events = p.fired;
  }

  -- The promotion check: only a missing execution restores the incumbent.
  unfoldable pub promoted :
      Outcome CompensationError (Unit {0})
      → String
      → ℕ
      → Progress
      → Effect (CanaryWorld L X) ReleaseError CanaryResult
  unfolding restore result_of
  promoted (ok _) incumbent_digest now p = pure (result_of finished none p)
  promoted (err (unexecuted a b c d)) incumbent_digest now p = do
    restore incumbent_digest now
    raise (compensation_refused (unexecuted a b c d))
  promoted (err e) incumbent_digest now p = raise (compensation_refused e)

  unfoldable pub promote :
      Option SignedCompensationPlan
      → String
      → ℕ
      → Progress
      → Effect (CanaryWorld L X) ReleaseError CanaryResult
  unfolding promoted
  promote none incumbent_digest now p = pure (result_of finished none p)
  promote (some plan) incumbent_digest now p = λ w.
      promoted (assert_promotion_allowed crypto plan (if h.has_sink then w.executions else []))
        incumbent_digest now p w

  unfoldable pub conclude :
      Option String → String → ℕ → Progress → Effect (CanaryWorld L X) ReleaseError CanaryResult
  unfolding compensate restore promote
  conclude (some reason) incumbent_digest now p = do
    compensate h.plan h.executor
    restore incumbent_digest now
    pure (result_of rolled_back (some incumbent_digest) p)
  conclude none incumbent_digest now p = promote h.plan incumbent_digest now p

  module _ (show : ℕ → String) (start final : ℕ) (now : ℕ → ℕ) (rng : Randomness)
      (events : List GuardrailEvent) where
    unfoldable pub after_tasks :
        Outcome ReleaseError Progress × Fleet
        → String
        → Effect (CanaryWorld L X) ReleaseError CanaryResult
    unfolding conclude
    after_tasks (err e, f) incumbent_digest w = (err e, record w { fleet = f })
    after_tasks (ok p, f) incumbent_digest w =
        conclude p.stopped_reason incumbent_digest final p (record w { fleet = f })

    unfoldable pub after_activation :
        Outcome ReleaseError ReleasePointer × ReleasePointerStore L
        → String
        → Effect (CanaryWorld L X) ReleaseError CanaryResult
    unfolding after_tasks draw_arms run_tasks
    after_activation (err e, s) incumbent_digest w = (err e, record w { store = s })
    after_activation (ok p, s) incumbent_digest w =
        after_tasks
          (run_tasks show now m incumbent_digest events 0 (draw_arms rng h.config)
            (record { candidate_sessions = 0; fired = []; stopped_reason = none; tasks_run = 0 })
            (invalidate_caches m.manifest_digest start w.fleet))
          incumbent_digest (record w { store = s })

    unfoldable pub from_incumbent :
        Option String → Effect (CanaryWorld L X) ReleaseError CanaryResult
    unfolding after_activation
    from_incumbent none w = (err no_active_release, w)
    from_incumbent (some incumbent_digest) w =
        if str_eq m.manifest_digest incumbent_digest
        then (err (invalid_canary_config "the candidate is the active release"), w)
        else after_activation (activate crypto h.audit_log h.controller m w.store) incumbent_digest
            w

    -- `CanaryHarness.run`
    unfoldable pub run_canary : Effect (CanaryWorld L X) ReleaseError CanaryResult
    unfolding from_incumbent
    run_canary w = from_incumbent w.store.pointer.current_digest w
