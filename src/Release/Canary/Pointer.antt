-- ===== src/Release/Canary/Pointer.antt =====
-- Where the pointer is when the canary of release/canary.py ends.
use recursive_self_improveme.Common.{
  ℕ, ◌+◌, String, ◌≡◌, refl, sym, ap, ◌∙◌, subst, ◌≢◌, ◌⊎◌, inl, inr, Option, none, some, List, [],
  str_eq, if◌then◌else◌, Bool-cases, Outcome, ok, err,
}
use recursive_self_improveme.Common.Effects.{continue, pure, raise, ◌>>◌}
use recursive_self_improveme.Security.{Crypto}
use recursive_self_improveme.Campaign.Compensation.{
  CompensationExecutionRecord, SignedCompensationPlan, CompensationError, unexecuted,
}
use recursive_self_improveme.Campaign.Compensation.Execution.{
  CompensationExecutor, execute_rollback_compensations, assert_promotion_allowed,
}
use recursive_self_improveme.Selection.ReleasePointer.{ReleasePointer, ReleasePointerStore}
use recursive_self_improveme.Release.Manifest.{SignedReleaseManifest, ReleaseError}
use recursive_self_improveme.Release.Controller.{activate, rollback}
use recursive_self_improveme.Release.Controller.Moves.{
  Activates, activate-Activates, RollsBack, rollback-RollsBack,
}
use recursive_self_improveme.Release.Fleet.{Fleet}
use recursive_self_improveme.Release.Canary.{
  Randomness, GuardrailEvent, CanaryOutcome, finished, rolled_back, CanaryResult, Progress,
}
use recursive_self_improveme.Release.Canary.Run.{
  CanaryWorld, CanaryHarness, restored, restore, recorded, compensate, result_of, promoted, promote,
  conclude, after_tasks, after_activation, from_incumbent, run_canary,
}

module _ {L X : Type 0} (crypto : Crypto) (h : CanaryHarness L X) (m : SignedReleaseManifest) where
  -- The pointer serves the candidate, one version later.
  abbrev pub Serving : ReleasePointer → ReleasePointer → Type 0
  Serving p q = q ≡ record { current_digest = some m.manifest_digest; version = p.version + 1 }

  -- The pointer is back at the release that the manifest names as its prior, two versions later.
  abbrev pub Restored : ReleasePointer → ReleasePointer → Type 0
  Restored p q =
      (prior : String) × (m.prior_release_digest ≡ some prior)
      × (q ≡ record { current_digest = some prior; version = p.version + 1 + 1 })

  -- The declared plan, if there is one, allowed the promotion on these records.
  abbrev pub Allowed : Option SignedCompensationPlan → List CompensationExecutionRecord → Type 0
  Allowed none executions = Unit {0}
  Allowed (some plan) executions =
      assert_promotion_allowed crypto plan (if h.has_sink then executions else []) ≡ ok tt

  -- The end of a canary that began at the pointer `p`.
  abbrev pub Ends : ReleasePointer → CanaryOutcome → Option String → CanaryWorld L X → Type 0
  Ends p finished reason w =
      Serving p w.store.pointer × (reason ≡ none) × Allowed h.plan w.executions
  Ends p rolled_back reason w = Restored p w.store.pointer × (reason ≢ none)

  abbrev pub Concludes :
      ReleasePointer → Outcome ReleaseError CanaryResult × CanaryWorld L X → Type 0
  Concludes p (ok r, w) = Ends p r.outcome r.stopped_reason w
  Concludes p (err e, w) =
      (w.store.pointer ≡ p) ⊎ Serving p w.store.pointer ⊎ Restored p w.store.pointer

  -- What a restoration of a served candidate does.
  abbrev Restores : ReleasePointer → Outcome ReleaseError (Unit {0}) × CanaryWorld L X → Type 0
  Restores p (ok _, w) = Restored p w.store.pointer
  Restores p (err e, w) = Serving p w.store.pointer

  restored-Restores :
      (p : ReleasePointer) (incumbent_digest : String) (now : ℕ) (w : CanaryWorld L X)
      (r : Outcome ReleaseError ReleasePointer × ReleasePointerStore L)
      → Serving p w.store.pointer
      → RollsBack crypto h.audit_log h.controller m w.store r
      → Restores p (restored crypto h m r incumbent_digest now w)
  unfolding restored
  restored-Restores p incumbent_digest now w (err e, s) serving back = back ∙ serving
  restored-Restores p incumbent_digest now w (ok q, s) serving
        (verified, (prior, has, (swapped, same))) =
      (
        prior,
        has,
        swapped.moved
            ∙ ap
                (λ (x : ReleasePointer). record {
                  current_digest = some prior;
                  version = x.version + 1;
                })
                serving,
      )

  restore-Restores :
      (p : ReleasePointer) (incumbent_digest : String) (now : ℕ) (w : CanaryWorld L X)
      → Serving p w.store.pointer
      → Restores p (restore crypto h m incumbent_digest now w)
  unfolding restore
  restore-Restores p incumbent_digest now w serving =
      restored-Restores p incumbent_digest now w
        (rollback crypto h.audit_log h.controller m w.store) serving
        (rollback-RollsBack crypto h.audit_log h.controller m w.store)

  recorded-store :
      (r : Outcome CompensationError (List CompensationExecutionRecord) × X) (w : CanaryWorld L X)
      → (recorded crypto h m r w).1.store ≡ w.store
  unfolding recorded
  recorded-store (err e, x) w = refl
  recorded-store (ok records, x) w = refl

  compensate-store :
      (plan : Option SignedCompensationPlan) (executor : Option (CompensationExecutor X))
      (w : CanaryWorld L X)
      → (compensate crypto h m plan executor w).1.store ≡ w.store
  unfolding compensate
  compensate-store none executor w = refl
  compensate-store (some plan) none w = refl
  compensate-store (some plan) (some executor) w =
      recorded-store (execute_rollback_compensations plan executor w.outside) w

  raised-Concludes :
      (p : ReleasePointer) (e : ReleaseError)
      (r : Outcome ReleaseError (Unit {0}) × CanaryWorld L X)
      → Restores p r
      → Concludes p (continue r (λ _. raise e))
  raised-Concludes p e (ok _, w) back = inr (inr back)
  raised-Concludes p e (err f, w) serving = inr (inl serving)

  promoted-Concludes :
      (p : ReleasePointer) (o : Outcome CompensationError (Unit {0}))
      (plan : SignedCompensationPlan) (incumbent_digest : String) (now : ℕ) (progress : Progress)
      (w : CanaryWorld L X)
      → Serving p w.store.pointer
      → progress.stopped_reason ≡ none
      → h.plan ≡ some plan
      → assert_promotion_allowed crypto plan (if h.has_sink then w.executions else []) ≡ o
      → Concludes p (promoted crypto h m o incumbent_digest now progress w)
  unfolding promoted result_of
  promoted-Concludes p (ok _) plan incumbent_digest now progress w serving through is e =
      (serving, through, subst (λ x. Allowed x w.executions) (sym is) e)
  promoted-Concludes p (err (unexecuted a b c d)) plan incumbent_digest now progress w serving
        through is e =
      raised-Concludes p _ (restore crypto h m incumbent_digest now w)
        (restore-Restores p incumbent_digest now w serving)
  promoted-Concludes p (err _) plan incumbent_digest now progress w serving through is e =
      inr (inl serving)

  promote-Concludes :
      (p : ReleasePointer) (plan : Option SignedCompensationPlan) (incumbent_digest : String)
      (now : ℕ) (progress : Progress) (w : CanaryWorld L X)
      → Serving p w.store.pointer
      → progress.stopped_reason ≡ none
      → h.plan ≡ plan
      → Concludes p (promote crypto h m plan incumbent_digest now progress w)
  unfolding promote result_of
  promote-Concludes p none incumbent_digest now progress w serving through is =
      (serving, through, subst (λ x. Allowed x w.executions) (sym is) tt)
  promote-Concludes p (some plan) incumbent_digest now progress w serving through is =
      promoted-Concludes p _ plan incumbent_digest now progress w serving through is refl

  stopped-Concludes :
      (p : ReleasePointer) (back : Option String) (progress : Progress)
      (r : Outcome ReleaseError (Unit {0}) × CanaryWorld L X)
      → progress.stopped_reason ≢ none
      → Restores p r
      → Concludes p (continue r (λ _. pure (result_of crypto h m rolled_back back progress)))
  unfolding result_of
  stopped-Concludes p back progress (ok _, w) stopped restores = (restores, stopped)
  stopped-Concludes p back progress (err f, w) stopped serving = inr (inl serving)

  compensated-Concludes :
      (p : ReleasePointer) (incumbent_digest : String) (now : ℕ) (progress : Progress)
      (r : Outcome ReleaseError (Unit {0}) × CanaryWorld L X)
      → progress.stopped_reason ≢ none
      → Serving p r.1.store.pointer
      → Concludes p (
          continue r (λ _.
            restore crypto h m incumbent_digest now
            >> pure (result_of crypto h m rolled_back (some incumbent_digest) progress)))
  compensated-Concludes p incumbent_digest now progress (ok _, w) stopped serving =
      stopped-Concludes p (some incumbent_digest) progress
        (restore crypto h m incumbent_digest now w) stopped
        (restore-Restores p incumbent_digest now w serving)
  compensated-Concludes p incumbent_digest now progress (err f, w) stopped serving =
      inr (inl serving)

  conclude-Concludes :
      (p : ReleasePointer) (reason : Option String) (incumbent_digest : String) (now : ℕ)
      (progress : Progress) (w : CanaryWorld L X)
      → progress.stopped_reason ≡ reason
      → Serving p w.store.pointer
      → Concludes p (conclude crypto h m reason incumbent_digest now progress w)
  unfolding conclude
  conclude-Concludes p none incumbent_digest now progress w is serving =
      promote-Concludes p h.plan incumbent_digest now progress w serving is refl
  conclude-Concludes p (some reason) incumbent_digest now progress w is serving =
      compensated-Concludes p incumbent_digest now progress
        (compensate crypto h m h.plan h.executor w) (λ e. cc (is, e))
        (ap (λ (s : ReleasePointerStore L). s.pointer) (compensate-store h.plan h.executor w)
          ∙ serving)

  module _ (show : ℕ → String) (start final : ℕ) (now : ℕ → ℕ) (rng : Randomness)
      (events : List GuardrailEvent) where
    after_tasks-Concludes :
        (p : ReleasePointer) (r : Outcome ReleaseError Progress × Fleet) (incumbent_digest : String)
        (w : CanaryWorld L X)
        → Serving p w.store.pointer
        → Concludes p (after_tasks crypto h m show start final now rng events r incumbent_digest w)
    unfolding after_tasks
    after_tasks-Concludes p (err e, f) incumbent_digest w serving = inr (inl serving)
    after_tasks-Concludes p (ok progress, f) incumbent_digest w serving =
        conclude-Concludes p progress.stopped_reason incumbent_digest final progress
          (record w { fleet = f }) refl serving

    after_activation-Concludes :
        (r : Outcome ReleaseError ReleasePointer × ReleasePointerStore L)
        (incumbent_digest : String) (w : CanaryWorld L X)
        → Activates crypto h.audit_log h.controller m w.store r
        → Concludes w.store.pointer
            (after_activation crypto h m show start final now rng events r incumbent_digest w)
    unfolding after_activation
    after_activation-Concludes (err e, s) incumbent_digest w kept = inl kept
    after_activation-Concludes (ok q, s) incumbent_digest w (verified, distinct, (swapped, same)) =
        after_tasks-Concludes w.store.pointer _ incumbent_digest (record w { store = s })
          swapped.moved

    from_incumbent-Concludes :
        (d : Option String) (w : CanaryWorld L X)
        → Concludes w.store.pointer (from_incumbent crypto h m show start final now rng events d w)
    unfolding from_incumbent
    from_incumbent-Concludes none w = inl refl
    from_incumbent-Concludes (some digest) w = elim (Bool-cases (str_eq m.manifest_digest digest)) [
      | inl e ↦ rw e (inl refl)
      | inr e ↦ rw e (
          after_activation-Concludes (activate crypto h.audit_log h.controller m w.store) digest w
            (activate-Activates crypto h.audit_log h.controller m w.store))
    ]

    -- A canary that returns as completed leaves the pointer at the candidate, one version later, with
    -- no stop reason and, if a plan is declared, with the promotion check passed on the sink's
    -- records; one that returns as rolled back has a stop reason and leaves the pointer at the prior
    -- release that the candidate's manifest names, two versions later. One that raises leaves the
    -- pointer as it was, at the candidate, or at that prior release.
    pub run_canary-Concludes :
        (w : CanaryWorld L X)
        → Concludes w.store.pointer (run_canary crypto h m show start final now rng events w)
    unfolding run_canary
    run_canary-Concludes w = from_incumbent-Concludes w.store.pointer.current_digest w
