-- ===== src/Release/Invalidation/Handling.antt =====
-- What the executor of release/invalidation.py does on every signal.
use recursive_self_improveme.Common.{
  ℕ, String, ◌≡◌, refl, subst, ◌≢◌, ◌↔◌, ◌⊎◌, inl, inr, true, false, Option, none, some, List, [],
  ◌∷◌, arith, Any, Outcome, ok, err,
}
use recursive_self_improveme.Security.{Crypto}
use recursive_self_improveme.Selection.ReleasePointer.{
  ReleasePointer, PointerAuditLog, ReleasePointerStore,
}
use recursive_self_improveme.Release.Manifest.{SignedReleaseManifest, ReleaseError}
use recursive_self_improveme.Release.Controller.{ReleaseController, rollback}
use recursive_self_improveme.Release.Controller.Moves.{RollsBack, rollback-RollsBack}
use recursive_self_improveme.Release.Fleet.{Fleet}
use recursive_self_improveme.Release.Invalidation.Policies.{
  InForce, policy-InForce, Redirected, invalidate_caches-Redirected,
}
use recursive_self_improveme.Release.Invalidation.{
  InvalidationTrigger, InvalidationAction, re_evaluate, quarantine, roll_back, InvalidationPolicy,
  InvalidationSignal, InvalidationDecision, InvalidationError, severity, stronger, action_for,
  decide, prepend, evaluate_invalidation, strongest_from, strongest_action, policy_or_default,
  is_rollback, Plane, converge, after_rollback, apply_decisions, handle,
}

-- One decision for each signal, in order, with an action for its trigger.
abbrev pub Decided :
    (InvalidationTrigger → InvalidationAction → Type 0)
    → SignedReleaseManifest
    → List InvalidationSignal
    → List InvalidationDecision
    → Type 0
Decided acts m [] [] = Unit {0}
Decided acts m [] (d ∷ ds) = ⊥
Decided acts m (s ∷ ss) [] = ⊥
Decided acts m (s ∷ ss) (d ∷ ds) =
    acts s.trigger d.action
    × (d.trigger ≡ s.trigger)
    × (d.manifest_digest ≡ m.manifest_digest)
    × (d.detail ≡ s.detail)
    × Decided acts m ss ds

Decided-map :
    (P Q : InvalidationTrigger → InvalidationAction → Type 0)
    → ((t : InvalidationTrigger) (a : InvalidationAction) → P t a → Q t a)
    → (m : SignedReleaseManifest) (ss : List InvalidationSignal) (ds : List InvalidationDecision)
    → Decided P m ss ds
    → Decided Q m ss ds
Decided-map P Q f m [] [] h = tt
Decided-map P Q f m [] (d ∷ ds) h = elim h [ ]
Decided-map P Q f m (s ∷ ss) [] h = elim h [ ]
Decided-map P Q f m (s ∷ ss) (d ∷ ds) (a, t, e, w, rest) =
    (f s.trigger d.action a, t, e, w, Decided-map P Q f m ss ds rest)

-- The policy has the action.
abbrev Has : InvalidationPolicy → InvalidationTrigger → InvalidationAction → Type 0
Has policy t a = action_for policy t ≡ some a

ok_list_injective :
    {xs ys : List InvalidationDecision}
    → ◌≡◌ {A = Outcome InvalidationError (List InvalidationDecision)} (ok xs) (ok ys)
    → xs ≡ ys
ok_list_injective h = ground arith

evaluate-Decided :
    (policy : InvalidationPolicy) (m : SignedReleaseManifest) (ss : List InvalidationSignal)
    (ds : List InvalidationDecision)
    → evaluate_invalidation policy m ss ≡ ok ds
    → Decided (Has policy) m ss ds
unfolding evaluate_invalidation
evaluate-Decided policy m [] [] h = tt
evaluate-Decided policy m [] (d ∷ ds) h = ground arith
evaluate-Decided policy m (s ∷ ss) ds h =
    step (λ later. evaluate-Decided policy m ss later) (action_for policy s.trigger)
      (evaluate_invalidation policy m ss) refl refl h
  where
    step :
        ((later : List InvalidationDecision)
          → evaluate_invalidation policy m ss ≡ ok later
          → Decided (Has policy) m ss later)
        → (a : Option InvalidationAction)
          (rest : Outcome InvalidationError (List InvalidationDecision))
        → action_for policy s.trigger ≡ a
        → evaluate_invalidation policy m ss ≡ rest
        → prepend (decide a m s) rest ≡ ok ds
        → Decided (Has policy) m (s ∷ ss) ds
    step ih none rest e e' h' = ground arith
    step ih (some a) (err f) e e' h' = ground arith
    step ih (some a) (ok later) e e' h' =
        subst (Decided (Has policy) m (s ∷ ss)) (ok_list_injective h')
          (e, refl, refl, refl, ih later e')

-- Some signal asks for a rollback.
abbrev pub AsksRollback : List InvalidationDecision → Type 0
AsksRollback ds = Any (λ d. d.action ≡ roll_back) ds

stronger-rollback :
    (best a : InvalidationAction)
    → (stronger best a ≡ roll_back) ↔ ((best ≡ roll_back) ⊎ (a ≡ roll_back))
unfolding stronger severity
stronger-rollback re_evaluate re_evaluate = (λ h. inl h, λ h. elim h [ inl e ↦ e | inr e ↦ e ])
stronger-rollback re_evaluate quarantine =
    (λ h. inr h, λ h. elim h [ inl e ↦ absurd (cc e) | inr e ↦ e ])
stronger-rollback re_evaluate roll_back = (λ h. inr refl, λ h. refl)
stronger-rollback quarantine re_evaluate =
    (λ h. inl h, λ h. elim h [ inl e ↦ e | inr e ↦ absurd (cc e) ])
stronger-rollback quarantine quarantine = (λ h. inl h, λ h. elim h [ inl e ↦ e | inr e ↦ e ])
stronger-rollback quarantine roll_back = (λ h. inr refl, λ h. refl)
stronger-rollback roll_back a = (λ h. inl refl, λ h. top a)
  where
    top : (a : InvalidationAction) → stronger roll_back a ≡ roll_back
    top re_evaluate = refl
    top quarantine = refl
    top roll_back = refl

strongest_from-rollback :
    (best : InvalidationAction) (ds : List InvalidationDecision)
    → (strongest_from best ds ≡ roll_back) ↔ ((best ≡ roll_back) ⊎ AsksRollback ds)
unfolding strongest_from
strongest_from-rollback best [] = (λ h. inl h, λ h. elim h [ inl e ↦ e | inr f ↦ absurd f ])
strongest_from-rollback best (d ∷ ds) =
    let now = stronger-rollback best d.action in
    let later = strongest_from-rollback (stronger best d.action) ds in
    (
      λ h. elim (later.0 h) [
        | inr e ↦ inr (inr e)
        | inl e ↦ elim (now.0 e) [ inl b ↦ inl b | inr a ↦ inr (inl a) ]
      ],
      λ h. later.1 (elim h [
        | inl b ↦ inl (now.1 (inl b))
        | inr x ↦ elim x [ inl a ↦ inl (now.1 (inr a)) | inr e ↦ inr e ]
      ]),
    )

is_rollback-cases :
    (a : InvalidationAction)
    → ((is_rollback (some a) ≡ true) × (a ≡ roll_back))
      ⊎ ((is_rollback (some a) ≡ false) × (a ≢ roll_back))
unfolding is_rollback
is_rollback-cases re_evaluate = inr (refl, λ e. cc e)
is_rollback-cases quarantine = inr (refl, λ e. cc e)
is_rollback-cases roll_back = inl (refl, refl)

asks-cases :
    (ds : List InvalidationDecision)
    → ((is_rollback (strongest_action ds) ≡ true) × AsksRollback ds)
      ⊎ ((is_rollback (strongest_action ds) ≡ false) × ¬ AsksRollback ds)
unfolding strongest_action is_rollback
asks-cases [] = inr (refl, λ h. h)
asks-cases (d ∷ ds) =
    let lem = strongest_from-rollback d.action ds in
    elim (is_rollback-cases (strongest_from d.action ds)) [
      | inl (e, same) ↦ inl (e, lem.0 same)
      | inr (e, other) ↦ inr (e, λ asks. other (lem.1 asks))
    ]

module _ {L : Type 0} (crypto : Crypto) (audit_log : PointerAuditLog L)
    (controller : ReleaseController) where
  -- What a call on these signals must do.
  abbrev pub Handles :
      Option InvalidationPolicy
      → SignedReleaseManifest
      → List InvalidationSignal
      → ℕ
      → ReleasePointerStore L
      → Fleet
      → Outcome InvalidationError (List InvalidationDecision) × Plane crypto audit_log controller
      → Type 0
  Handles given m ss now s f (err e, (s', f')) = (s'.pointer ≡ s.pointer) × (f' ≡ f)
  Handles given m ss now s f (ok ds, (s', f')) =
      Decided (InForce given) m ss ds
      × ((AsksRollback ds
            × ((p : ReleasePointer) × RollsBack crypto audit_log controller m s (ok p, s'))
            × ((prior : String) × (m.prior_release_digest ≡ some prior)
                × Redirected prior now f f'))
          ⊎ ((¬ AsksRollback ds) × (s' ≡ s) × (f' ≡ f)))

  after_rollback-Handles :
      (given : Option InvalidationPolicy) (m : SignedReleaseManifest) (ss : List InvalidationSignal)
      (now : ℕ) (s : ReleasePointerStore L) (f : Fleet) (ds : List InvalidationDecision)
      (r : Outcome ReleaseError ReleasePointer × ReleasePointerStore L)
      → Decided (InForce given) m ss ds
      → AsksRollback ds
      → RollsBack crypto audit_log controller m s r
      → Handles given m ss now s f (after_rollback crypto audit_log controller r m ds now f)
  unfolding after_rollback converge
  after_rollback-Handles given m ss now s f ds (err e, s') d asks back = (back, refl)
  after_rollback-Handles given m ss now s f ds (ok p, s') d asks back =
      let (prior, has, moves) = back.1 in
      (d, inl (asks, (p, back), (prior, has, rw has (invalidate_caches-Redirected prior now f))))

  apply_decisions-Handles :
      (given : Option InvalidationPolicy) (m : SignedReleaseManifest) (ss : List InvalidationSignal)
      (now : ℕ) (s : ReleasePointerStore L) (f : Fleet)
      (o : Outcome InvalidationError (List InvalidationDecision))
      → evaluate_invalidation (policy_or_default given) m ss ≡ o
      → Handles given m ss now s f (apply_decisions crypto audit_log controller o m now (s, f))
  unfolding apply_decisions
  apply_decisions-Handles given m ss now s f (err e) h = (refl, refl)
  apply_decisions-Handles given m ss now s f (ok ds) h =
      let decided =
        Decided-map (Has (policy_or_default given)) (InForce given) (policy-InForce given) m ss ds
          (evaluate-Decided (policy_or_default given) m ss ds h) in
      elim (asks-cases ds) [
        | inl (e, asks) ↦ rw e (
            after_rollback-Handles given m ss now s f ds (rollback crypto audit_log controller m s)
              decided asks (rollback-RollsBack crypto audit_log controller m s))
        | inr (e, none_asks) ↦ rw e (decided, inr (none_asks, refl, refl))
      ]

  -- A call that returns gives one decision for each signal, in order, with the action of the policy's
  -- first entry for the trigger (of the default policy, if none or an empty one is given). If a decision
  -- is a rollback, the controller has rolled the release back, and the fleet is to resolve the prior
  -- release: every worker has lost its cached digest and resolves again after its latency. Otherwise
  -- pointer, log and fleet are as they were. A call that raises leaves the pointer and the fleet.
  pub handle-Handles :
      (m : SignedReleaseManifest) (ss : List InvalidationSignal)
      (policy : Option InvalidationPolicy) (now : ℕ) (s : ReleasePointerStore L) (f : Fleet)
      → Handles policy m ss now s f (handle crypto audit_log controller m ss policy now (s, f))
  unfolding handle
  handle-Handles m ss policy now s f = apply_decisions-Handles policy m ss now s f _ refl
