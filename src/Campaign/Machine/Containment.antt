-- ===== src/Campaign/Machine/Containment.antt =====
-- Regions of the lifecycle that the gates of campaign/machine.py keep a campaign in.
use recursive_self_improveme.Common.{
  ℕ, String, ◌≡◌, refl, Bool-cases, Option-cases, none, List, [], ◌∷◌, Outcome, ok, err, inl, inr,
}
use recursive_self_improveme.Campaign.Phase.{
  CampaignPhase, paused, cancelled, contains, allowed_transitions, can_pause, can_cancel, same,
}
use recursive_self_improveme.Campaign.Phase.Edges.{Edge, allowed→Edge, can_pause→IsActive}
use recursive_self_improveme.Campaign.Machine.{
  CampaignOrchestrator, Operation, move, suspend, wake, stop, Returned, consult, after_gates,
  transition, pause, resume, cancel, perform, run,
}
use recursive_self_improveme.Campaign.Machine.Moves.{Obeys, perform-Obeys}
use recursive_self_improveme.Campaign.Machine.History.{
  Settled, Settled-advanced, Settled-none, IsFaithful, Obeys-IsFaithful,
}
use recursive_self_improveme.Campaign.Machine.Milestones.{effective}

module _ {W E : Type 0} where
  abbrev pub SameGates : CampaignOrchestrator W E → CampaignOrchestrator W E → Type 0
  SameGates o o' =
      (o'.execution_gate ≡ o.execution_gate) × (o'.compensation_gate ≡ o.compensation_gate)

  Obeys-SameGates :
      (o : CampaignOrchestrator W E) (reason : String) (reading : ℕ) (r : Returned W E)
      → Obeys o reason reading r
      → SameGates o r.1
  Obeys-SameGates o reason reading (ok tr, o', w') h =
      (h.same_execution_gate, h.same_compensation_gate)
  Obeys-SameGates o reason reading (err e, o', w') h = rw h (refl, refl)

-- What holds after the gates answered: the campaign enters `q`, or stays in `p`.
abbrev pub Leads :
    {W E : Type 0}
    → (CampaignPhase → W → Type 0)
    → CampaignPhase
    → CampaignPhase
    → Outcome E (Unit {0}) × W
    → Type 0
Leads Region p q (ok _, w) = Region q w
Leads Region p q (err _, w) = Region p w

-- A region of phases and gates' objects that no answer of the gates leads out of.
module _ {W E : Type 0} (Region : CampaignPhase → W → Type 0)
    (Guarded : CampaignOrchestrator W E → Type 0)
    (keeps : (o o' : CampaignOrchestrator W E) → SameGates o o' → Guarded o → Guarded o')
    (stays : (o : CampaignOrchestrator W E) (q : CampaignPhase) (w : W)
      → Guarded o
      → Region o.phase w
      → Edge o.phase q
      → Leads Region o.phase q (consult o q w))
    (stopped_inside : (w : W) → Region cancelled w) where
  abbrev Inside : CampaignOrchestrator W E → W → Type 0
  Inside o w = Region (effective o.phase o.resume_target) w

  after_gates-Inside :
      (g : Outcome E (Unit {0}) × W) (o : CampaignOrchestrator W E) (q : CampaignPhase)
      (reason : String) (reading : ℕ)
      → o.resume_target ≡ none
      → Leads Region o.phase q g
      → Inside (after_gates g o q reason reading).1 (after_gates g o q reason reading).2
  unfolding after_gates
  after_gates-Inside (ok _, w) o q reason reading none_before h = rw none_before h
  after_gates-Inside (err _, w) o q reason reading none_before h = rw none_before h

  transition-Inside :
      (q : CampaignPhase) (reason : String) (reading : ℕ) (o : CampaignOrchestrator W E) (w : W)
      → Guarded o
      → Settled o.phase o.resume_target
      → Inside o w
      → Inside (transition q reason reading o w).1 (transition q reason reading o w).2
  unfolding transition
  transition-Inside q reason reading o w g s h =
      elim (Bool-cases (contains (allowed_transitions o.phase) q)) [
        | inl legal ↦
            let edge = allowed→Edge o.phase q legal in
            let none_before = Settled-advanced s edge in
            rw legal (
              after_gates-Inside (consult o q w) o q reason reading none_before
                (stays o q w g (rw none_before at h) edge))
        | inr illegal ↦ rw illegal h
      ]

  pause-Inside :
      (reason : String) (reading : ℕ) (o : CampaignOrchestrator W E) (w : W)
      → Settled o.phase o.resume_target
      → Inside o w
      → Inside (pause reason reading o w).1 (pause reason reading o w).2
  unfolding pause
  pause-Inside reason reading o w s h = elim (Bool-cases (can_pause o.phase)) [
    | inl can ↦ rw can (rw (Settled-none s (can_pause→IsActive o.phase can).1) at h)
    | inr cannot ↦ rw cannot h
  ]

  resume-Inside :
      (reason : String) (reading : ℕ) (o : CampaignOrchestrator W E) (w : W)
      → Inside o w
      → Inside (resume reason reading o w).1 (resume reason reading o w).2
  unfolding resume
  resume-Inside reason reading o w h = elim (Bool-cases (same o.phase paused)) [
    | inl is_paused ↦ rw is_paused (elim (Option-cases o.resume_target) [
      | inl nowhere ↦ rw nowhere h
      | inr (target, e) ↦ rw e (rw e at h)
    ])
    | inr other ↦ rw other h
  ]

  cancel-Inside :
      (reason : String) (reading : ℕ) (o : CampaignOrchestrator W E) (w : W)
      → Inside o w
      → Inside (cancel reason reading o w).1 (cancel reason reading o w).2
  unfolding cancel
  cancel-Inside reason reading o w h = elim (Bool-cases (can_cancel o.phase)) [
    | inl can ↦ rw can (stopped_inside w)
    | inr cannot ↦ rw cannot h
  ]

  perform-Inside :
      (operation : Operation) (reason : String) (reading : ℕ) (o : CampaignOrchestrator W E) (w : W)
      → Guarded o
      → Settled o.phase o.resume_target
      → Inside o w
      → Inside (perform operation reason reading o w).1 (perform operation reason reading o w).2
  unfolding perform
  perform-Inside (move q) reason reading o w g s h = transition-Inside q reason reading o w g s h
  perform-Inside suspend reason reading o w g s h = pause-Inside reason reading o w s h
  perform-Inside wake reason reading o w g s h = resume-Inside reason reading o w h
  perform-Inside stop reason reading o w g s h = cancel-Inside reason reading o w h

  pub run-Inside :
      (calls : List (Operation × String × ℕ)) (o : CampaignOrchestrator W E) (w : W)
      → Guarded o
      → IsFaithful o
      → Region (effective o.phase o.resume_target) w
      → Region (effective (run calls o w).0.phase (run calls o w).0.resume_target) (run calls o w).1
  unfolding run
  run-Inside [] o w g v h = h
  run-Inside ((operation, reason, reading) ∷ rest) o w g v h =
      let r = perform operation reason reading o w in
      let d = perform-Obeys operation reason reading o w in
      run-Inside rest r.1 r.2 (keeps o r.1 (Obeys-SameGates o reason reading r d) g)
        (Obeys-IsFaithful o reason reading r v d)
        (perform-Inside operation reason reading o w g v.settled h)
