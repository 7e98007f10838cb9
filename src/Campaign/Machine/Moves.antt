-- ===== src/Campaign/Machine/Moves.antt =====
-- What one call of the orchestrator does to its state, against the lifecycle graph.
use recursive_self_improveme.Common.{
  ℕ, String, ◌≡◌, ◌≢◌, refl, sym, inl, inr, Option, none, some, [], ◌∷◌, ◌++◌, length, Outcome, ok,
  err, Bool-cases, Option-cases,
}
use recursive_self_improveme.Campaign.Phase.{
  CampaignPhase, paused, cancelled, same, contains, allowed_transitions, can_pause, can_cancel,
}
use recursive_self_improveme.Campaign.Phase.Edges.{
  Edge, IsActive, allowed→Edge, same→eq, can_cancel→IsActive, can_pause→IsActive,
}
use recursive_self_improveme.Campaign.Machine.{
  CampaignTransition, CampaignOrchestrator, Returned, Operation, move, suspend, wake, stop, now,
  record_transition, consult, after_gates, transition, pause, resume, cancel, perform,
}

-- The steps that the lifecycle permits, on the phase and the resume target.
pub data Move (p : CampaignPhase) (t : Option CampaignPhase) (q : CampaignPhase)
    (u : Option CampaignPhase) : Type 0 where
  advanced : Edge p q → u ≡ t → Move p t q u
  suspended : IsActive p → p ≢ paused → q ≡ paused → u ≡ some p → Move p t q u
  woken : p ≡ paused → t ≡ some q → u ≡ none → Move p t q u
  stopped : IsActive p → q ≡ cancelled → u ≡ none → Move p t q u

module _ {W E : Type 0} where
  -- The one transition that a successful call records.
  pub record Recorded (o : CampaignOrchestrator W E) (reason : String) (reading : ℕ)
      (tr : CampaignTransition) (o' : CampaignOrchestrator W E) : Type 0 where
    pub appended : o'.sink ≡ o.sink ++ tr ∷ []
    pub numbered : tr.sequence ≡ length o.sink
    pub leaves : tr.from_phase ≡ o.phase
    pub enters : tr.to_phase ≡ o'.phase
    pub explained : tr.reason ≡ reason
    pub stamped : tr.at ≡ now o reading
    pub moved : Move o.phase o.resume_target o'.phase o'.resume_target
    pub same_execution_gate : o'.execution_gate ≡ o.execution_gate
    pub same_compensation_gate : o'.compensation_gate ≡ o.compensation_gate

  -- A call that raises leaves the orchestrator as it was; any other records its one transition.
  abbrev pub Obeys : CampaignOrchestrator W E → String → ℕ → Returned W E → Type 0
  Obeys o reason reading (err e, o', w') = o' ≡ o
  Obeys o reason reading (ok tr, o', w') = Recorded o reason reading tr o'

  pub record_transition-Obeys :
      (o : CampaignOrchestrator W E) (w : W) (t : Option CampaignPhase) (p q : CampaignPhase)
      (reason : String) (reading : ℕ)
      → p ≡ o.phase
      → Move o.phase o.resume_target q t
      → Obeys o reason reading
          (record_transition (record o { resume_target = t }) w p q reason reading)
  unfolding record_transition
  record_transition-Obeys o w t p q reason reading e m = record {
    appended = refl;
    numbered = refl;
    leaves = e;
    enters = refl;
    explained = refl;
    stamped = refl;
    moved = m;
    same_execution_gate = refl;
    same_compensation_gate = refl;
  }

  after_gates-Obeys :
      (g : Outcome E (Unit {0}) × W) (o : CampaignOrchestrator W E) (q : CampaignPhase)
      (reason : String) (reading : ℕ)
      → Edge o.phase q
      → Obeys o reason reading (after_gates g o q reason reading)
  unfolding after_gates
  after_gates-Obeys (ok _, w) o q reason reading e =
      record_transition-Obeys o w o.resume_target o.phase q reason reading refl (advanced e refl)
  after_gates-Obeys (err _, w) o q reason reading e = refl

  transition-Obeys :
      (q : CampaignPhase) (reason : String) (reading : ℕ) (o : CampaignOrchestrator W E) (w : W)
      → Obeys o reason reading (transition q reason reading o w)
  unfolding transition
  transition-Obeys q reason reading o w =
      elim (Bool-cases (contains (allowed_transitions o.phase) q)) [
        | inl legal ↦
            rw legal
              (after_gates-Obeys (consult o q w) o q reason reading (allowed→Edge o.phase q legal))
        | inr illegal ↦ rw illegal
      ]

  pause-Obeys :
      (reason : String) (reading : ℕ) (o : CampaignOrchestrator W E) (w : W)
      → Obeys o reason reading (pause reason reading o w)
  unfolding pause
  pause-Obeys reason reading o w = elim (Bool-cases (can_pause o.phase)) [
    | inl can ↦
        let active = can_pause→IsActive o.phase can in
        rw can (
          record_transition-Obeys o w (some o.phase) o.phase paused reason reading refl
            (suspended active.0 active.1 refl refl))
    | inr cannot ↦ rw cannot
  ]

  resume-Obeys :
      (reason : String) (reading : ℕ) (o : CampaignOrchestrator W E) (w : W)
      → Obeys o reason reading (resume reason reading o w)
  unfolding resume
  resume-Obeys reason reading o w = elim (Bool-cases (same o.phase paused)) [
    | inl is_paused ↦ rw is_paused (elim (Option-cases o.resume_target) [
      | inl nowhere ↦ rw nowhere
      | inr (target, e) ↦
          let at_pause = same→eq o.phase paused is_paused in
          rw e (
            record_transition-Obeys o w none paused target reason reading (sym at_pause)
              (woken at_pause e refl))
    ])
    | inr other ↦ rw other
  ]

  cancel-Obeys :
      (reason : String) (reading : ℕ) (o : CampaignOrchestrator W E) (w : W)
      → Obeys o reason reading (cancel reason reading o w)
  unfolding cancel
  cancel-Obeys reason reading o w = elim (Bool-cases (can_cancel o.phase)) [
    | inl can ↦ rw can (
        record_transition-Obeys o w none o.phase cancelled reason reading refl
          (stopped (can_cancel→IsActive o.phase can) refl refl))
    | inr cannot ↦ rw cannot
  ]

  -- A call of any operation that returns has made one step of the lifecycle (an edge of the table, a
  -- pause that stores the phase, a resumption of the stored phase, or a cancellation of a phase that
  -- is not terminal), appended the one transition that it returns, numbered by the log's length, with
  -- the reason and the time, and kept the gates; one that raises leaves the orchestrator as it was.
  pub perform-Obeys :
      (operation : Operation) (reason : String) (reading : ℕ) (o : CampaignOrchestrator W E) (w : W)
      → Obeys o reason reading (perform operation reason reading o w)
  unfolding perform
  perform-Obeys (move q) = transition-Obeys q
  perform-Obeys suspend = pause-Obeys
  perform-Obeys wake = resume-Obeys
  perform-Obeys stop = cancel-Obeys
