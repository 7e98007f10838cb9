-- ===== src/Campaign/Machine.antt =====
-- The campaign orchestrator of campaign/machine.py: its state, its operations and their order of
-- effects. `E` is what a gate may raise and `W` what the gates' objects hold.
pub mod Moves
pub mod Requests
pub mod History
pub mod Milestones
pub mod Gates
pub mod Progress
pub mod Containment
pub mod Barred
pub mod Snapshot
mod Examples
use recursive_self_improveme.Common.{
  ℕ, String, Bool, ◌&&◌, not, Option, none, some, List, [], ◌∷◌, ◌++◌, map, length, Outcome, ok,
  err, if◌then◌else◌,
}
use recursive_self_improveme.Common.Effects.{Effect, pure, ◌>>◌}
use recursive_self_improveme.Campaign.Phase.{
  CampaignPhase, discover, propose, dev_evaluate, approve, canary, rolled_back, paused, cancelled,
  value, same, contains, allowed_transitions, is_terminal, can_pause, can_cancel,
}

pub record CampaignTransition : Type 0 where
  pub sequence : ℕ
  pub from_phase : CampaignPhase
  pub to_phase : CampaignPhase
  pub reason : String
  pub at : ℕ

-- `InvalidTransitionError(from_phase, to_phase, allowed)`, and what a gate raised.
pub data CampaignError (E : Type 0) : Type 0 where
  invalid_transition : String → String → List String → CampaignError E
  raised : E → CampaignError E

pub record ExecutionGate (W E : Type 0) : Type 0 where
  pub approve_execution : Effect W E (Unit {0})

pub record CompensationGate (W E : Type 0) : Type 0 where
  pub approve_canary : Effect W E (Unit {0})
  pub execute_rollback_compensations : Effect W E (Unit {0})

-- The mutable fields, the in-memory sink's list, and the gates.
pub record CampaignOrchestrator (W E : Type 0) : Type 0 where
  pub phase : CampaignPhase
  pub resume_target : Option CampaignPhase
  pub sink : List CampaignTransition
  pub has_clock : Bool
  pub execution_gate : Option (ExecutionGate W E)
  pub compensation_gate : Option (CompensationGate W E)

-- The constructor's defaults, on a spec that verifies.
unfoldable pub fresh :
    {W E : Type 0}
    → Bool
    → Option (ExecutionGate W E)
    → Option (CompensationGate W E)
    → CampaignOrchestrator W E
fresh has_clock execution_gate compensation_gate = record {
  phase = discover;
  resume_target = none;
  sink = [];
  has_clock = has_clock;
  execution_gate = execution_gate;
  compensation_gate = compensation_gate;
}

-- The result of a call, the orchestrator, and the gates' objects, after it.
abbrev pub Returned : Type 0 → Type 0 → Type 0
Returned W E = Outcome (CampaignError E) CampaignTransition × CampaignOrchestrator W E × W

module _ {W E : Type 0} where
  -- `reading` is what `clock.now()` returns, in the clock's unit.
  unfoldable pub now : CampaignOrchestrator W E → ℕ → ℕ
  now o reading = if o.has_clock then reading else 0

  unfoldable pub new_transition :
      CampaignOrchestrator W E → CampaignPhase → CampaignPhase → String → ℕ → CampaignTransition
  unfolding now
  new_transition o from_phase to_phase reason reading = record {
    sequence = length o.sink;
    from_phase = from_phase;
    to_phase = to_phase;
    reason = reason;
    at = now o reading;
  }

  -- `_record`
  unfoldable pub record_transition :
      CampaignOrchestrator W E → W → CampaignPhase → CampaignPhase → String → ℕ → Returned W E
  unfolding new_transition
  record_transition o w from_phase to_phase reason reading =
      let transition = new_transition o from_phase to_phase reason reading in
      (ok transition, record o { phase = to_phase; sink = o.sink ++ transition ∷ [] }, w)

  unfoldable pub refuse : CampaignOrchestrator W E → W → String → List String → Returned W E
  unfolding value
  refuse o w to_phase allowed = (err (invalid_transition (value o.phase) to_phase allowed), o, w)

  unfoldable pub consult_execution :
      CampaignOrchestrator W E → CampaignPhase → Effect W E (Unit {0})
  unfolding same
  consult_execution o to_phase =
      if same o.phase propose && same to_phase dev_evaluate
      then elim o.execution_gate [ none ↦ pure tt | some gate ↦ gate.approve_execution ]
      else pure tt

  unfoldable pub consult_gate :
      CampaignPhase → CampaignPhase → CompensationGate W E → Effect W E (Unit {0})
  unfolding same
  consult_gate phase to_phase gate = do
    if same phase approve && same to_phase canary then gate.approve_canary else pure tt
    if same to_phase rolled_back then gate.execute_rollback_compensations else pure tt

  unfoldable pub consult_compensation :
      CampaignOrchestrator W E → CampaignPhase → Effect W E (Unit {0})
  unfolding consult_gate
  consult_compensation o to_phase = elim o.compensation_gate [
    | none ↦ pure tt
    | some gate ↦ consult_gate o.phase to_phase gate
  ]

  -- The gates in the order of the code: execution, then compensation.
  unfoldable pub consult : CampaignOrchestrator W E → CampaignPhase → Effect W E (Unit {0})
  unfolding consult_execution consult_compensation
  consult o to_phase = do consult_execution o to_phase; consult_compensation o to_phase

  unfoldable pub after_gates :
      Outcome E (Unit {0}) × W
      → CampaignOrchestrator W E
      → CampaignPhase
      → String
      → ℕ
      → Returned W E
  unfolding record_transition
  after_gates (ok _, w) o to_phase reason reading =
      record_transition o w o.phase to_phase reason reading
  after_gates (err e, w) o to_phase reason reading = (err (raised e), o, w)

  unfoldable pub transition :
      CampaignPhase → String → ℕ → CampaignOrchestrator W E → W → Returned W E
  unfolding refuse consult after_gates allowed_transitions contains
  transition to_phase reason reading o w =
      let allowed = allowed_transitions o.phase in
      if contains allowed to_phase
      then after_gates (consult o to_phase w) o to_phase reason reading
      else refuse o w (value to_phase) (map value allowed)

  unfoldable pub pause : String → ℕ → CampaignOrchestrator W E → W → Returned W E
  unfolding refuse record_transition can_pause is_terminal
  pause reason reading o w =
      if can_pause o.phase
      then record_transition (record o { resume_target = some o.phase }) w o.phase paused reason
          reading
      else refuse o w (value paused)
          ((if is_terminal o.phase then "nothing — terminal phase" else "already paused") ∷ [])

  unfoldable pub resume : String → ℕ → CampaignOrchestrator W E → W → Returned W E
  unfolding refuse record_transition same
  resume reason reading o w =
      if not (same o.phase paused)
      then refuse o w "resume" ("nothing — not paused" ∷ [])
      else elim o.resume_target [
        | none ↦ refuse o w "resume" ("nothing — not paused" ∷ [])
        | some target ↦
            record_transition (record o { resume_target = none }) w paused target reason reading
      ]

  unfoldable pub cancel : String → ℕ → CampaignOrchestrator W E → W → Returned W E
  unfolding refuse record_transition can_cancel
  cancel reason reading o w =
      if not (can_cancel o.phase)
      then refuse o w (value cancelled) ("nothing — terminal phase" ∷ [])
      else record_transition (record o { resume_target = none }) w o.phase cancelled reason reading

-- The calls that a driver of the machine may make.
pub data Operation : Type 0 where
  move : CampaignPhase → Operation
  suspend wake stop : Operation

module _ {W E : Type 0} where
  unfoldable pub perform : Operation → String → ℕ → CampaignOrchestrator W E → W → Returned W E
  unfolding transition pause resume cancel
  perform (move to_phase) = transition to_phase
  perform suspend = pause
  perform wake = resume
  perform stop = cancel

  -- A driver that catches the exceptions and goes on.
  unfoldable pub run :
      List (Operation × String × ℕ) → CampaignOrchestrator W E → W → CampaignOrchestrator W E × W
  run [] o w = (o, w)
  run ((operation, reason, reading) ∷ rest) o w =
      let (_, o', w') = perform operation reason reading o w in run rest o' w'
