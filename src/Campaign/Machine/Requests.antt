-- ===== src/Campaign/Machine/Requests.antt =====
-- What each operation of campaign/machine.py does when it is called, and why one raises.
use recursive_self_improveme.Common.{ℕ, String, ◌≡◌, ◌≢◌, none, some, ok, err}
use recursive_self_improveme.Campaign.Phase.{paused, cancelled}
use recursive_self_improveme.Campaign.Phase.Edges.{Edge, IsActive}
use recursive_self_improveme.Campaign.Machine.{
  invalid_transition, raised, CampaignOrchestrator, Returned, Operation, move, suspend, wake, stop,
  consult,
}
use recursive_self_improveme.Campaign.Machine.Moves.{Recorded}

module _ {W E : Type 0} where
  -- The phase and the resume target that the operation asks for, from which it may be asked, and what it
  -- does to the gates' world: only a move consults the gates.
  abbrev pub Granted :
      Operation → CampaignOrchestrator W E → W → CampaignOrchestrator W E → W → Type 0
  Granted (move q) o w o' w' =
      Edge o.phase q
      × (consult o q w ≡ (ok tt, w'))
      × (o'.phase ≡ q)
      × (o'.resume_target ≡ o.resume_target)
  Granted suspend o w o' w' =
      IsActive o.phase
      × (o.phase ≢ paused)
      × (w' ≡ w)
      × (o'.phase ≡ paused)
      × (o'.resume_target ≡ some o.phase)
  Granted wake o w o' w' =
      (o.phase ≡ paused) × (o.resume_target ≡ some o'.phase) × (w' ≡ w) × (o'.resume_target ≡ none)
  Granted stop o w o' w' =
      IsActive o.phase × (w' ≡ w) × (o'.phase ≡ cancelled) × (o'.resume_target ≡ none)

  -- The lifecycle does not permit the operation.
  abbrev pub Barred : Operation → CampaignOrchestrator W E → Type 0
  Barred (move q) o = ¬ Edge o.phase q
  Barred suspend o = ¬ (IsActive o.phase × (o.phase ≢ paused))
  Barred wake o = ¬ ((o.phase ≡ paused) × (o.resume_target ≢ none))
  Barred stop o = ¬ IsActive o.phase

  -- A gate refused the operation, which the lifecycle permits.
  abbrev pub GateRefused : Operation → CampaignOrchestrator W E → W → E → W → Type 0
  GateRefused (move q) o w e w' = Edge o.phase q × (consult o q w ≡ (err e, w'))
  GateRefused suspend o w e w' = ⊥
  GateRefused wake o w e w' = ⊥
  GateRefused stop o w e w' = ⊥

  abbrev pub Performs :
      Operation → String → ℕ → CampaignOrchestrator W E → W → Returned W E → Type 0
  Performs operation reason reading o w (ok tr, o', w') =
      Recorded o reason reading tr o' × Granted operation o w o' w'
  Performs operation reason reading o w (err (invalid_transition p t allowed), o', w') =
      (o' ≡ o) × (w' ≡ w) × Barred operation o
  Performs operation reason reading o w (err (raised e), o', w') =
      (o' ≡ o) × GateRefused operation o w e w'
