-- ===== src/Campaign/Machine/Barred.antt =====
-- A gate of campaign/machine.py that never approves keeps the campaign out of the phases behind it.
use recursive_self_improveme.Common.{
  ℕ, String, ◌≡◌, refl, ◌∙◌, Bool, Option, some, List, Outcome, ok, err,
}
use recursive_self_improveme.Common.Effects.{ok_ne_err}
use recursive_self_improveme.Campaign.Phase.{
  CampaignPhase, discover, plan, propose, dev_evaluate, approve, canary, promoted, cancelled,
}
use recursive_self_improveme.Campaign.Phase.Edges.{
  Edge, planned, proposing, evaluating, canarying, promoting, reverting, learning_promoted,
}
use recursive_self_improveme.Campaign.Machine.{
  CampaignOrchestrator, ExecutionGate, CompensationGate, Operation, fresh, consult, consult_gate,
  run,
}
use recursive_self_improveme.Campaign.Machine.History.{fresh-IsFaithful}
use recursive_self_improveme.Campaign.Machine.Milestones.{effective}
use recursive_self_improveme.Campaign.Machine.Containment.{SameGates, Leads, run-Inside}
use recursive_self_improveme.Campaign.Machine.Gates.{consult_compensation-some}

-- Nothing has been executed yet.
abbrev pub BeforeExecution : CampaignPhase → Type 0
BeforeExecution discover = Unit
BeforeExecution plan = Unit
BeforeExecution propose = Unit
BeforeExecution cancelled = Unit
BeforeExecution _ = ⊥

-- The candidate has never been released.
abbrev pub NeverReleased : CampaignPhase → Type 0
NeverReleased canary = ⊥
NeverReleased promoted = ⊥
NeverReleased _ = Unit

module _ {W E : Type 0} where
  abbrev pub ExecutionBarred : CampaignOrchestrator W E → Type 0
  ExecutionBarred o =
      (gate : ExecutionGate W E) × (o.execution_gate ≡ some gate)
      × ((w : W) → (e : E) × (w' : W) × (gate.approve_execution w ≡ (err e, w')))

  abbrev pub ReleaseBarred : CampaignOrchestrator W E → Type 0
  ReleaseBarred o =
      (gate : CompensationGate W E) × (o.compensation_gate ≡ some gate)
      × ((w : W) → (e : E) × (w' : W) × (gate.approve_canary w ≡ (err e, w')))

  consult-evaluating :
      (o : CampaignOrchestrator W E) (w : W)
      → o.phase ≡ propose
      → ExecutionBarred o
      → (e : E) × (w' : W) × (consult o dev_evaluate w ≡ (err e, w'))
  unfolding consult
  consult-evaluating o w p (gate, g, refuses) =
      let (e, w', h) = refuses w in (e, w', simp (p, g, h))

  consult-canarying :
      (o : CampaignOrchestrator W E) (w : W)
      → o.phase ≡ approve
      → ReleaseBarred o
      → (e : E) × (w' : W) × (consult o canary w ≡ (err e, w'))
  unfolding consult consult_gate
  consult-canarying o w p (gate, g, refuses) =
      let (e, w', h) = refuses w in
      (e, w', simp (p, consult_compensation-some o w canary gate g, h))

  Leads-err :
      (R : CampaignPhase → Type 0) (p q : CampaignPhase) (g : Outcome E (Unit {0}) × W)
      → R p
      → (e : E) × (w' : W) × (g ≡ (err e, w'))
      → Leads (λ r _. R r) p q g
  Leads-err R p q (ok _, w) h (e, w', eq) = absurd (ok_ne_err eq)
  Leads-err R p q (err _, w) h k = h

  Leads-both :
      (R : CampaignPhase → Type 0) (p q : CampaignPhase) (g : Outcome E (Unit {0}) × W)
      → R p
      → R q
      → Leads (λ r _. R r) p q g
  Leads-both R p q (ok _, w) h k = k
  Leads-both R p q (err _, w) h k = h

  stays_unexecuted :
      (o : CampaignOrchestrator W E) (p q : CampaignPhase) (w : W)
      → o.phase ≡ p
      → ExecutionBarred o
      → BeforeExecution p
      → Edge p q
      → Leads (λ r _. BeforeExecution r) p q (consult o q w)
  stays_unexecuted o p q w at g h planned = Leads-both BeforeExecution p q (consult o q w) h tt
  stays_unexecuted o p q w at g h proposing = Leads-both BeforeExecution p q (consult o q w) h tt
  stays_unexecuted o p q w at g h evaluating =
      Leads-err BeforeExecution p q (consult o q w) h (consult-evaluating o w at g)
  stays_unexecuted o p q w at g h _ = elim h [ ]

  stays_unreleased :
      (o : CampaignOrchestrator W E) (p q : CampaignPhase) (w : W)
      → o.phase ≡ p
      → ReleaseBarred o
      → NeverReleased p
      → Edge p q
      → Leads (λ r _. NeverReleased r) p q (consult o q w)
  stays_unreleased o p q w at g h canarying =
      Leads-err NeverReleased p q (consult o q w) h (consult-canarying o w at g)
  stays_unreleased o p q w at g h promoting = elim h [ ]
  stays_unreleased o p q w at g h reverting = elim h [ ]
  stays_unreleased o p q w at g h learning_promoted = elim h [ ]
  stays_unreleased o p q w at g h _ = Leads-both NeverReleased p q (consult o q w) h tt

  keeps_execution_gate :
      (o o' : CampaignOrchestrator W E) → SameGates o o' → ExecutionBarred o → ExecutionBarred o'
  keeps_execution_gate o o' s (gate, g, refuses) = (gate, s.0 ∙ g, refuses)

  keeps_compensation_gate :
      (o o' : CampaignOrchestrator W E) → SameGates o o' → ReleaseBarred o → ReleaseBarred o'
  keeps_compensation_gate o o' s (gate, g, refuses) = (gate, s.1 ∙ g, refuses)

  module _ (calls : List (Operation × String × ℕ)) (has_clock : Bool)
      (g : Option (ExecutionGate W E)) (c : Option (CompensationGate W E)) (w : W) where
    abbrev final : CampaignOrchestrator W E
    final = (run calls (fresh has_clock g c) w).0

    -- With an execution gate that always raises, a new campaign never gets past PROPOSE, whatever is
    -- called: it is in DISCOVER, PLAN, PROPOSE or CANCELLED, or suspended in one of these.
    pub never_executed :
        ExecutionBarred (fresh has_clock g c)
        → BeforeExecution (effective final.phase final.resume_target)
    unfolding fresh
    never_executed barred =
        run-Inside (λ p _. BeforeExecution p) ExecutionBarred keeps_execution_gate
          (λ o q w b h edge. stays_unexecuted o o.phase q w refl b h edge) (λ _. tt) calls
          (fresh has_clock g c) w barred (fresh-IsFaithful has_clock g c) tt

    -- With a compensation gate that never approves a canary, a new campaign is never in CANARY or
    -- PROMOTED, nor suspended there, whatever is called.
    pub never_released :
        ReleaseBarred (fresh has_clock g c)
        → NeverReleased (effective final.phase final.resume_target)
    unfolding fresh
    never_released barred =
        run-Inside (λ p _. NeverReleased p) ReleaseBarred keeps_compensation_gate
          (λ o q w b h edge. stays_unreleased o o.phase q w refl b h edge) (λ _. tt) calls
          (fresh has_clock g c) w barred (fresh-IsFaithful has_clock g c) tt
