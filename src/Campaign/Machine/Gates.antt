-- ===== src/Campaign/Machine/Gates.antt =====
-- The gates of campaign/machine.py: consulted before anything is recorded.
use recursive_self_improveme.Common.{ℕ, String, ◌≡◌, some, err, ◌⊎◌, inl, inr}
use recursive_self_improveme.Campaign.Phase.{
  CampaignPhase, propose, dev_evaluate, approve, canary, rolled_back,
}
use recursive_self_improveme.Campaign.Machine.{
  CampaignOrchestrator, ExecutionGate, CompensationGate, consult_gate, consult_compensation,
  transition, raised,
}

pub consult_compensation-some :
    {W E : Type 0} (o : CampaignOrchestrator W E) (w : W) (q : CampaignPhase)
    (gate : CompensationGate W E)
    → o.compensation_gate ≡ some gate
    → consult_compensation o q w ≡ consult_gate o.phase q gate w
unfolding consult_compensation
consult_compensation-some o w q gate g = rw g

module _ {W E : Type 0} (o : CampaignOrchestrator W E) (w w' : W) (e : E) (reason : String)
    (reading : ℕ) where
  -- An execution gate that raises leaves the campaign in PROPOSE, with nothing recorded.
  pub evaluation_refused :
      (gate : ExecutionGate W E)
      → o.phase ≡ propose
      → o.execution_gate ≡ some gate
      → gate.approve_execution w ≡ (err e, w')
      → transition dev_evaluate reason reading o w ≡ (err (raised e), o, w')
  unfolding transition
  evaluation_refused gate p g h = simp (p, g, h)

  -- A compensation gate that raises leaves the campaign in APPROVE.
  pub canary_refused :
      (gate : CompensationGate W E)
      → o.phase ≡ approve
      → o.compensation_gate ≡ some gate
      → gate.approve_canary w ≡ (err e, w')
      → transition canary reason reading o w ≡ (err (raised e), o, w')
  unfolding transition consult_gate
  canary_refused gate p g h = simp (p, consult_compensation-some o w _ gate g, h)

  -- A rollback whose compensations fail is not recorded, from APPROVE and from CANARY.
  pub rollback_refused :
      (gate : CompensationGate W E)
      → ((o.phase ≡ approve) ⊎ (o.phase ≡ canary))
      → o.compensation_gate ≡ some gate
      → gate.execute_rollback_compensations w ≡ (err e, w')
      → transition rolled_back reason reading o w ≡ (err (raised e), o, w')
  unfolding transition
  rollback_refused gate (inl p) g h = simp (p, consult_compensation-some o w _ gate g, h)
  rollback_refused gate (inr p) g h = simp (p, consult_compensation-some o w _ gate g, h)
