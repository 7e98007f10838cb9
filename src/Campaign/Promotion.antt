-- ===== src/Campaign/Promotion.antt =====
-- The orchestrator of campaign/machine.py under the gate of campaign/compensation.py: no campaign is
-- released before its compensation plan is discharged.
use recursive_self_improveme.Common.{
  ℕ, suc, String, ◌≡◌, refl, sym, ◌∙◌, Bool, true, Option, some, Option-cases, List, [], ◌∷◌, ◌++◌,
  arith, Outcome, ok, err, ◌⊎◌, inl, inr, Any-append_left, ◌&&◌,
}
use recursive_self_improveme.Common.Effects.{
  pure, continue, Keeps, Keeps-bind, Keeps-if, Keeps-pure,
}
use recursive_self_improveme.Security.{Crypto}
use recursive_self_improveme.Campaign.Phase.{CampaignPhase, canary, approve, rolled_back, same}
use recursive_self_improveme.Campaign.Phase.Edges.{
  Edge, canarying, promoting, reverting, learning_promoted,
}
use recursive_self_improveme.Campaign.Machine.{
  CampaignOrchestrator, ExecutionGate, CompensationGate, Operation, fresh, run, consult,
  consult_execution, consult_compensation, consult_gate,
}
use recursive_self_improveme.Campaign.Machine.History.{fresh-IsFaithful}
use recursive_self_improveme.Campaign.Machine.Milestones.{effective}
use recursive_self_improveme.Campaign.Machine.Gates.{consult_compensation-some}
use recursive_self_improveme.Campaign.Machine.Containment.{SameGates, Leads, run-Inside}
use recursive_self_improveme.Campaign.Machine.Barred.{NeverReleased}
use recursive_self_improveme.Campaign.Compensation.{
  CompensationAction, CompensationExecutionRecord, SignedCompensationPlan, CompensationError,
  plan_verifies,
}
use recursive_self_improveme.Campaign.Compensation.Execution.{
  CompensationExecutor, assert_promotion_allowed, GateWorld, gate_approve_canary, append_records,
  gate_execute_rollback, execute_rollback_compensations, checkpointed_gate,
}
use recursive_self_improveme.Campaign.Compensation.Promotion.{
  Discharged, assert_promotion_allowed_iff,
}

Discharged-append :
    (plan_id : String) (sink more : List CompensationExecutionRecord) (i : ℕ)
    (actions : List CompensationAction)
    → Discharged plan_id sink i actions
    → Discharged plan_id (sink ++ more) i actions
Discharged-append plan_id sink more i [] h = tt
Discharged-append plan_id sink more i (a ∷ rest) (inl cas, h) =
    (inl cas, Discharged-append plan_id sink more (suc i) rest h)
Discharged-append plan_id sink more i (a ∷ rest) (inr e, h) = (
  inr (Any-append_left (λ r. (r.plan_id ≡ plan_id) × (r.action_index ≡ i)) sink more e),
  Discharged-append plan_id sink more (suc i) rest h,
)

module _ {X : Type 0} (crypto : Crypto) (plan : SignedCompensationPlan)
    (executor : CompensationExecutor X) where
  -- The plan verifies, and the sink has what it asks for.
  abbrev pub IsDischarged : GateWorld X → Type 0
  IsDischarged w = (plan_verifies crypto plan ≡ true) × Discharged plan.plan_id w.1 0 plan.actions

  approve_canary-Keeps : Keeps IsDischarged (gate_approve_canary crypto plan executor)
  unfolding gate_approve_canary
  approve_canary-Keeps = record { at = λ w h. h }

  append_records-IsDischarged :
      (r : Outcome CompensationError (List CompensationExecutionRecord) × X)
      (sink : List CompensationExecutionRecord)
      → Discharged plan.plan_id sink 0 plan.actions
      → Discharged plan.plan_id (append_records crypto plan executor r sink).1.1 0 plan.actions
  unfolding append_records
  append_records-IsDischarged (ok records, x) sink h =
      Discharged-append plan.plan_id sink records 0 plan.actions h
  append_records-IsDischarged (err e, x) sink h = h

  execute_rollback-Keeps : Keeps IsDischarged (gate_execute_rollback crypto plan executor)
  unfolding gate_execute_rollback
  execute_rollback-Keeps = record {
    at = λ w h. (
      h.0,
      append_records-IsDischarged (execute_rollback_compensations plan executor w.0) w.1 h.1,
    );
  }

  abbrev pub gate : CompensationGate (GateWorld X) CompensationError
  gate = checkpointed_gate crypto plan executor

  consult_gate-Keeps : (p q : CampaignPhase) → Keeps IsDischarged (consult_gate p q gate)
  unfolding consult_gate checkpointed_gate
  consult_gate-Keeps p q =
      Keeps-bind _ _
        (Keeps-if (same p approve && same q canary) _ _ approve_canary-Keeps (Keeps-pure tt))
        (λ _. Keeps-if (same q rolled_back) _ _ execute_rollback-Keeps (Keeps-pure tt))

  -- The gate is installed, and what the execution gate does leaves the execution records alone.
  pub record IsGated (o : CampaignOrchestrator (GateWorld X) CompensationError) : Type 0 where
    pub installed : o.compensation_gate ≡ some gate
    pub apart :
        (g : ExecutionGate (GateWorld X) CompensationError) (w : GateWorld X)
        → o.execution_gate ≡ some g
        → (g.approve_execution w).1.1 ≡ w.1

  -- Released only with the plan discharged.
  abbrev pub Earned : CampaignPhase → GateWorld X → Type 0
  Earned p w = NeverReleased p ⊎ IsDischarged w

  consult_execution-sink :
      (o : CampaignOrchestrator (GateWorld X) CompensationError) (q : CampaignPhase)
      (w : GateWorld X)
      → IsGated o
      → (consult_execution o q w).1.1 ≡ w.1
  unfolding consult_execution
  consult_execution-sink o q w g = elim (Option-cases o.execution_gate) [
    | inl n ↦ rw n (ground arith)
    | inr (e, s) ↦ rw s (ground (arith, g.apart e w s))
  ]

  consult-Keeps :
      (o : CampaignOrchestrator (GateWorld X) CompensationError) (q : CampaignPhase)
      → IsGated o
      → Keeps IsDischarged (consult o q)
  unfolding consult
  consult-Keeps o q g =
      Keeps-bind (consult_execution o q) (λ _. consult_compensation o q)
        (record { at = λ w h. (h.0, rw (consult_execution-sink o q w g) h.1) })
        (λ _. record {
          at = λ w h.
              rw (consult_compensation-some o w q gate g.installed)
                ((consult_gate-Keeps o.phase q).at w h);
        })

  approved-Earned :
      (r : Outcome CompensationError (Unit {0})) (w : GateWorld X)
      → (r ≡ ok tt → IsDischarged w)
      → Leads Earned approve canary (continue (r, w) (λ _. pure tt))
  approved-Earned (ok _) w h = inr (h refl)
  approved-Earned (err e) w h = inl tt

  canarying-Earned :
      (o : CampaignOrchestrator (GateWorld X) CompensationError) (w : GateWorld X)
      → o.phase ≡ approve
      → IsGated o
      → Leads Earned approve canary (consult o canary w)
  unfolding consult consult_gate checkpointed_gate gate_approve_canary
  canarying-Earned o w p g =
      simp (p, consult_compensation-some o w canary gate g.installed)
        (approved-Earned (assert_promotion_allowed crypto plan w.1) w
          (λ h. (assert_promotion_allowed_iff crypto plan w.1).0 h))

  Leads-discharged :
      (p q : CampaignPhase) (r : Outcome CompensationError (Unit {0}) × GateWorld X)
      → IsDischarged r.1
      → Leads Earned p q r
  Leads-discharged p q (ok _, w) h = inr h
  Leads-discharged p q (err _, w) h = inr h

  Leads-unreleased :
      (p q : CampaignPhase) (r : Outcome CompensationError (Unit {0}) × GateWorld X)
      → NeverReleased p
      → NeverReleased q
      → Leads Earned p q r
  Leads-unreleased p q (ok _, w) h k = inl k
  Leads-unreleased p q (err _, w) h k = inl h

  stays_unreleased :
      (o : CampaignOrchestrator (GateWorld X) CompensationError) (p q : CampaignPhase)
      (w : GateWorld X)
      → o.phase ≡ p
      → IsGated o
      → NeverReleased p
      → Edge p q
      → Leads Earned p q (consult o q w)
  stays_unreleased o p q w at g h canarying = canarying-Earned o w at g
  stays_unreleased o p q w at g h promoting = elim h [ ]
  stays_unreleased o p q w at g h reverting = elim h [ ]
  stays_unreleased o p q w at g h learning_promoted = elim h [ ]
  stays_unreleased o p q w at g h _ = Leads-unreleased p q (consult o q w) h tt

  stays-Earned :
      (o : CampaignOrchestrator (GateWorld X) CompensationError) (q : CampaignPhase)
      (w : GateWorld X)
      → IsGated o
      → Earned o.phase w
      → Edge o.phase q
      → Leads Earned o.phase q (consult o q w)
  stays-Earned o q w g (inl h) edge = stays_unreleased o o.phase q w refl g h edge
  stays-Earned o q w g (inr h) edge =
      Leads-discharged o.phase q (consult o q w) ((consult-Keeps o q g).at w h)

  keeps_gates :
      (o o' : CampaignOrchestrator (GateWorld X) CompensationError)
      → SameGates o o'
      → IsGated o
      → IsGated o'
  keeps_gates o o' s g = record {
    installed = s.1 ∙ g.installed;
    apart = λ e w h. g.apart e w (sym s.0 ∙ h);
  }

  Earned-released :
      (p : CampaignPhase) (w : GateWorld X) → Earned p w → ¬ NeverReleased p → IsDischarged w
  Earned-released p w (inl h) released = absurd (released h)
  Earned-released p w (inr h) released = h

  -- With the checkpointed compensation gate installed, and an execution gate that leaves the
  -- execution records alone: after any calls on a new campaign, if the campaign is in CANARY or
  -- PROMOTED (or suspended there), then its plan verifies and each action of the plan is a
  -- compare-and-swap or has its execution record in the sink.
  pub released-IsDischarged :
      (calls : List (Operation × String × ℕ)) (has_clock : Bool)
      (e : Option (ExecutionGate (GateWorld X) CompensationError)) (w : GateWorld X)
      → IsGated (fresh has_clock e (some gate))
      → ¬ NeverReleased (
          effective
            (run calls (fresh has_clock e (some gate)) w).0.phase
            (run calls (fresh has_clock e (some gate)) w).0.resume_target)
      → IsDischarged (run calls (fresh has_clock e (some gate)) w).1
  unfolding fresh
  released-IsDischarged calls has_clock e w g released =
      Earned-released _ (run calls (fresh has_clock e (some gate)) w).1
        (run-Inside Earned IsGated keeps_gates stays-Earned (λ _. inl tt) calls
          (fresh has_clock e (some gate)) w g (fresh-IsFaithful has_clock e (some gate)) (inl tt))
        released
