-- ===== src/Campaign/Machine/Milestones.antt =====
-- What a campaign of campaign/machine.py must have gone through to be where it is.
use recursive_self_improveme.Common.{
  ℕ, String, ◌≡◌, ◌∙◌, Bool, Option, none, some, List, [], ◌∷◌, ◌++◌, ok, err, inl, All, Any,
  Any-append_left, Any-append_right,
}
use recursive_self_improveme.Campaign.Phase.{
  CampaignPhase, discover, plan, propose, dev_evaluate, select_freeze, holdout, approve, canary,
  promoted, rolled_back, learn, paused, cancelled,
}
use recursive_self_improveme.Campaign.Phase.Edges.{Edge, planned}
use recursive_self_improveme.Campaign.Machine.{
  CampaignTransition, CampaignOrchestrator, ExecutionGate, CompensationGate, Operation, Returned,
  fresh, perform, run,
}
use recursive_self_improveme.Campaign.Machine.Moves.{
  Move, advanced, suspended, woken, stopped, Recorded, Obeys, perform-Obeys,
}
use recursive_self_improveme.Campaign.Machine.History.{
  Settled, Settled-advanced, Settled-none, IsFaithful, Obeys-IsFaithful, fresh-IsFaithful,
}

-- The phase of the search: a suspended campaign is still in the phase that it resumes to.
abbrev pub effective : CampaignPhase → Option CampaignPhase → CampaignPhase
effective p none = p
effective p (some target) = target

-- What the lifecycle puts before a phase, with the phase.
abbrev pub passed : CampaignPhase → List CampaignPhase
passed discover = []
passed plan = plan ∷ []
passed propose = propose ∷ plan ∷ []
passed dev_evaluate = dev_evaluate ∷ propose ∷ plan ∷ []
passed select_freeze = select_freeze ∷ dev_evaluate ∷ propose ∷ plan ∷ []
passed holdout = holdout ∷ select_freeze ∷ dev_evaluate ∷ propose ∷ plan ∷ []
passed approve = approve ∷ holdout ∷ select_freeze ∷ dev_evaluate ∷ propose ∷ plan ∷ []
passed canary = canary ∷ approve ∷ holdout ∷ select_freeze ∷ dev_evaluate ∷ propose ∷ plan ∷ []
passed promoted =
    promoted ∷ canary ∷ approve ∷ holdout ∷ select_freeze ∷ dev_evaluate ∷ propose ∷ plan ∷ []
passed rolled_back =
    rolled_back ∷ approve ∷ holdout ∷ select_freeze ∷ dev_evaluate ∷ propose ∷ plan ∷ []
passed learn = learn ∷ approve ∷ holdout ∷ select_freeze ∷ dev_evaluate ∷ propose ∷ plan ∷ []
passed paused = []
passed cancelled = []

abbrev pub Entered : List CampaignTransition → CampaignPhase → Type 0
Entered log q = Any (λ tr. tr.to_phase ≡ q) log

abbrev pub HasPassed : List CampaignTransition → CampaignPhase → Type 0
HasPassed log p = All (Entered log) (passed p)

HasPassed-Edge :
    (log : List CampaignTransition) {p q : CampaignPhase}
    → Edge p q
    → HasPassed log p
    → Entered log q
    → HasPassed log q
HasPassed-Edge log planned h e = assumption
HasPassed-Edge log _ h e = assumption

Entered-append :
    (log : List CampaignTransition) (tr : CampaignTransition) (ps : List CampaignPhase)
    → All (Entered log) ps
    → All (Entered (log ++ tr ∷ [])) ps
Entered-append log tr [] h = tt
Entered-append log tr (p ∷ ps) h =
    (Any-append_left (λ t. t.to_phase ≡ p) log (tr ∷ []) h.0, Entered-append log tr ps h.1)

HasPassed-Move :
    (log : List CampaignTransition) {p q : CampaignPhase} {t u : Option CampaignPhase}
    → Settled p t
    → Move p t q u
    → Entered log q
    → HasPassed log (effective p t)
    → HasPassed log (effective q u)
HasPassed-Move log s (advanced edge e) entered h =
    let none_before = Settled-advanced s edge in
    rw (e ∙ none_before) (HasPassed-Edge log edge (rw none_before at h) entered)
HasPassed-Move log s (suspended active ne e f) entered h = rw f (rw (Settled-none s ne) at h)
HasPassed-Move log s (woken e f n) entered h = rw n (rw f at h)
HasPassed-Move log s (stopped active e n) entered h = rw (n, e) tt

module _ {W E : Type 0} where
  -- The phases before the present one have all been entered.
  abbrev pub IsOrderly : CampaignOrchestrator W E → Type 0
  IsOrderly o = HasPassed o.sink (effective o.phase o.resume_target)

  Recorded-IsOrderly :
      (o o' : CampaignOrchestrator W E) (reason : String) (reading : ℕ) (tr : CampaignTransition)
      → IsFaithful o
      → IsOrderly o
      → Recorded o reason reading tr o'
      → IsOrderly o'
  Recorded-IsOrderly o o' reason reading tr v h r = rw r.appended (
      HasPassed-Move (o.sink ++ tr ∷ []) v.settled r.moved
        (Any-append_right (λ t. t.to_phase ≡ o'.phase) o.sink (tr ∷ []) (inl r.enters))
        (Entered-append o.sink tr _ h))

  Obeys-IsOrderly :
      (o : CampaignOrchestrator W E) (reason : String) (reading : ℕ) (r : Returned W E)
      → IsFaithful o
      → IsOrderly o
      → Obeys o reason reading r
      → IsOrderly r.1
  Obeys-IsOrderly o reason reading (ok tr, o', w') v h d =
      Recorded-IsOrderly o o' reason reading tr v h d
  Obeys-IsOrderly o reason reading (err e, o', w') v h d = rw d h

  run-IsOrderly :
      (calls : List (Operation × String × ℕ)) (o : CampaignOrchestrator W E) (w : W)
      → IsFaithful o
      → IsOrderly o
      → IsOrderly (run calls o w).0
  unfolding run
  run-IsOrderly [] o w v h = h
  run-IsOrderly ((operation, reason, reading) ∷ rest) o w v h =
      let r = perform operation reason reading o w in
      let d = perform-Obeys operation reason reading o w in
      run-IsOrderly rest r.1 r.2 (Obeys-IsFaithful o reason reading r v d)
        (Obeys-IsOrderly o reason reading r v h d)

  -- After any calls on a new campaign, the log has an entry into every phase that the lifecycle puts
  -- before the present one (before the resume target, while the campaign is suspended): a promoted
  -- campaign was frozen, ran on the holdout, was approved and canaried.
  pub run-fresh-IsOrderly :
      (calls : List (Operation × String × ℕ)) (has_clock : Bool) (g : Option (ExecutionGate W E))
      (c : Option (CompensationGate W E)) (w : W)
      → IsOrderly (run calls (fresh has_clock g c) w).0
  unfolding fresh
  run-fresh-IsOrderly calls has_clock g c w =
      run-IsOrderly calls (fresh has_clock g c) w (fresh-IsFaithful has_clock g c) tt
