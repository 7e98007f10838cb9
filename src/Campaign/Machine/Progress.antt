-- ===== src/Campaign/Machine/Progress.antt =====
-- Which calls of campaign/machine.py succeed: all that the lifecycle permits and the gates approve.
use recursive_self_improveme.Common.{ℕ, String, ◌≡◌, ◌≢◌, refl, ap, ◌∙◌, Option, none, some, ok}
use recursive_self_improveme.Campaign.Phase.{CampaignPhase, paused, cancelled, same}
use recursive_self_improveme.Campaign.Phase.Edges.{
  Edge, Edge→allowed, same_refl, IsActive, IsActive→can_cancel, IsActive→can_pause,
}
use recursive_self_improveme.Campaign.Machine.{
  CampaignTransition, CampaignOrchestrator, Operation, move, suspend, wake, stop, Returned, consult,
  new_transition, transition, pause, resume, cancel, perform,
}
use recursive_self_improveme.Campaign.Machine.Moves.{Move, advanced, suspended, woken, stopped}

module _ {W E : Type 0} (o : CampaignOrchestrator W E) (w w' : W) (reason : String)
    (reading : ℕ) where
  -- The call returned a transition and left the campaign at that phase and resume target.
  abbrev pub Reaches : Returned W E → CampaignPhase → Option CampaignPhase → Type 0
  Reaches r q u =
      (tr : CampaignTransition) × (r.0 ≡ ok tr) × (r.1.phase ≡ q) × (r.1.resume_target ≡ u)

  transition-Reaches :
      (q : CampaignPhase)
      → Edge o.phase q
      → consult o q w ≡ (ok tt, w')
      → Reaches (transition q reason reading o w) q o.resume_target
  unfolding transition
  transition-Reaches q edge approved =
      rw (Edge→allowed edge, approved) (new_transition o o.phase q reason reading, refl, refl, refl)

  pause-Reaches :
      IsActive o.phase → o.phase ≢ paused → Reaches (pause reason reading o w) paused (some o.phase)
  unfolding pause
  pause-Reaches active ne =
      rw (IsActive→can_pause o.phase active ne)
        (new_transition o o.phase paused reason reading, refl, refl, refl)

  resume-Reaches :
      (q : CampaignPhase)
      → o.phase ≡ paused
      → o.resume_target ≡ some q
      → Reaches (resume reason reading o w) q none
  unfolding resume
  resume-Reaches q at target =
      rw (ap (λ (p : CampaignPhase). same p paused) at ∙ same_refl paused, target)
        (
          new_transition (record o { resume_target = none }) paused q reason reading,
          refl,
          refl,
          refl,
        )

  cancel-Reaches : IsActive o.phase → Reaches (cancel reason reading o w) cancelled none
  unfolding cancel
  cancel-Reaches active =
      rw (IsActive→can_cancel o.phase active)
        (new_transition o o.phase cancelled reason reading, refl, refl, refl)

  -- Every step that the lifecycle permits is made by some call, if the gates approve the phase that
  -- it enters.
  pub Move-Reaches :
      {q : CampaignPhase} {u : Option CampaignPhase}
      → Move o.phase o.resume_target q u
      → consult o q w ≡ (ok tt, w')
      → (operation : Operation) × Reaches (perform operation reason reading o w) q u
  unfolding perform
  Move-Reaches {q} (advanced edge e) approved = (move q, rw e (transition-Reaches q edge approved))
  Move-Reaches (suspended active ne e f) approved = (suspend, rw (e, f) (pause-Reaches active ne))
  Move-Reaches {q} (woken at target n) approved = (wake, rw n (resume-Reaches q at target))
  Move-Reaches (stopped active e n) approved = (stop, rw (e, n) (cancel-Reaches active))
