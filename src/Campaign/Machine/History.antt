-- ===== src/Campaign/Machine/History.antt =====
-- The transition log of campaign/machine.py: append-only, gapless, linked, and the phase is
-- derivable from it.
use recursive_self_improveme.Common.{
  ℕ, suc, ◌+◌, String, ◌≡◌, ◌≢◌, refl, ap, Bool, Option, none, some, List, [], ◌∷◌, ◌++◌, length,
  arith, ok, err, if◌then◌else◌, sym, ◌∙◌,
}
use recursive_self_improveme.Campaign.Phase.{CampaignPhase, discover, paused, same}
use recursive_self_improveme.Campaign.Phase.Edges.{Edge, planned, IsActive, same→eq, same_refl}
use recursive_self_improveme.Campaign.Machine.{
  CampaignTransition, CampaignOrchestrator, ExecutionGate, CompensationGate, Operation, Returned,
  fresh, perform, run,
}
use recursive_self_improveme.Campaign.Machine.Moves.{
  Move, advanced, suspended, woken, stopped, Recorded, Obeys, perform-Obeys,
}

-- The phase and the resume target that a log ends in, from the log alone.
abbrev pub Status : Type 0
Status = CampaignPhase × Option CampaignPhase

abbrev pub after : Status → CampaignTransition → Status
after (p, t) tr = (tr.to_phase, if same tr.to_phase paused then some tr.from_phase else none)

abbrev pub status_of : Status → List CampaignTransition → Status
status_of s [] = s
status_of s (tr ∷ log) = status_of (after s tr) log

-- From the n-th record on and from status `s`: numbers without a gap, each record leaves the phase
-- that the one before it entered, and is a step of the lifecycle.
abbrev pub IsHistory : ℕ → Status → List CampaignTransition → Type 0
IsHistory n s [] = Unit {0}
IsHistory n s (tr ∷ log) =
    (tr.sequence ≡ n)
    × (tr.from_phase ≡ s.0)
    × Move s.0 s.1 tr.to_phase (after s tr).1
    × IsHistory (suc n) (after s tr) log

status_of-append :
    (s : Status) (log : List CampaignTransition) (tr : CampaignTransition)
    → status_of s (log ++ tr ∷ []) ≡ after (status_of s log) tr
status_of-append s [] tr = refl
status_of-append s (x ∷ log) tr = status_of-append (after s x) log tr

IsHistory-append :
    (n : ℕ) (s : Status) (log : List CampaignTransition) (tr : CampaignTransition)
    → IsHistory n s log
    → tr.sequence ≡ n + length log
    → tr.from_phase ≡ (status_of s log).0
    → Move (status_of s log).0 (status_of s log).1 tr.to_phase (after (status_of s log) tr).1
    → IsHistory n s (log ++ tr ∷ [])
IsHistory-append n s [] tr h e f m = (omega arith, f, m, tt)
IsHistory-append n s (x ∷ log) tr h e f m =
    (h.0, h.1, h.2, IsHistory-append (suc n) (after s x) log tr h.3 (omega arith) f m)

abbrev pub start : Status
start = (discover, none)

-- The campaign is either under way or waits for the phase that it was suspended in.
pub data Settled (p : CampaignPhase) (t : Option CampaignPhase) : Type 0 where
  going : p ≢ paused → t ≡ none → Settled p t
  waiting : (x : CampaignPhase) → p ≡ paused → t ≡ some x → IsActive x → x ≢ paused → Settled p t

Edge-ne-paused : {p q : CampaignPhase} → Edge p q → (p ≢ paused) × (q ≢ paused)
Edge-ne-paused planned = (λ e. cc, λ e. cc)
Edge-ne-paused _ = (λ e. cc, λ e. cc)

pub Settled-advanced :
    {p q : CampaignPhase} {t : Option CampaignPhase} → Settled p t → Edge p q → t ≡ none
Settled-advanced (going _ e) edge = e
Settled-advanced (waiting x e _ _ _) edge = absurd ((Edge-ne-paused edge).0 e)

pub Settled-none :
    {p : CampaignPhase} {t : Option CampaignPhase} → Settled p t → p ≢ paused → t ≡ none
Settled-none (going _ e) ne = e
Settled-none (waiting x e _ _ _) ne = absurd (ne e)

Settled-woken :
    {p q : CampaignPhase} {t : Option CampaignPhase} → Settled p t → t ≡ some q → q ≢ paused
Settled-woken (going _ n) e = cc
Settled-woken (waiting x _ s _ ne) e = λ h. ne (cc)

pub Settled-Move :
    {p q : CampaignPhase} {t u : Option CampaignPhase} → Settled p t → Move p t q u → Settled q u
Settled-Move s (advanced edge e) = going (Edge-ne-paused edge).1 (e ∙ Settled-advanced s edge)
Settled-Move {p} s (suspended active ne e f) = waiting p e f active ne
Settled-Move s (woken e f n) = going (Settled-woken s f) n
Settled-Move s (stopped active e n) = going (λ h. cc) n

if_paused :
    (q from : CampaignPhase) → q ≢ paused → (if same q paused then some from else none) ≡ none
if_paused q from ne = ground (arith, same→eq q paused)

-- The resume target is the phase that the last record left, when that record is a suspension.
after-Move :
    {p q : CampaignPhase} {t u : Option CampaignPhase}
    → Settled p t
    → Move p t q u
    → (if same q paused then some p else none) ≡ u
after-Move {p} {q} s (advanced edge e) =
    if_paused q p (Edge-ne-paused edge).1 ∙ sym (e ∙ Settled-advanced s edge)
after-Move {p} {q} s (suspended active ne e f) = rw (e, same_refl paused, f)
after-Move {p} {q} s (woken e f n) = if_paused q p (Settled-woken s f) ∙ sym n
after-Move {p} {q} s (stopped active e n) = if_paused q p (λ h. cc) ∙ sym n

module _ {W E : Type 0} where
  -- The log is the campaign's history, and the phase and the resume target follow from it.
  pub record IsFaithful (o : CampaignOrchestrator W E) : Type 0 where
    pub history : IsHistory 0 start o.sink
    pub status : status_of start o.sink ≡ (o.phase, o.resume_target)
    pub settled : Settled o.phase o.resume_target

  Recorded-IsFaithful :
      (o o' : CampaignOrchestrator W E) (reason : String) (reading : ℕ) (tr : CampaignTransition)
      → IsFaithful o
      → Recorded o reason reading tr o'
      → IsFaithful o'
  Recorded-IsFaithful o o' reason reading tr v r =
      let target : (after (status_of start o.sink) tr).1 ≡ o'.resume_target =
        rw (r.enters, r.leaves) (after-Move v.settled r.moved) in
      let from : tr.from_phase ≡ (status_of start o.sink).0 =
        r.leaves ∙ sym (ap (λ (s : Status). s.0) v.status) in
      record {
        history = rw r.appended (
            IsHistory-append 0 start o.sink tr v.history (omega arith) from
              (rw (v.status, target, r.enters) r.moved));
        status = rw (r.appended, status_of-append start o.sink tr) (λ i. (r.enters i, target i));
        settled = Settled-Move v.settled r.moved;
      }

  pub Obeys-IsFaithful :
      (o : CampaignOrchestrator W E) (reason : String) (reading : ℕ) (r : Returned W E)
      → IsFaithful o
      → Obeys o reason reading r
      → IsFaithful r.1
  Obeys-IsFaithful o reason reading (ok tr, o', w') v h =
      Recorded-IsFaithful o o' reason reading tr v h
  Obeys-IsFaithful o reason reading (err e, o', w') v h = rw h v

  pub run-IsFaithful :
      (calls : List (Operation × String × ℕ)) (o : CampaignOrchestrator W E) (w : W)
      → IsFaithful o
      → IsFaithful (run calls o w).0
  unfolding run
  run-IsFaithful [] o w v = v
  run-IsFaithful ((operation, reason, reading) ∷ rest) o w v =
      let r = perform operation reason reading o w in
      run-IsFaithful rest r.1 r.2
        (Obeys-IsFaithful o reason reading r v (perform-Obeys operation reason reading o w))

  pub fresh-IsFaithful :
      (has_clock : Bool) (g : Option (ExecutionGate W E)) (c : Option (CompensationGate W E))
      → IsFaithful (fresh has_clock g c)
  unfolding fresh
  fresh-IsFaithful has_clock g c = record {
    history = tt;
    status = refl;
    settled = going (λ e. cc) refl;
  }

  -- After any calls on a new campaign, whatever the gates answer: the log is numbered from 0 without
  -- a gap, each record is a step of the lifecycle from the phase that the one before it entered, and
  -- the phase and the resume target are the ones that the log ends in.
  pub run-fresh-IsFaithful :
      (calls : List (Operation × String × ℕ)) (has_clock : Bool) (g : Option (ExecutionGate W E))
      (c : Option (CompensationGate W E)) (w : W)
      → IsFaithful (run calls (fresh has_clock g c) w).0
  run-fresh-IsFaithful calls has_clock g c w =
      run-IsFaithful calls (fresh has_clock g c) w (fresh-IsFaithful has_clock g c)
