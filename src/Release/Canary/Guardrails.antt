-- ===== src/Release/Canary/Guardrails.antt =====
-- The guardrail events of release/canary.py, and the severity-1 event that stops its tasks.
use Prim.Native.String.{◌++◌ as str_append}
use mathlib.Core.List.{append_assoc, append-nil}
use recursive_self_improveme.Common.{
  ℕ, suc, ◌+◌, String, ◌≡◌, refl, sym, ap, ◌∙◌, subst, ◌≢◌, ◌⊎◌, inl, inr, Option, none, some, List,
  [], ◌∷◌, ◌++◌, arith, ◌==◌, ==_iff, Bool-cases, length, All, Outcome, ok, err,
}
use recursive_self_improveme.Common.Effects.{Effect, ok_injective, ok_ne_err, continue}
use recursive_self_improveme.Release.Manifest.{SignedReleaseManifest, ReleaseError}
use recursive_self_improveme.Release.Fleet.{SessionArm, Fleet}
use recursive_self_improveme.Release.Canary.{
  GuardrailEvent, events_at, fire, Progress, serve, advance, unless_stopped, run_tasks,
}

-- No event of severity 1.
abbrev pub Mild : List GuardrailEvent → Type 0
Mild es = All (λ e. e.severity ≢ 1) es

-- The events of a task, in the given order.
pub data Due (index : ℕ) : List GuardrailEvent → List GuardrailEvent → Type 0 where
  none_left : Due index [] []
  of_task :
      {e : GuardrailEvent} {es fs : List GuardrailEvent}
      → e.task_index ≡ index
      → Due index es fs
      → Due index (e ∷ es) (e ∷ fs)
  of_other :
      {e : GuardrailEvent} {es fs : List GuardrailEvent}
      → e.task_index ≢ index
      → Due index es fs
      → Due index (e ∷ es) fs

-- What fires in that many tasks from an index on, and the event that stops them: every event of each
-- task, up to and with the first one of severity 1.
pub data Fires (events : List GuardrailEvent)
    : ℕ → ℕ → List GuardrailEvent → Option GuardrailEvent → Type 0 where
  ended : {index : ℕ} → Fires events index 0 [] none
  passed :
      {index tasks : ℕ} (es fs : List GuardrailEvent) {stopper : Option GuardrailEvent}
      → Due index events es
      → Mild es
      → Fires events (suc index) tasks fs stopper
      → Fires events index (suc tasks) (es ++ fs) stopper
  struck :
      {index tasks : ℕ} (before later : List GuardrailEvent) (e : GuardrailEvent)
      → Due index events (before ++ e ∷ later)
      → Mild before
      → e.severity ≡ 1
      → e.task_index ≡ index
      → Fires events index (suc tasks) (before ++ e ∷ []) (some e)

-- Where the tasks ended: all of them were run, or the stopper's was the last.
abbrev pub Ended : ℕ → Option GuardrailEvent → Progress → Type 0
Ended last none q = (q.stopped_reason ≡ none) × (q.tasks_run ≡ last)
Ended last (some e) q =
    (q.stopped_reason ≡ some (str_append "severity-1 guardrail event: " e.kind))
    × (q.tasks_run ≡ suc e.task_index)

abbrev pub Guarded : List GuardrailEvent → ℕ → ℕ → Progress → Progress → Type 0
Guarded events index tasks p q =
    (new : List GuardrailEvent) × (stopper : Option GuardrailEvent) × Fires events index tasks new
      stopper
    × (q.fired ≡ p.fired ++ new)
    × Ended (index + tasks) stopper q

events_at-Due : (index : ℕ) (es : List GuardrailEvent) → Due index es (events_at index es)
unfolding events_at
events_at-Due index [] = none_left
events_at-Due index (e ∷ es) = elim (Bool-cases (e.task_index == index)) [
  | inl h ↦ rw h (of_task ((==_iff e.task_index index).0 h) (events_at-Due index es))
  | inr h ↦
      rw h (of_other (λ k. ground (arith, ==_iff e.task_index index)) (events_at-Due index es))
]

events_at-All :
    (index : ℕ) (es : List GuardrailEvent) → All (λ e. e.task_index ≡ index) (events_at index es)
unfolding events_at
events_at-All index [] = tt
events_at-All index (e ∷ es) = elim (Bool-cases (e.task_index == index)) [
  | inl h ↦ rw h ((==_iff e.task_index index).0 h, events_at-All index es)
  | inr h ↦ rw h (events_at-All index es)
]

-- What one task's events do.
Strikes : ℕ → List GuardrailEvent → List GuardrailEvent × Option String → Type 0
Strikes index es r =
    ((r.0 ≡ es) × (r.1 ≡ none) × Mild es)
    ⊎ ((before : List GuardrailEvent) × (e : GuardrailEvent) × (later : List GuardrailEvent) × (es
          ≡ before ++ e ∷ later)
        × (r.0 ≡ before ++ e ∷ [])
        × (r.1 ≡ some (str_append "severity-1 guardrail event: " e.kind))
        × Mild before
        × (e.severity ≡ 1)
        × (e.task_index ≡ index))

fire-Strikes :
    (index : ℕ) (es : List GuardrailEvent)
    → All (λ e. e.task_index ≡ index) es
    → Strikes index es (fire es)
unfolding fire Strikes
fire-Strikes index [] h = inl (refl, refl, tt)
fire-Strikes index (e ∷ es) h = elim (Bool-cases (e.severity == 1)) [
  | inl one ↦ rw one (inr ([], e, es, refl, refl, refl, tt, (==_iff e.severity 1).0 one, h.0))
  | inr mild ↦
      let other : e.severity ≢ 1 = λ k. ground (arith, ==_iff e.severity 1) in
      rw mild (elim (fire-Strikes index es h.1) [
        | inl (same, through, milds) ↦ inl (ap (λ x. e ∷ x) same, through, (other, milds))
        | inr (before, last, later, split, fired, reason, milds, one, at_index) ↦ inr (
          e ∷ before,
          last,
          later,
          ap (λ x. e ∷ x) split,
          ap (λ x. e ∷ x) fired,
          reason,
          (other, milds),
          one,
          at_index,
        )
      ])
]

module _ (show : ℕ → String) (now : ℕ → ℕ) (m : SignedReleaseManifest) (incumbent_digest : String)
    (events : List GuardrailEvent) where
  abbrev next : ℕ → SessionArm → Progress → Progress
  next index arm p = advance show now m incumbent_digest events index arm p

  -- What holds of a run of the later tasks, from what this task left.
  abbrev Onward :
      ℕ → ℕ → Progress → Progress → Fleet → Fleet → Effect Fleet ReleaseError Progress → Type 0
  Onward index tasks p q f f' later =
      p.stopped_reason ≡ none → later f ≡ (ok q, f') → Guarded events (suc index) tasks p q

  step-Guarded :
      (index tasks : ℕ) (arm : SessionArm) (p q : Progress) (f f' : Fleet)
      (later : Effect Fleet ReleaseError Progress)
      → Onward index tasks (next index arm p) q f f' later
      → unless_stopped show now m incumbent_digest
          (next index arm p).stopped_reason
          (next index arm p)
          later
          f
        ≡ (ok q, f')
      → Guarded events index (suc tasks) p q
  unfolding advance unless_stopped Strikes
  step-Guarded index tasks arm p q f f' later onward h =
      elim (fire-Strikes index (events_at index events) (events_at-All index events)) [
        | inl (same, through, mild) ↦
            let (new, stopper, fires, all, end) =
              onward through (rw (through, unless_stopped) at h) in
            let here = events_at index events in
            (
              here ++ new,
              stopper,
              passed here new (events_at-Due index events) mild fires,
              all ∙ ap (λ x. (p.fired ++ x) ++ new) same ∙ append_assoc p.fired here new,
              subst (λ n. Ended n stopper q) (omega arith) end,
            )
        | inr (before, e, rest, split, fired, reason, mild, one, at_index) ↦
            let same = (ok_injective (rw (reason, unless_stopped) at h)).0 in
            let due = subst (Due index events) split (events_at-Due index events) in
            (
              before ++ e ∷ [],
              some e,
              struck before rest e due mild one at_index,
              sym (ap (λ x. x.fired) same) ∙ ap (λ x. p.fired ++ x) fired,
              (
                sym (ap (λ x. x.stopped_reason) same),
                sym (ap (λ x. x.tasks_run) same) ∙ omega (arith, at_index),
              ),
            )
      ]

  after_serve :
      (r : Outcome ReleaseError (Unit {0}) × Fleet) (index tasks : ℕ) (arm : SessionArm)
      (p q : Progress) (later : Effect Fleet ReleaseError Progress) (f' : Fleet)
      → ((f : Fleet) → Onward index tasks (next index arm p) q f f' later)
      → continue r (λ _.
        unless_stopped show now m incumbent_digest
          (next index arm p).stopped_reason
          (next index arm p)
          later)
        ≡ (ok q, f')
      → Guarded events index (suc tasks) p q
  after_serve (ok _, f) index tasks arm p q later f' onward h =
      step-Guarded index tasks arm p q f f' later (onward f) h
  after_serve (err e, f) index tasks arm p q later f' onward h = absurd (ok_ne_err (sym h))

  -- Tasks that run without an error fire the events of each task in their given order, up to and with
  -- the first one of severity 1, after those that fired before. Without such an event all tasks are run
  -- and nothing stops them; with one, its task is the last and its kind is the reason.
  pub run_tasks-Guarded :
      (index : ℕ) (arms : List SessionArm) (p q : Progress) (f f' : Fleet)
      → p.stopped_reason ≡ none
      → p.tasks_run ≡ index
      → run_tasks show now m incumbent_digest events index arms p f ≡ (ok q, f')
      → Guarded events index (length arms) p q
  unfolding run_tasks advance
  run_tasks-Guarded index [] p q f f' through run h =
      let same = (ok_injective h).0 in
      (
        [],
        none,
        ended,
        sym (ap (λ x. x.fired) same) ∙ sym (append-nil p.fired),
        (
          sym (ap (λ x. x.stopped_reason) same) ∙ through,
          sym (ap (λ x. x.tasks_run) same) ∙ (run ∙ omega arith),
        ),
      )
  run_tasks-Guarded index (arm ∷ arms) p q f f' through run h =
      after_serve (serve show now m incumbent_digest index arm f) index (length arms) arm p q
        (run_tasks show now m incumbent_digest events (suc index) arms (next index arm p)) f'
        (λ g through' h'.
          run_tasks-Guarded (suc index) arms (next index arm p) q g f' through' (ran index arm p)
            h')
        h
    where
      ran : (i : ℕ) (a : SessionArm) (p : Progress) → (next i a p).tasks_run ≡ suc i
      ran i a p = omega arith
