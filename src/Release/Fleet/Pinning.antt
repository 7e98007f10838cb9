-- ===== src/Release/Fleet/Pinning.antt =====
-- What every sequence of calls on the fleet of release/fleet.py keeps: pins and honest reports.
use recursive_self_improveme.Common.{
  ℕ, String, ◌≡◌, refl, sym, ap, subst, inl, inr, Option, none, some, List, [], ◌∷◌, ◌++◌, str_eq,
  str_eq_iff, Bool-cases, Option-cases, All, All-append, Outcome, ok, err,
}
use recursive_self_improveme.Common.Json.{Json}
use recursive_self_improveme.Release.Manifest.{ReleaseError, unknown_session}
use recursive_self_improveme.Release.Fleet.{
  SessionArm, Session, DigestReport, Fleet, find_session, required, set_active, pin_found,
  pin_session, require_session, resolved, resolve_manifest, report_found, report_digest,
  invalidate_caches, tick, arm_namespace, write_found, write_state, new_fleet,
}

-- The calls that change the fleet.
pub data Call : Type 0 where
  set_active_call : String → Call
  pin_session_call : String → String → SessionArm → Call
  report_digest_call : String → String → ℕ → Call
  invalidate_caches_call : String → ℕ → Call
  tick_call : ℕ → Call
  write_state_call : String → String → Json → String → Call

-- The fleet after a call, whether it returns or raises.
unfoldable pub perform : Call → Fleet → Fleet
perform (set_active_call digest) f = set_active digest f
perform (pin_session_call id digest arm) f = (pin_session id digest arm f).1
perform (report_digest_call id digest now) f = (report_digest id digest now f).1
perform (invalidate_caches_call digest now) f = invalidate_caches digest now f
perform (tick_call now) f = tick now f
perform (write_state_call id key value namespace) f = (write_state id key value namespace f).1

unfoldable pub run : List Call → Fleet → Fleet
run [] f = f
run (call ∷ calls) f = run calls (perform call f)

-- The digest a session is pinned to, if the fleet knows the session.
Pinned : Fleet → String → String → Type 0
Pinned f id digest = resolve_manifest id f ≡ ok digest

-- `g` knows the sessions of `f` with their pins.
KeepsPins : Fleet → Fleet → Type 0
KeepsPins f g = (id digest : String) → Pinned f id digest → Pinned g id digest

-- Each report has the digest that its session resolves.
HonestReports : Fleet → Type 0
HonestReports f = All (λ r. Pinned f r.session_id r.reported_digest) f.reports

-- Pins and honesty survive the step from `f` to `g`.
record Continues (f g : Fleet) : Type 0 where
  keeps_pins : KeepsPins f g
  keeps_honest : HonestReports f → HonestReports g

resolve-found :
    (f : Fleet) (id : String) (s : Session)
    → find_session id f.sessions ≡ some s
    → resolve_manifest id f ≡ ok s.pinned_digest
unfolding resolve_manifest require_session required resolved
resolve-found f id s h = rw h refl

resolve-lost :
    (f : Fleet) (id : String)
    → find_session id f.sessions ≡ none
    → resolve_manifest id f ≡ err (unknown_session id "resolve manifest")
unfolding resolve_manifest require_session required resolved
resolve-lost f id h = rw h refl

-- A session that resolves a digest is known.
Pinned-found :
    (f : Fleet) (id digest : String)
    → Pinned f id digest
    → (s : Session) × (find_session id f.sessions ≡ some s) × (s.pinned_digest ≡ digest)
unfolding Pinned
Pinned-found f id digest p = elim (Option-cases (find_session id f.sessions)) [
  | inl h ↦ cc (p, resolve-lost f id h)
  | inr (s, h) ↦ (s, h, cc (p, resolve-found f id s h))
]

-- The pin of a session that the other fleet finds too.
found_again :
    (f g : Fleet)
    → ((id : String) (s : Session)
        → find_session id f.sessions ≡ some s
        → find_session id g.sessions ≡ some s)
    → KeepsPins f g
unfolding KeepsPins Pinned
found_again f g k id digest p =
    let (s, h, e) = Pinned-found f id digest p in cc (resolve-found g id s (k id s h), e)

All-monotone :
    (f g : Fleet) (rs : List DigestReport)
    → KeepsPins f g
    → All (λ r. Pinned f r.session_id r.reported_digest) rs
    → All (λ r. Pinned g r.session_id r.reported_digest) rs
unfolding KeepsPins
All-monotone f g [] k h = tt
All-monotone f g (r ∷ rs) k h = (k r.session_id r.reported_digest h.0, All-monotone f g rs k h.1)

same_sessions : (f g : Fleet) → g.sessions ≡ f.sessions → KeepsPins f g
same_sessions f g h = found_again f g (λ id s e. cc (ap (find_session id) h, e))

same_reports : (f g : Fleet) → KeepsPins f g → g.reports ≡ f.reports → Continues f g
unfolding HonestReports
same_reports f g k hr = record {
  keeps_pins = k;
  keeps_honest = λ h.
      subst (All (λ r. Pinned g r.session_id r.reported_digest)) (sym hr)
        (All-monotone f g f.reports k h);
}

unchanged : (f g : Fleet) → g.sessions ≡ f.sessions → g.reports ≡ f.reports → Continues f g
unchanged f g hs hr = same_reports f g (same_sessions f g hs) hr

find-added :
    (id other : String) (added s : Session) (sessions : List (String × Session))
    → find_session id sessions ≡ none
    → find_session other sessions ≡ some s
    → find_session other ((id, added) ∷ sessions) ≡ some s
unfolding find_session
find-added id other added s sessions h p = elim (Bool-cases (str_eq id other)) [
  | inl e ↦ cc (h, p, (str_eq_iff id other).0 e)
  | inr e ↦ rw e p
]

pin_found-Continues :
    (f : Fleet) (id digest : String) (arm : SessionArm) (existing : Option Session)
    → find_session id f.sessions ≡ existing
    → Continues f (pin_found existing id digest arm f).1
unfolding pin_found
pin_found-Continues f id digest arm (some existing) h =
    elim (Bool-cases (str_eq existing.pinned_digest digest)) [
      | inl e ↦ rw e (unchanged f f refl refl)
      | inr e ↦ rw e (unchanged f f refl refl)
    ]
pin_found-Continues f id digest arm none h =
    same_reports f _ (found_again f _ (λ other s e. find-added id other _ s f.sessions h e)) refl

one_more :
    (f g : Fleet) (id digest : String) (now : ℕ)
    → g.sessions ≡ f.sessions
    → g.reports
      ≡ f.reports ++ record { session_id = id; reported_digest = digest; reported_at = now } ∷ []
    → resolve_manifest id f ≡ ok digest
    → Continues f g
unfolding HonestReports Pinned KeepsPins
one_more f g id digest now hs hr h =
    let pins = same_sessions f g hs in
    record {
      keeps_pins = pins;
      keeps_honest = λ honest. subst (All (λ r. Pinned g r.session_id r.reported_digest)) (sym hr) (
          All-append _ f.reports _ (All-monotone f g f.reports pins honest) (pins id digest h, tt));
    }

report_found-Continues :
    (f : Fleet) (id digest : String) (now : ℕ) (answer : Outcome ReleaseError String)
    → resolve_manifest id f ≡ answer
    → Continues f (report_found answer id digest now f).1
unfolding report_found HonestReports
report_found-Continues f id digest now (err e) h = unchanged f f refl refl
report_found-Continues f id digest now (ok pinned) h = elim (Bool-cases (str_eq digest pinned)) [
  | inl e ↦ rw e (one_more f _ id digest now refl refl (cc (h, (str_eq_iff digest pinned).0 e)))
  | inr e ↦ rw e (unchanged f f refl refl)
]

write_found-Continues :
    (f : Fleet) (answer : Outcome ReleaseError Session) (id key : String) (value : Json)
    (namespace : String)
    → Continues f (write_found answer id key value namespace f).1
unfolding write_found
write_found-Continues f (err e) id key value namespace = unchanged f f refl refl
write_found-Continues f (ok s) id key value namespace =
    elim (Bool-cases (str_eq namespace (arm_namespace s.arm))) [
      | inl e ↦ rw e (unchanged f _ refl refl)
      | inr e ↦ rw e (unchanged f f refl refl)
    ]

perform-Continues : (call : Call) (f : Fleet) → Continues f (perform call f)
unfolding perform set_active pin_session report_digest invalidate_caches tick write_state
perform-Continues (set_active_call digest) f = unchanged f _ refl refl
perform-Continues (pin_session_call id digest arm) f = pin_found-Continues f id digest arm _ refl
perform-Continues (report_digest_call id digest now) f =
    report_found-Continues f id digest now _ refl
perform-Continues (invalidate_caches_call digest now) f = unchanged f _ refl refl
perform-Continues (tick_call now) f = unchanged f _ refl refl
perform-Continues (write_state_call id key value namespace) f =
    write_found-Continues f _ id key value namespace

-- A session that resolves a digest resolves the same digest after any sequence of calls on the
-- fleet: pins of any digest for any session, reports, pointer moves, invalidations, ticks, writes.
pub run-keeps_pins :
    (calls : List Call) (f : Fleet) (id digest : String)
    → resolve_manifest id f ≡ ok digest
    → resolve_manifest id (run calls f) ≡ ok digest
unfolding run KeepsPins Pinned
run-keeps_pins [] f id digest h = h
run-keeps_pins (call ∷ calls) f id digest h =
    run-keeps_pins calls (perform call f) id digest
      ((perform-Continues call f).keeps_pins id digest h)

run-honest : (calls : List Call) (f : Fleet) → HonestReports f → HonestReports (run calls f)
unfolding run
run-honest [] f h = h
run-honest (call ∷ calls) f h =
    run-honest calls (perform call f) ((perform-Continues call f).keeps_honest h)

-- After any sequence of calls on a new fleet, every recorded digest report names the digest that
-- its session resolves.
pub run-honest_reports :
    (latencies : List ℕ) (calls : List Call)
    → (let f = run calls (new_fleet latencies) in
        All (λ r. resolve_manifest r.session_id f ≡ ok r.reported_digest) f.reports)
unfolding HonestReports Pinned new_fleet
run-honest_reports latencies calls = run-honest calls (new_fleet latencies) tt
