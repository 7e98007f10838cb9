-- ===== src/Release/Fleet.antt =====
-- The in-process fleet of release/fleet.py. Times are in the clock's unit; `now` is what
-- `clock.seconds()` returns.
pub mod Pinning
pub mod Convergence
pub mod Namespaces
use recursive_self_improveme.Common.{
  ℕ, suc, ◌+◌, ◌≤◌, String, Bool, true, false, ◌&&◌, not, Option, none, some, List, [], ◌∷◌, ◌++◌,
  map, Outcome, ok, err, str_eq, opt_eq, leb, if◌then◌else◌,
}
use recursive_self_improveme.Common.Effects.{Effect}
use recursive_self_improveme.Common.Json.{Json}
use recursive_self_improveme.Release.Manifest.{
  ReleaseError, session_pin, unknown_session, namespace_violation, digest_reporting,
}

pub data SessionArm : Type 0 where
  incumbent candidate : SessionArm

-- `_arm_namespace`
unfoldable pub arm_namespace : SessionArm → String
arm_namespace candidate = "candidate"
arm_namespace incumbent = "incumbent"

-- `_Worker`; `worker_id` is the number of the text `worker-i`.
pub record Worker : Type 0 where
  pub worker_id : ℕ
  pub convergence_latency : ℕ
  pub cached_digest : Option String
  pub resolves_at : Option ℕ

pub record Session : Type 0 where
  pub session_id : String
  pub pinned_digest : String
  pub arm : SessionArm

pub record DigestReport : Type 0 where
  pub session_id : String
  pub reported_digest : String
  pub reported_at : ℕ

-- `InProcessFleetSimulator`; `memory` holds the latest value of a namespace and key first.
pub record Fleet : Type 0 where
  pub workers : List Worker
  pub sessions : List (String × Session)
  pub reports : List DigestReport
  pub memory : List (String × String × Json)
  pub active_digest : Option String
  pub invalidated_at : Option ℕ

-- `__post_init__`, on the latencies that the sampler draws for worker `first` and those after it.
unfoldable pub new_workers : ℕ → List ℕ → List Worker
new_workers first [] = []
new_workers first (latency ∷ rest) =
    record {
      worker_id = first;
      convergence_latency = latency;
      cached_digest = none;
      resolves_at = none;
    }
    ∷ new_workers (suc first) rest

unfoldable pub new_fleet : List ℕ → Fleet
unfolding new_workers
new_fleet latencies = record {
  workers = new_workers 0 latencies;
  sessions = [];
  reports = [];
  memory = [];
  active_digest = none;
  invalidated_at = none;
}

-- The `ValueError` of a fleet without workers.
data FleetError : Type 0 where
  no_workers : FleetError

-- One latency is drawn for each worker.
unfoldable create_fleet : List ℕ → Outcome FleetError Fleet
unfolding new_fleet
create_fleet [] = err no_workers
create_fleet (latency ∷ rest) = ok (new_fleet (latency ∷ rest))

unfoldable pub find_session : String → List (String × Session) → Option Session
find_session id [] = none
find_session id ((k, v) ∷ rest) = if str_eq k id then some v else find_session id rest

unfoldable pub required : Option Session → String → String → Outcome ReleaseError Session
required none id operation = err (unknown_session id operation)
required (some session) id operation = ok session

-- `_require_session`
unfoldable pub require_session : Fleet → String → String → Outcome ReleaseError Session
unfolding required
require_session f id operation = required (find_session id f.sessions) id operation

unfoldable pub set_active : String → Fleet → Fleet
set_active digest f = record f { active_digest = some digest }

unfoldable pub pin_found :
    Option Session → String → String → SessionArm → Effect Fleet ReleaseError (Unit {0})
pin_found (some existing) id digest arm f =
    if not (str_eq existing.pinned_digest digest)
    then (err (session_pin id existing.pinned_digest digest), f)
    else (ok tt, f)
pin_found none id digest arm f = (
  ok tt,
  record f {
    sessions = (id, record { session_id = id; pinned_digest = digest; arm = arm }) ∷ f.sessions;
  },
)

unfoldable pub pin_session : String → String → SessionArm → Effect Fleet ReleaseError (Unit {0})
unfolding pin_found
pin_session id digest arm f = pin_found (find_session id f.sessions) id digest arm f

unfoldable pub resolved : Outcome ReleaseError Session → Outcome ReleaseError String
resolved (ok session) = ok session.pinned_digest
resolved (err e) = err e

unfoldable pub resolve_manifest : String → Fleet → Outcome ReleaseError String
unfolding resolved require_session
resolve_manifest id f = resolved (require_session f id "resolve manifest")

unfoldable pub report_found :
    Outcome ReleaseError String → String → String → ℕ → Effect Fleet ReleaseError (Unit {0})
report_found (err e) id digest now f = (err e, f)
report_found (ok resolved) id digest now f =
    if not (str_eq digest resolved) then (err (digest_reporting id digest resolved), f) else (
      ok tt,
      record f {
        reports =
            f.reports
            ++ record { session_id = id; reported_digest = digest; reported_at = now } ∷ [];
      },
    )

unfoldable pub report_digest : String → String → ℕ → Effect Fleet ReleaseError (Unit {0})
unfolding report_found
report_digest id digest now f = report_found (resolve_manifest id f) id digest now f

unfoldable pub drop_cache : ℕ → Worker → Worker
drop_cache now w = record w {
  cached_digest = none;
  resolves_at = some (now + w.convergence_latency);
}

unfoldable pub invalidate_caches : String → ℕ → Fleet → Fleet
unfolding drop_cache
invalidate_caches digest now f = record f {
  active_digest = some digest;
  invalidated_at = some now;
  workers = map (drop_cache now) f.workers;
}

unfoldable pub is_due : ℕ → Option ℕ → Bool
is_due now none = false
is_due now (some t) = leb t now

unfoldable pub tick_worker : Option String → ℕ → Worker → Worker
unfolding is_due
tick_worker active now w =
    if is_due now w.resolves_at then record w { cached_digest = active; resolves_at = none } else w

unfoldable pub tick : ℕ → Fleet → Fleet
unfolding tick_worker
tick now f = record f { workers = map (tick_worker f.active_digest now) f.workers }

unfoldable pub count_cached : Option String → List Worker → ℕ
count_cached active [] = 0
count_cached active (w ∷ ws) =
    let rest = count_cached active ws in if opt_eq w.cached_digest active then suc rest else rest

unfoldable pub converged_workers : ℕ → Fleet → ℕ × Fleet
unfolding tick count_cached
converged_workers now f = let f' = tick now f in (count_cached f'.active_digest f'.workers, f')

unfoldable pub write_found :
    Outcome ReleaseError Session
    → String
    → String
    → Json
    → String
    → Effect Fleet ReleaseError (Unit {0})
unfolding arm_namespace
write_found (err e) id key value namespace f = (err e, f)
write_found (ok session) id key value namespace f =
    if not (str_eq namespace (arm_namespace session.arm))
    then (err (namespace_violation id namespace (arm_namespace session.arm)), f)
    else (ok tt, record f { memory = (namespace, key, value) ∷ f.memory })

unfoldable pub write_state : String → String → Json → String → Effect Fleet ReleaseError (Unit {0})
unfolding write_found
write_state id key value namespace f =
    write_found (require_session f id "write state") id key value namespace f

unfoldable pub find_memory : String → String → List (String × String × Json) → Option Json
find_memory namespace key [] = none
find_memory namespace key ((n, k, v) ∷ rest) =
    if str_eq n namespace && str_eq k key then some v else find_memory namespace key rest

unfoldable pub read_state : String → String → Fleet → Option Json
unfolding find_memory
read_state key namespace f = find_memory namespace key f.memory
