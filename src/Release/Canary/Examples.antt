-- ===== src/Release/Canary/Examples.antt =====
-- Canaries of two tasks at concrete values.
use mathlib.Core.List.Permᴰ
use recursive_self_improveme.Common.{
  length, ℕ, ◌*◌, ◌≤◌, String, ◌≡◌, refl, false, none, some, List, [], ◌∷◌, arith, ◌==◌,
  if◌then◌else◌, ok,
}
use recursive_self_improveme.Common.Json.{end}
use recursive_self_improveme.Security.Fixtures.{demo_crypto, controller_identity}
use recursive_self_improveme.Selection.ReleasePointer.{PointerAuditEntry, in_memory_audit_log}
use recursive_self_improveme.Release.Manifest.{SignedReleaseManifest, sign_release_manifest}
use recursive_self_improveme.Release.Fleet.{
  candidate, incumbent, Fleet, new_fleet, pin_session, find_session, resolve_manifest,
  report_digest, write_state,
}
use recursive_self_improveme.Release.Canary.{
  CanaryConfig, new_config, GuardrailEvent, Randomness, draw_arms, Progress, run_tasks,
}
use recursive_self_improveme.Release.Canary.Run.{CanaryWorld, CanaryHarness, run_canary}
use recursive_self_improveme.Release.Canary.Pointer.{Concludes, run_canary-Concludes}
use recursive_self_improveme.Release.Canary.Guardrails.{Guarded, run_tasks-Guarded}
use recursive_self_improveme.Release.Canary.Draws.{candidates_in, new_config-floors}

abbrev release : SignedReleaseManifest
release =
    sign_release_manifest demo_crypto ("sha256:1" ∷ []) end end end (some "sha256:old") (7 ∷ [])

abbrev rng : Randomness
rng = record {
  uniform = λ seed cap. cap;
  uniform_within = λ seed cap. omega arith;
  shuffle = λ seed arms. arms;
  shuffle_permutes = λ seed arms. Permᴰ.refl arms;
}

abbrev config : CanaryConfig
config = record {
  min_paired_tasks = 200;
  max_candidate_allocation = 50000;
  observation_horizon = 86400;
  seed = 7;
}

abbrev harness : CanaryHarness (List PointerAuditEntry) ℕ
harness = record {
  config = config;
  controller = record { identity = controller_identity };
  audit_log = in_memory_audit_log;
  plan = none;
  has_sink = false;
  executor = none;
}

abbrev fleet : Fleet
fleet = new_fleet (30 ∷ [])

abbrev world : CanaryWorld (List PointerAuditEntry) ℕ
world = record {
  store = record { pointer = record { current_digest = some "sha256:old"; version = 1 }; log = [] };
  fleet = fleet;
  outside = 0;
  executions = [];
}

abbrev harmful : List GuardrailEvent
harmful =
    record { severity = 3; kind = "latency"; task_index = 0; detail = "" }
    ∷ record { severity = 1; kind = "exfiltration"; task_index = 0; detail = "" }
    ∷ record { severity = 1; kind = "late"; task_index = 1; detail = "" }
    ∷ []

abbrev show : ℕ → String
show n = if n == 0 then "0" else "1"

abbrev beginning : Progress
beginning = record { candidate_sessions = 0; fired = []; stopped_reason = none; tasks_run = 0 }

abbrev stopped : Progress
stopped = record {
  candidate_sessions = 1;
  fired =
      record { severity = 3; kind = "latency"; task_index = 0; detail = "" }
      ∷ record { severity = 1; kind = "exfiltration"; task_index = 0; detail = "" }
      ∷ [];
  stopped_reason = some "severity-1 guardrail event: exfiltration";
  tasks_run = 1;
}

stops_at_first_task :
    (run_tasks show
      (λ n. n)
      release
      "sha256:old"
      harmful
      0
      (candidate ∷ incumbent ∷ [])
      beginning
      fleet).0
    ≡ ok stopped
unfolding run_tasks new_fleet pin_session find_session resolve_manifest report_digest write_state
    sign_release_manifest
stops_at_first_task = refl

new_config-floors_example :
    (200 ≤ length (draw_arms rng config))
    × (length (draw_arms rng config) ≡ 200)
    × (86400 ≤ 86400)
    × (candidates_in (draw_arms rng config) * 20 ≤ length (draw_arms rng config))
    × (candidates_in (draw_arms rng config) * 1000000 ≤ length (draw_arms rng config) * 50000)
unfolding new_config
new_config-floors_example = new_config-floors 200 50000 86400 7 config rng refl

run_tasks-Guarded_example : Guarded harmful 0 2 beginning stopped
unfolding run_tasks new_fleet pin_session find_session resolve_manifest report_digest write_state
    sign_release_manifest
run_tasks-Guarded_example =
    run_tasks-Guarded show (λ n. n) release "sha256:old" harmful 0 (candidate ∷ incumbent ∷ [])
      beginning stopped fleet
      (run_tasks show (λ n. n) release "sha256:old" harmful 0 (candidate ∷ incumbent ∷ []) beginning
        fleet).1
      refl refl refl

run_canary-Concludes_example :
    Concludes demo_crypto harness release world.store.pointer
      (run_canary demo_crypto harness release show 1 9 (λ n. n) rng harmful world)
run_canary-Concludes_example =
    run_canary-Concludes demo_crypto harness release show 1 9 (λ n. n) rng harmful world
