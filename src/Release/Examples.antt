-- ===== src/Release/Examples.antt =====
-- Manifests, the controller and the fleet at concrete values.
use recursive_self_improveme.Common.{◌≡◌, refl, ◌≢◌, some, List, [], ◌∷◌, arith, All, ok}
use recursive_self_improveme.Common.Json.{Bytes, num, end}
use recursive_self_improveme.Security.Fixtures.{demo_crypto, controller_identity}
use recursive_self_improveme.Selection.ReleasePointer.{in_memory_audit_log}
use recursive_self_improveme.Selection.ReleasePointer.Ledger.{Store}
use recursive_self_improveme.Release.Manifest.{
  SignedReleaseManifest, sign_release_manifest, manifest_body, verify_release_manifest,
}
use recursive_self_improveme.Release.Manifest.Signing.{sign-verifies}
use recursive_self_improveme.Release.Controller.{ReleaseController, activate, rollback}
use recursive_self_improveme.Release.Controller.Moves.{
  Activates, activate-Activates, RollsBack, rollback-RollsBack,
}
use recursive_self_improveme.Release.Controller.Undo.{rollback-activate}
use recursive_self_improveme.Registry.{manifest_digest_for}
use recursive_self_improveme.Release.Fleet.{
  Fleet, candidate, incumbent, new_fleet, resolve_manifest, invalidate_caches, converged_workers,
  write_state, read_state, arm_namespace, find_session,
}
use recursive_self_improveme.Release.Fleet.Pinning.{
  Call, pin_session_call, report_digest_call, invalidate_caches_call, tick_call, run,
  run-keeps_pins, run-honest_reports,
}
use recursive_self_improveme.Release.Fleet.Convergence.{invalidate_caches-converges}
use recursive_self_improveme.Release.Fleet.Namespaces.{candidate_writes_stay_apart, write-read}

abbrev key : Bytes
key = 7 ∷ []

abbrev release_2 : SignedReleaseManifest
release_2 =
    sign_release_manifest demo_crypto ("sha256:1" ∷ "sha256:1" ∷ []) end end end (some "sha256:old")
      key

verified : verify_release_manifest demo_crypto release_2 ≡ ok tt
verified =
    (sign-verifies demo_crypto ("sha256:1" ∷ "sha256:1" ∷ []) end end end (some "sha256:old") key).0

sign-verifies_at_test :
    (verify_release_manifest demo_crypto release_2 ≡ ok tt)
    × (release_2.manifest_digest
        ≡ manifest_digest_for demo_crypto (manifest_body demo_crypto release_2))
sign-verifies_at_test =
    sign-verifies demo_crypto ("sha256:1" ∷ "sha256:1" ∷ []) end end end (some "sha256:old") key

-- The check does not read the digest.
forged_digest_test :
    verify_release_manifest demo_crypto (record release_2 { manifest_digest = "sha256:forged" })
    ≡ ok tt
unfolding verify_release_manifest manifest_body sign_release_manifest
forged_digest_test = refl

abbrev controller : ReleaseController
controller = record { identity = controller_identity }

abbrev serving_old : Store
serving_old = record {
  pointer = record { current_digest = some "sha256:old"; version = 1 };
  log = [];
}

activate-Activates_example :
    Activates demo_crypto in_memory_audit_log controller release_2 serving_old
      (activate demo_crypto in_memory_audit_log controller release_2 serving_old)
activate-Activates_example =
    activate-Activates demo_crypto in_memory_audit_log controller release_2 serving_old

rollback-RollsBack_example :
    RollsBack demo_crypto in_memory_audit_log controller release_2 serving_old
      (rollback demo_crypto in_memory_audit_log controller release_2 serving_old)
rollback-RollsBack_example =
    rollback-RollsBack demo_crypto in_memory_audit_log controller release_2 serving_old

distinct : release_2.prior_release_digest ≢ some release_2.manifest_digest
unfolding sign_release_manifest manifest_digest_for
distinct e = cc

prior : release_2.prior_release_digest ≡ some "sha256:old"
unfolding sign_release_manifest
prior = refl

rollback-activate_example :
    (let after =
        rollback demo_crypto in_memory_audit_log controller release_2
          (activate demo_crypto in_memory_audit_log controller release_2 serving_old).1 in
      (after.0 ≡ ok after.1.pointer)
      × (after.1.pointer.current_digest ≡ some "sha256:old")
      × (after.1.pointer.version ≡ 3))
rollback-activate_example =
    rollback-activate demo_crypto controller release_2 serving_old refl verified distinct
      "sha256:old" prior refl

abbrev fleet : Fleet
fleet = new_fleet (30 ∷ 200 ∷ [])

abbrev canary_calls : List Call
canary_calls =
    pin_session_call "s" "d2" candidate
    ∷ report_digest_call "s" "d2" 4
    ∷ report_digest_call "s" "d1" 5
    ∷ pin_session_call "s" "d1" incumbent
    ∷ invalidate_caches_call "d1" 6
    ∷ tick_call 40
    ∷ []

run-honest_reports_at_test :
    (let f = run canary_calls (new_fleet (30 ∷ 200 ∷ [])) in
      All (λ r. resolve_manifest r.session_id f ≡ ok r.reported_digest) f.reports)
run-honest_reports_at_test = run-honest_reports (30 ∷ 200 ∷ []) canary_calls

abbrev pinned_fleet : Fleet
pinned_fleet = record fleet {
  sessions = ("s", record { session_id = "s"; pinned_digest = "d2"; arm = candidate }) ∷ [];
}

run-keeps_pins_example : resolve_manifest "s" (run canary_calls pinned_fleet) ≡ ok "d2"
unfolding resolve_manifest find_session
run-keeps_pins_example = run-keeps_pins canary_calls pinned_fleet "s" "d2" refl

invalidate_caches-converges_example :
    (converged_workers 250 (invalidate_caches "d1" 50 fleet)).0 ≡ 2
unfolding new_fleet
invalidate_caches-converges_example =
    invalidate_caches-converges fleet "d1" 50 250 200 (omega arith, (omega arith, tt)) (omega arith)

candidate_writes_stay_apart_at_test :
    read_state "k" "incumbent" (write_state "s" "k" (num 1) "incumbent" pinned_fleet).1
    ≡ read_state "k" "incumbent" pinned_fleet
unfolding find_session
candidate_writes_stay_apart_at_test =
    candidate_writes_stay_apart pinned_fleet "s" "k" "incumbent" "k" (num 1)
      (record { session_id = "s"; pinned_digest = "d2"; arm = candidate }) refl refl

write-read_at_test :
    (let call = write_state "s" "k" (num 1) "candidate" pinned_fleet in
      (call.0 ≡ ok tt) × (read_state "k" "candidate" call.1 ≡ some (num 1)))
unfolding find_session arm_namespace
write-read_at_test =
    write-read pinned_fleet "s" "k" (num 1)
      (record { session_id = "s"; pinned_digest = "d2"; arm = candidate }) refl
