-- ===== src/Release/Invalidation/Examples.antt =====
-- Signals against a release, at concrete values.
use recursive_self_improveme.Common.{◌≡◌, refl, none, some, List, [], ◌∷◌, ok}
use recursive_self_improveme.Common.Json.{end}
use recursive_self_improveme.Security.Fixtures.{demo_crypto, controller_identity}
use recursive_self_improveme.Selection.ReleasePointer.{in_memory_audit_log}
use recursive_self_improveme.Selection.ReleasePointer.Ledger.{Store}
use recursive_self_improveme.Release.Manifest.{SignedReleaseManifest, sign_release_manifest}
use recursive_self_improveme.Release.Controller.{ReleaseController}
use recursive_self_improveme.Release.Fleet.{Fleet, new_fleet}
use recursive_self_improveme.Release.Invalidation.{
  InvalidationSignal, InvalidationDecision, expiry, dependency_cve, model_alias_drift, quarantine,
  roll_back, re_evaluate, default_invalidation_policy, evaluate_invalidation, strongest_action,
  handle,
}
use recursive_self_improveme.Release.Invalidation.Handling.{Handles, handle-Handles}

abbrev release : SignedReleaseManifest
release =
    sign_release_manifest demo_crypto ("sha256:1" ∷ []) end end end (some "sha256:old") (7 ∷ [])

abbrev controller : ReleaseController
controller = record { identity = controller_identity }

abbrev serving : Store
serving = record { pointer = record { current_digest = some "sha256:cafe"; version = 2 }; log = [] }

abbrev fleet : Fleet
fleet = new_fleet (30 ∷ [])

abbrev signals : List InvalidationSignal
signals =
    record { trigger = expiry; observed_at = "monday"; detail = "old" }
    ∷ record { trigger = dependency_cve; observed_at = "tuesday"; detail = "cve" }
    ∷ record { trigger = model_alias_drift; observed_at = "tuesday"; detail = "" }
    ∷ []

abbrev decisions : List InvalidationDecision
decisions =
    record {
      manifest_digest = "sha256:cafe";
      trigger = expiry;
      action = quarantine;
      detail = "old";
    }
    ∷ record {
      manifest_digest = "sha256:cafe";
      trigger = dependency_cve;
      action = roll_back;
      detail = "cve";
    }
    ∷ record {
      manifest_digest = "sha256:cafe";
      trigger = model_alias_drift;
      action = re_evaluate;
      detail = "";
    }
    ∷ []

decided : evaluate_invalidation default_invalidation_policy release signals ≡ ok decisions
unfolding evaluate_invalidation sign_release_manifest
decided = refl

rollback_wins : strongest_action decisions ≡ some roll_back
unfolding strongest_action
rollback_wins = refl

handle-Handles_example :
    Handles demo_crypto in_memory_audit_log controller none release signals 9 serving fleet
      (handle demo_crypto in_memory_audit_log controller release signals none 9 (serving, fleet))
handle-Handles_example =
    handle-Handles demo_crypto in_memory_audit_log controller release signals none 9 serving fleet
