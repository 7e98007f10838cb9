-- ===== src/Registry/Activation/Examples.antt =====
-- The walk of registry/service.py at concrete graphs.
use recursive_self_improveme.Common.{
  String, ◌≡◌, refl, none, some, List, [], ◌∷◌, Any, Outcome, ok, err,
}
use recursive_self_improveme.Common.Json.{end}
use recursive_self_improveme.Security.{sign}
use recursive_self_improveme.Security.Fixtures.{demo_crypto}
use recursive_self_improveme.Registry.{manifest_body_bytes}
use recursive_self_improveme.Registry.Activation.{
  RegistryError, artifact_not_found, mixed_release, circular_metadata, RegisteredArtifact,
  ReleaseManifest, find_manifest, assert_acyclic, activate_release,
}
use recursive_self_improveme.Registry.Activation.Acyclic.{Reaches, Cyclic}
use recursive_self_improveme.Registry.Activation.Accepted.{
  IsSigned, IsResolved, activate_release-ends, activate_release_lem,
}

abbrev artifact : String → List String → RegisteredArtifact
artifact digest dependencies = record {
  tenant_id = "t";
  digest = digest;
  dependencies = dependencies;
}

abbrev tree : List RegisteredArtifact
tree = artifact "a" ("b" ∷ "c" ∷ []) ∷ artifact "b" [] ∷ artifact "c" [] ∷ []

abbrev loop : List RegisteredArtifact
loop = artifact "a" ("b" ∷ []) ∷ artifact "b" ("a" ∷ []) ∷ []

-- Two artifacts share a dependency, and there is no cycle.
abbrev diamond : List RegisteredArtifact
diamond =
    artifact "a" ("b" ∷ "c" ∷ [])
    ∷ artifact "b" ("d" ∷ [])
    ∷ artifact "c" ("d" ∷ [])
    ∷ artifact "d" []
    ∷ []

tree_test : assert_acyclic tree "t" ("a" ∷ "b" ∷ []) ≡ some (ok tt)
unfolding assert_acyclic
tree_test = refl

loop_test : assert_acyclic loop "t" ("a" ∷ []) ≡ some (err (circular_metadata "a"))
unfolding assert_acyclic
loop_test = refl

missing_test : assert_acyclic tree "u" ("a" ∷ []) ≡ some (err (artifact_not_found "a"))
unfolding assert_acyclic
missing_test = refl

-- The shared dependency is taken for a cycle.
diamond_test : assert_acyclic diamond "t" ("a" ∷ []) ≡ some (err (circular_metadata "d"))
unfolding assert_acyclic
diamond_test = refl

abbrev stored : ReleaseManifest
unfolding sign manifest_body_bytes
stored =
    let body = manifest_body_bytes ("a" ∷ "b" ∷ []) end end end none in
    record {
      tenant_id = "t";
      manifest_digest = "m";
      artifact_digests = "a" ∷ "b" ∷ [];
      adapter_versions = end;
      model_routes = end;
      policies = end;
      prior_release_digest = none;
      signature = (sign demo_crypto (1 ∷ []) body).signature;
      signer_public_key = 1 ∷ [];
    }

mixed_test :
    activate_release demo_crypto tree (stored ∷ []) "t" "m" ("a" ∷ "c" ∷ [])
    ≡ some (err (mixed_release ("c" ∷ [])))
unfolding activate_release stored
mixed_test = refl

another_tenant_test :
    activate_release demo_crypto tree (stored ∷ []) "u" "m" [] ≡ some (err (artifact_not_found "m"))
unfolding activate_release stored
another_tenant_test = refl

activate_test :
    activate_release demo_crypto tree (stored ∷ []) "t" "m" ("b" ∷ "a" ∷ "b" ∷ [])
    ≡ some (ok stored)
unfolding activate_release stored
activate_test = refl

activate_release-ends_example :
    (outcome : Outcome RegistryError ReleaseManifest) × (activate_release demo_crypto loop
        (stored ∷ [])
        "t"
        "m"
        ("a" ∷ [])
      ≡ some outcome)
activate_release-ends_example =
    activate_release-ends demo_crypto loop (stored ∷ []) "t" "m" ("a" ∷ [])

activate_release_lem_example :
    (find_manifest "t" "m" (stored ∷ []) ≡ some stored)
    × IsSigned demo_crypto stored
    × ((d x : String)
        → Any (λ e. e ≡ d) ("b" ∷ "a" ∷ "b" ∷ [])
        → IsResolved tree "t" stored d × (Reaches tree "t" d x → ¬ Cyclic tree "t" x))
activate_release_lem_example =
    activate_release_lem demo_crypto tree (stored ∷ []) "t" "m" ("b" ∷ "a" ∷ "b" ∷ []) stored
      activate_test
