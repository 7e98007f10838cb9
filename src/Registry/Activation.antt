-- ===== src/Registry/Activation.antt =====
-- The activation of a registered release: `activate_release` and `_assert_acyclic` of
-- registry/service.py, over the tables of db/models/registry.py. The stack is given with its top
-- first. The walk has fuel: `none` is a walk whose fuel ran out.
pub mod Walk
pub mod Acyclic
pub mod Accepted
mod Examples
use recursive_self_improveme.Common.{
  ℕ, zero, suc, ◌+◌, ◌-◌, ◌*◌, ◌/◌, ◌%◌, ◌≤◌, ◌<◌, min, max, String, ◌≡◌, refl, sym, ap, ◌∙◌, subst,
  ◌≢◌, ◌↔◌, ◌⊎◌, inl, inr, Bool, true, false, ◌&&◌, ◌||◌, not, Option, none, some, List, [], ◌∷◌,
  ◌++◌, map, arith, str_eq, str_eq_iff, ltb, leb, ◌==◌, if◌then◌else◌, ltb→lt, lt→ltb, leb→le,
  ==_iff, Bool-cases, Option-cases, some_eq, some_ne, opt_eq, opt_eq→eq, opt_eq_refl, length,
  length-append, is_empty, replicate, All, All-append, Any, Outcome, ok, err, guard, ◌>>=◌, ◌>>◌,
  ok_eq, err_ne, Outcome-cases,
}
use recursive_self_improveme.Common.Json.{Bytes, Fields}
use recursive_self_improveme.Security.{Crypto, DetachedSignature, verify}
use recursive_self_improveme.Registry.{manifest_body_bytes}
use recursive_self_improveme.Release.Manifest.{has_text, fromkeys}

pub data RegistryError : Type 0 where
  artifact_not_found unsigned_activation : String → RegistryError
  mixed_release : List String → RegistryError
  circular_metadata : String → RegistryError

-- A row of `artifact_content`, with its dependencies.
pub record RegisteredArtifact : Type 0 where
  pub tenant_id : String
  pub digest : String
  pub dependencies : List String

-- A row of `release_manifests`.
pub record ReleaseManifest : Type 0 where
  pub tenant_id : String
  pub manifest_digest : String
  pub artifact_digests : List String
  pub adapter_versions : Fields
  pub model_routes : Fields
  pub policies : Fields
  pub prior_release_digest : Option String
  pub signature : Bytes
  pub signer_public_key : Bytes

unfoldable pub find_artifact : String → String → List RegisteredArtifact → Option RegisteredArtifact
find_artifact tenant digest [] = none
find_artifact tenant digest (a ∷ rest) =
    let others = find_artifact tenant digest rest in
    if str_eq a.tenant_id tenant && str_eq a.digest digest then some a else others

unfoldable pub find_manifest : String → String → List ReleaseManifest → Option ReleaseManifest
find_manifest tenant digest [] = none
find_manifest tenant digest (m ∷ rest) =
    let others = find_manifest tenant digest rest in
    if str_eq m.tenant_id tenant && str_eq m.manifest_digest digest then some m else others

-- `stack.extend(dependencies)`
unfoldable pub push_all : List String → List String → List String
push_all [] stack = stack
push_all (d ∷ ds) stack = push_all ds (d ∷ stack)

-- `[d for d in requested if d not in resolved_set]`
unfoldable pub outside_of : List String → List String → List String
unfolding has_text
outside_of resolved [] = []
outside_of resolved (d ∷ ds) =
    let rest = outside_of resolved ds in if has_text resolved d then rest else d ∷ rest

module _ (rows : List RegisteredArtifact) (tenant : String) where
  -- The loop over the stack, with what is visited.
  unfoldable pub walk : ℕ → List String → List String → Option (Outcome RegistryError (Unit {0}))
  unfolding has_text find_artifact push_all
  walk fuel visited [] = some (ok tt)
  walk zero visited (current ∷ stack) = none
  walk (suc fuel) visited (current ∷ stack) = elim (has_text visited current) [
    | true ↦ some (err (circular_metadata current))
    | false ↦ elim (find_artifact tenant current rows) [
      | none ↦ some (err (artifact_not_found current))
      | some artifact ↦ walk fuel (current ∷ visited) (push_all artifact.dependencies stack)
    ]
  ]

  -- The rest of the roots, after a walk.
  unfoldable pub after_walk :
      Option (Outcome RegistryError (Unit {0}))
      → Option (Outcome RegistryError (Unit {0}))
      → Option (Outcome RegistryError (Unit {0}))
  after_walk none rest = none
  after_walk (some (err e)) rest = some (err e)
  after_walk (some (ok _)) rest = rest

  -- `_assert_acyclic`: one walk from each root.
  unfoldable pub assert_acyclic : List String → Option (Outcome RegistryError (Unit {0}))
  unfolding walk after_walk
  assert_acyclic [] = some (ok tt)
  assert_acyclic (root ∷ roots) =
      after_walk (walk (suc (length rows)) [] (root ∷ [])) (assert_acyclic roots)

  -- The loop over the requested artifacts. The digest of a found row is the one that was asked for.
  unfoldable pub require_all : List String → Outcome RegistryError (Unit {0})
  unfolding find_artifact
  require_all [] = ok tt
  require_all (d ∷ ds) =
      let rest = require_all ds in
      elim (find_artifact tenant d rows) [ none ↦ err (artifact_not_found d) | some a ↦ rest ]

module _ (crypto : Crypto) where
  -- The manifest's signature and the request against it.
  unfoldable pub check_request :
      List RegisteredArtifact
      → String
      → ReleaseManifest
      → List String
      → Outcome RegistryError (Unit {0})
  unfolding verify manifest_body_bytes outside_of require_all
  check_request rows tenant m requested =
      guard
        (verify crypto (record { signature = m.signature; public_key = m.signer_public_key })
          (manifest_body_bytes m.artifact_digests m.adapter_versions m.model_routes m.policies
            m.prior_release_digest))
        (unsigned_activation m.manifest_digest)
      >> guard (is_empty (outside_of m.artifact_digests requested))
          (mixed_release (outside_of m.artifact_digests requested))
      >> require_all rows tenant requested

  -- The manifest, after the walks.
  unfoldable pub activated :
      ReleaseManifest
      → Option (Outcome RegistryError (Unit {0}))
      → Option (Outcome RegistryError ReleaseManifest)
  activated m none = none
  activated m (some (err e)) = some (err e)
  activated m (some (ok _)) = some (ok m)

  unfoldable pub activate_release :
      List RegisteredArtifact
      → List ReleaseManifest
      → String
      → String
      → List String
      → Option (Outcome RegistryError ReleaseManifest)
  unfolding find_manifest fromkeys check_request assert_acyclic after_walk activated
  activate_release rows manifests tenant manifest_digest artifact_digests =
      let requested = fromkeys [] artifact_digests in
      elim (find_manifest tenant manifest_digest manifests) [
        | none ↦ some (err (artifact_not_found manifest_digest))
        | some m ↦ activated m (
            after_walk rows tenant (some (check_request rows tenant m requested))
              (assert_acyclic rows tenant requested))
      ]
