-- ===== src/Release/Manifest.antt =====
-- The signed release manifest: release/manifest.py, and the exceptions of release/errors.py.
pub mod Signing
use recursive_self_improveme.Common.{
  ℕ, String, Bool, true, false, ◌||◌, not, Option, none, some, List, [], ◌∷◌, Outcome, ok, err,
  str_eq, opt_eq, if◌then◌else◌,
}
use recursive_self_improveme.Common.Json.{Bytes, Fields}
use recursive_self_improveme.Security.{Crypto, DetachedSignature, PermissionDenied, sign, verify}
use recursive_self_improveme.Registry.{manifest_body_bytes, manifest_digest_for}
use recursive_self_improveme.Selection.ReleasePointer.{PointerError}
use recursive_self_improveme.Campaign.Compensation.{CompensationError}

pub data ReleaseError : Type 0 where
  unsigned_manifest circular_manifest rollback_unavailable : String → ReleaseError
  no_active_release : ReleaseError
  invalid_canary_config : String → ReleaseError
  session_pin : String → String → String → ReleaseError
  unknown_session : String → String → ReleaseError
  namespace_violation : String → String → String → ReleaseError
  digest_reporting : String → String → String → ReleaseError
  canary_ineligible : List String → List String → ReleaseError
  not_permitted : PermissionDenied → ReleaseError
  pointer_refused : PointerError → ReleaseError
  compensation_refused : CompensationError → ReleaseError

pub record SignedReleaseManifest : Type 0 where
  pub manifest_digest : String
  pub artifact_digests : List String
  pub adapter_versions : Fields
  pub model_routes : Fields
  pub policies : Fields
  pub prior_release_digest : Option String
  pub signature : Bytes
  pub signer_public_key : Bytes

unfoldable pub has_text : List String → String → Bool
has_text [] s = false
has_text (t ∷ ts) s = str_eq t s || has_text ts s

-- The keys of `dict.fromkeys`: the first of each, in order, behind those seen.
unfoldable pub fromkeys : List String → List String → List String
unfolding has_text
fromkeys seen [] = []
fromkeys seen (s ∷ ss) = elim (has_text seen s) [
  | true ↦ fromkeys seen ss
  | false ↦ s ∷ fromkeys (s ∷ seen) ss
]

module _ (crypto : Crypto) where
  unfoldable pub sign_release_manifest :
      List String → Fields → Fields → Fields → Option String → Bytes → SignedReleaseManifest
  unfolding manifest_body_bytes manifest_digest_for sign fromkeys
  sign_release_manifest artifact_digests adapter_versions model_routes policies prior private =
      let resolved = fromkeys [] artifact_digests in
      let body = manifest_body_bytes resolved adapter_versions model_routes policies prior in
      let detached = sign crypto private body in
      record {
        manifest_digest = manifest_digest_for crypto body;
        artifact_digests = resolved;
        adapter_versions = adapter_versions;
        model_routes = model_routes;
        policies = policies;
        prior_release_digest = prior;
        signature = detached.signature;
        signer_public_key = detached.public_key;
      }

  unfoldable pub manifest_body : SignedReleaseManifest → Bytes
  unfolding manifest_body_bytes
  manifest_body m =
      manifest_body_bytes m.artifact_digests m.adapter_versions m.model_routes m.policies
        m.prior_release_digest

  unfoldable pub manifest_verifies : SignedReleaseManifest → Bool
  unfolding manifest_body verify
  manifest_verifies m =
      verify crypto (record { signature = m.signature; public_key = m.signer_public_key })
        (manifest_body m)

  unfoldable pub verify_release_manifest : SignedReleaseManifest → Outcome ReleaseError (Unit {0})
  unfolding manifest_verifies
  verify_release_manifest m =
      if not (manifest_verifies m) then err (unsigned_manifest m.manifest_digest) else ok tt

unfoldable pub assert_distinct_from_prior : SignedReleaseManifest → Outcome ReleaseError (Unit {0})
assert_distinct_from_prior m =
    if opt_eq m.prior_release_digest (some m.manifest_digest)
    then err (circular_manifest m.manifest_digest)
    else ok tt
