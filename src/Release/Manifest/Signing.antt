-- ===== src/Release/Manifest/Signing.antt =====
-- What a verified manifest of release/manifest.py vouches for.
use recursive_self_improveme.Common.{String, ◌≡◌, refl, Option, List, ok}
use recursive_self_improveme.Common.Json.{Bytes, Fields}
use recursive_self_improveme.Security.{Crypto}
use recursive_self_improveme.Registry.{manifest_digest_for}
use recursive_self_improveme.Release.Manifest.{
  sign_release_manifest, manifest_body, verify_release_manifest,
}

module _ (crypto : Crypto) (digests : List String) (versions routes policies : Fields)
    (prior : Option String) (private : Bytes) where
  -- A manifest that was signed here verifies, and its digest is the address of its body.
  pub sign-verifies :
      (let m = sign_release_manifest crypto digests versions routes policies prior private in
        (verify_release_manifest crypto m ≡ ok tt)
        × (m.manifest_digest ≡ manifest_digest_for crypto (manifest_body crypto m)))
  unfolding sign_release_manifest verify_release_manifest
  sign-verifies = (rw (crypto.signed_verifies private _), refl)
