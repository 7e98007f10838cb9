-- ===== src/Security.antt =====
-- Workload identities, the role checks and detached signatures: security/identities.py,
-- security/policy.py and security/signing.py.
pub mod Fixtures
use recursive_self_improveme.Common.{
  ◌≡◌, Bool, true, false, ◌||◌, String, str_eq, List, [], ◌∷◌, Outcome, ok, err, if◌then◌else◌,
}
use recursive_self_improveme.Common.Json.{Bytes}

pub data WorkloadRole : Type 0 where
  evaluator candidate_runner release_controller : WorkloadRole

unfoldable pub role_value : WorkloadRole → String
role_value evaluator = "evaluator"
role_value candidate_runner = "candidate-runner"
role_value release_controller = "release-controller"

pub record WorkloadIdentity : Type 0 where
  pub role : WorkloadRole
  pub subject : String

-- `PermissionDeniedError(identity, action)`
pub data PermissionDenied : Type 0 where
  permission_denied : WorkloadIdentity → String → PermissionDenied

unfoldable pub contains_role : List WorkloadRole → WorkloadRole → Bool
unfolding role_value
contains_role [] r = false
contains_role (s ∷ ss) r = str_eq (role_value s) (role_value r) || contains_role ss r

-- `_require_role`
unfoldable pub require_role :
    WorkloadIdentity → List WorkloadRole → String → Outcome PermissionDenied (Unit {0})
unfolding contains_role
require_role identity allowed action =
    if contains_role allowed identity.role then ok tt else err (permission_denied identity action)

unfoldable pub require_holdout_access : WorkloadIdentity → Outcome PermissionDenied (Unit {0})
unfolding require_role
require_holdout_access identity = require_role identity (evaluator ∷ []) "resolve holdout handles"

unfoldable pub require_evaluator_key_access : WorkloadIdentity → Outcome PermissionDenied (Unit {0})
unfolding require_role
require_evaluator_key_access identity =
    require_role identity (evaluator ∷ []) "read evaluator signing keys"

unfoldable pub require_release_swap_authority :
    WorkloadIdentity → Outcome PermissionDenied (Unit {0})
unfolding require_role
require_release_swap_authority identity =
    require_role identity (release_controller ∷ []) "compare-and-swap the active release pointer"

pub record DetachedSignature : Type 0 where
  pub signature : Bytes
  pub public_key : Bytes

-- The cryptography that the program calls: SHA-256 in hexadecimal, and Ed25519 over raw bytes.
-- `verify_raw key signature payload` is false where the library raises. A signature made with a
-- private key verifies under its public key.
pub record Crypto : Type 0 where
  pub sha256_hex : Bytes → String
  pub sign_raw : Bytes → Bytes → Bytes
  pub public_of : Bytes → Bytes
  pub verify_raw : Bytes → Bytes → Bytes → Bool
  pub signed_verifies :
      (private payload : Bytes)
      → verify_raw (public_of private) (sign_raw private payload) payload ≡ true

module _ (crypto : Crypto) where
  unfoldable pub sign : Bytes → Bytes → DetachedSignature
  sign private payload = record {
    signature = crypto.sign_raw private payload;
    public_key = crypto.public_of private;
  }

  unfoldable pub verify : DetachedSignature → Bytes → Bool
  verify detached payload = crypto.verify_raw detached.public_key detached.signature payload

  -- What `sign` makes, `verify` accepts.
  pub verify-sign : (private payload : Bytes) → verify (sign private payload) payload ≡ true
  unfolding sign verify
  verify-sign private payload = crypto.signed_verifies private payload
