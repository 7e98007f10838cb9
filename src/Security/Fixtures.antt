-- ===== src/Security/Fixtures.antt =====
-- A concrete cryptography, identities and payloads for the tests of the other packages.
use recursive_self_improveme.Common.{
  ◌≡◌, refl, Bool, true, false, ◌&&◌, [], ◌∷◌, ◌++◌, ◌==◌, ==_iff,
}
use recursive_self_improveme.Common.Json.{Bytes}
use recursive_self_improveme.Security.{WorkloadIdentity, evaluator, release_controller, Crypto}

abbrev pub bytes_eq : Bytes → Bytes → Bool
bytes_eq [] [] = true
bytes_eq [] (y ∷ ys) = false
bytes_eq (x ∷ xs) [] = false
bytes_eq (x ∷ xs) (y ∷ ys) = x == y && bytes_eq xs ys

pub bytes_eq_refl : (xs : Bytes) → bytes_eq xs xs ≡ true
bytes_eq_refl [] = refl
bytes_eq_refl (x ∷ xs) = rw ((==_iff x x).1 refl, bytes_eq_refl xs) refl

-- A signature is the key followed by the payload.
abbrev pub demo_crypto : Crypto
demo_crypto = record {
  sha256_hex = λ payload. "cafe";
  sign_raw = λ private payload. private ++ payload;
  public_of = λ private. private;
  verify_raw = λ public signature payload. bytes_eq signature (public ++ payload);
  signed_verifies = λ private payload. bytes_eq_refl (private ++ payload);
}

abbrev pub controller_identity : WorkloadIdentity
controller_identity = record { role = release_controller; subject = "release-1" }

abbrev pub evaluator_identity : WorkloadIdentity
evaluator_identity = record { role = evaluator; subject = "evaluator-1" }
