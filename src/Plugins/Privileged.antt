-- ===== src/Plugins/Privileged.antt =====
-- The admission of privileged plugins: plugins/privileged.py.
-- `casefold` stands for `str.casefold`. A signature is held as bytes: the Base64 of it is only
-- decoded again.
pub mod TwoPersons
mod Examples
use Prim.Native.String.{◌++◌ as str_append}
use recursive_self_improveme.Common.{
  ℕ, zero, suc, ◌+◌, ◌-◌, ◌*◌, ◌/◌, ◌%◌, ◌≤◌, ◌<◌, min, max, String, ◌≡◌, refl, sym, ap, ◌∙◌, subst,
  ◌≢◌, ◌↔◌, ◌⊎◌, inl, inr, Bool, true, false, ◌&&◌, ◌||◌, not, Option, none, some, List, [], ◌∷◌,
  ◌++◌, map, arith, str_eq, str_eq_iff, ltb, leb, ◌==◌, if◌then◌else◌, ltb→lt, lt→ltb, leb→le,
  ==_iff, Bool-cases, Option-cases, opt_eq, opt_eq→eq, opt_eq_refl, length, length-append, is_empty,
  replicate, All, All-append, Any, Outcome, ok, err, ◌>>=◌, ◌>>◌, Outcome-cases,
}
use recursive_self_improveme.Common.Json.{
  Bytes, Json, Items, Fields, str, arr, obj, nil, cons, end, field, codes, dumps, dumps_utf8,
}
use recursive_self_improveme.Security.{
  WorkloadIdentity, PermissionDenied, require_evaluator_key_access, DetachedSignature, Crypto, sign,
  verify,
}

pub data PrivilegedRole : Type 0 where
  adapter evaluator : PrivilegedRole

unfoldable pub privileged_role_value : PrivilegedRole → String
privileged_role_value adapter = "adapter"
privileged_role_value evaluator = "evaluator"

-- `PrivilegedRole(value)`; `none` stands for the `ValueError`.
unfoldable pub parse_privileged_role : String → Option PrivilegedRole
parse_privileged_role value =
    if str_eq value "adapter"
    then some adapter
    else if str_eq value "evaluator"
    then some evaluator
    else none

pub data DenialReason : Type 0 where
  insufficient_approvals duplicate_approver self_approval : DenialReason
  unpinned_version requester_not_authorized : DenialReason

unfoldable pub denial_value : DenialReason → String
denial_value insufficient_approvals = "insufficient_approvals"
denial_value duplicate_approver = "duplicate_approver"
denial_value self_approval = "self_approval"
denial_value unpinned_version = "unpinned_version"
denial_value requester_not_authorized = "requester_not_authorized"

pub data PrivilegedError : Type 0 where
  not_evaluator : PermissionDenied → PrivilegedError
  admission_denied : DenialReason → PrivilegedError

-- The exception of the role check passes through.
unfoldable pub as_denied : {A : Type 0} → Outcome PermissionDenied A → Outcome PrivilegedError A
as_denied (ok a) = ok a
as_denied (err e) = err (not_evaluator e)

pub record PinnedVersion : Type 0 where
  pub plugin_id : String
  pub digest : String

unfoldable pub is_hex : ℕ → Bool
is_hex c = leb 48 c && leb c 57 || leb 97 c && leb c 102

-- `[0-9a-f]{n}$`, where `$` also matches before a last line feed.
unfoldable pub matches_hex : ℕ → List ℕ → Bool
unfolding is_hex
matches_hex zero [] = true
matches_hex zero (c ∷ []) = c == 10
matches_hex zero (c ∷ d ∷ cs) = false
matches_hex (suc n) [] = false
matches_hex (suc n) (c ∷ cs) = is_hex c && matches_hex n cs

-- `_DIGEST_RE.match`, on the code points.
unfoldable pub matches_digest : List ℕ → List ℕ → Bool
unfolding matches_hex
matches_digest [] cs = matches_hex 64 cs
matches_digest (p ∷ ps) [] = false
matches_digest (p ∷ ps) (c ∷ cs) = p == c && matches_digest ps cs

-- The validation of `PinnedVersion`; `none` stands for the validation error.
unfoldable pub new_pinned_version : String → String → Option PinnedVersion
unfolding matches_digest codes
new_pinned_version plugin_id digest =
    if not (str_eq plugin_id "") && matches_digest (codes "sha256:") (codes digest)
    then some (record { plugin_id = plugin_id; digest = digest })
    else none

pub record ApprovalRecord : Type 0 where
  pub approver : String
  pub approver_role : String
  pub note : String

pub record AdmissionRequest : Type 0 where
  pub pinned : PinnedVersion
  pub privileged_role : PrivilegedRole
  pub requested_by : String
  pub justification : String

pub record SignedAdmissionRecord : Type 0 where
  pub record_id : String
  pub request_digest : String
  pub decision : String
  pub admitted_version : PinnedVersion
  pub privileged_role : PrivilegedRole
  pub approvals : List ApprovalRecord
  pub signature : Bytes
  pub signer_public_key : Bytes

-- `request.model_dump_json()`, whose fields stand in the order of their declaration.
unfoldable pub request_json : AdmissionRequest → Bytes
unfolding dumps_utf8 privileged_role_value
request_json r = dumps_utf8 (
    obj (
      field "pinned"
        (obj
          (field "plugin_id" (str r.pinned.plugin_id) (field "digest" (str r.pinned.digest) end)))
        (field "privileged_role" (str (privileged_role_value r.privileged_role)) (
          field "requested_by" (str r.requested_by)
            (field "justification" (str r.justification) end)))))

-- `text[:n]`
unfoldable pub take_text : ℕ → String → String
take_text zero s = ""
take_text (suc n) String.[] = ""
take_text (suc n) (String.◌∷◌ c s) = String.◌∷◌ c (take_text n s)

unfoldable pub approval_items : List ApprovalRecord → Items
approval_items [] = nil
approval_items (a ∷ rest) =
    cons
      (obj (
        field "approver" (str a.approver)
          (field "approver_role" (str a.approver_role) (field "note" (str a.note) end))))
      (approval_items rest)

-- The canonical bytes of a record of these parts.
unfoldable pub unsigned_bytes :
    String → Json → String → Json → Json → Json → List ApprovalRecord → Bytes
unfolding dumps approval_items
unsigned_bytes record_id digest decision plugin_id pin role approvals = dumps (
    obj (
      field "admitted_version" (obj (field "digest" pin (field "plugin_id" plugin_id end))) (
        field "approvals" (arr (approval_items approvals)) (
          field "decision" (str decision) (
            field "privileged_role" role
              (field "record_id" (str record_id) (field "request_digest" digest end)))))))

unfoldable pub signed_bytes : SignedAdmissionRecord → Bytes
unfolding unsigned_bytes privileged_role_value
signed_bytes r =
    unsigned_bytes r.record_id (str r.request_digest) r.decision (str r.admitted_version.plugin_id)
      (str r.admitted_version.digest) (str (privileged_role_value r.privileged_role)) r.approvals

module _ (casefold : String → String) where
  unfoldable pub check_approvals :
      AdmissionRequest → List ApprovalRecord → Outcome PrivilegedError (Unit {0})
  check_approvals r [] = err (admission_denied insufficient_approvals)
  check_approvals r (a ∷ []) = err (admission_denied insufficient_approvals)
  check_approvals r (a ∷ b ∷ []) =
      if str_eq (casefold a.approver) (casefold b.approver)
      then err (admission_denied duplicate_approver)
      else if str_eq (casefold a.approver) (casefold r.requested_by)
          || str_eq (casefold b.approver) (casefold r.requested_by)
      then err (admission_denied self_approval)
      else ok tt
  check_approvals r (a ∷ b ∷ c ∷ rest) = err (admission_denied insufficient_approvals)

module _ (crypto : Crypto) where
  unfoldable pub request_digest : AdmissionRequest → String
  unfolding request_json
  request_digest r = str_append "sha256:" (crypto.sha256_hex (request_json r))

  unfoldable pub record_id_for : AdmissionRequest → String
  unfolding request_digest take_text
  record_id_for r = str_append "adm-" (take_text 23 (request_digest r))

  unfoldable pub unsigned_record : AdmissionRequest → List ApprovalRecord → SignedAdmissionRecord
  unfolding record_id_for request_digest
  unsigned_record r approvals = record {
    record_id = record_id_for r;
    request_digest = request_digest r;
    decision = "admitted";
    admitted_version = r.pinned;
    privileged_role = r.privileged_role;
    approvals = approvals;
    signature = [];
    signer_public_key = [];
  }

  unfoldable pub sign_record : SignedAdmissionRecord → Bytes → SignedAdmissionRecord
  unfolding sign signed_bytes
  sign_record unsigned private =
      let signature = sign crypto private (signed_bytes unsigned) in
      record unsigned { signature = signature.signature; signer_public_key = signature.public_key }

  unfoldable pub verify_admission_record : SignedAdmissionRecord → Bool
  unfolding verify signed_bytes
  verify_admission_record r =
      verify crypto (record { signature = r.signature; public_key = r.signer_public_key })
        (signed_bytes r)

  module _ (casefold : String → String) where
    unfoldable pub admit_privileged :
        AdmissionRequest
        → List ApprovalRecord
        → WorkloadIdentity
        → Bytes
        → Outcome PrivilegedError SignedAdmissionRecord
    unfolding as_denied check_approvals require_evaluator_key_access unsigned_record sign_record
    admit_privileged r approvals signer private =
        as_denied (require_evaluator_key_access signer)
        >> check_approvals casefold r approvals
        >> ok (sign_record (unsigned_record r approvals) private)
