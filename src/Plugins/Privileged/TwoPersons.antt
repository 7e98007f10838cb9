-- ===== src/Plugins/Privileged/TwoPersons.antt =====
-- What an admission of plugins/privileged.py vouches for.
use Prim.Native.String.{◌++◌ as str_append}
use recursive_self_improveme.Common.{
  String, ◌≡◌, refl, sym, ap, ◌∙◌, subst, ◌≢◌, ◌↔◌, true, false, some, List, [], ◌∷◌, map, arith,
  str_eq, str_eq_iff, Outcome, ok, err, ◌>>◌, ok_eq,
}
use recursive_self_improveme.Common.Json.{Bytes}
use recursive_self_improveme.Security.{
  WorkloadIdentity, Crypto, sign, PermissionDenied, require_evaluator_key_access,
}
use recursive_self_improveme.Plugins.Privileged.{
  PrivilegedError, as_denied, ApprovalRecord, AdmissionRequest, SignedAdmissionRecord, request_json,
  take_text, record_id_for, request_digest, unsigned_record, sign_record, verify_admission_record,
  signed_bytes, check_approvals, admit_privileged,
}
use recursive_self_improveme.Selection.Authority.Admission.{TwoPersons, requested}

module _ (casefold : String → String) where
  private_ne : (a b : String) → str_eq (casefold a) (casefold b) ≡ false → casefold a ≢ casefold b
  private_ne a b h = ground (arith, str_eq_iff (casefold a) (casefold b))

  distinct : (a b : String) → casefold a ≢ casefold b → str_eq (casefold a) (casefold b) ≡ false
  distinct a b h = ground (arith, str_eq_iff (casefold a) (casefold b))

  check-TwoPersons :
      (r : AdmissionRequest) (approvals : List ApprovalRecord)
      → check_approvals casefold r approvals ≡ ok tt
      → TwoPersons casefold (some r.requested_by) (map ApprovalRecord.approver approvals)
  unfolding check_approvals
  check-TwoPersons r [] h = ground arith
  check-TwoPersons r (a ∷ []) h = ground arith
  check-TwoPersons r (a ∷ b ∷ []) h =
      requested (private_ne a.approver b.approver (ground arith))
        (private_ne a.approver r.requested_by (ground arith))
        (private_ne b.approver r.requested_by (ground arith))
  check-TwoPersons r (a ∷ b ∷ c ∷ rest) h = ground arith

  persons-check :
      (r : AdmissionRequest) (approvals : List ApprovalRecord)
      → TwoPersons casefold (some r.requested_by) (map ApprovalRecord.approver approvals)
      → check_approvals casefold r approvals ≡ ok tt
  unfolding check_approvals
  persons-check r [] p = elim p [ ]
  persons-check r (a ∷ []) p = elim p [ ]
  persons-check r (a ∷ b ∷ c ∷ rest) p = elim p [ ]
  persons-check r (a ∷ b ∷ []) (requested d f g) =
      rw
        (
          distinct a.approver b.approver d,
          distinct a.approver r.requested_by f,
          distinct b.approver r.requested_by g,
        )
        refl

  in_turn_iff :
      {A : Type 0} (key : Outcome PermissionDenied (Unit {0}))
      (check : Outcome PrivilegedError (Unit {0})) (v x : A)
      → (as_denied key >> check >> ok v ≡ ok x) ↔ ((key ≡ ok tt) × (check ≡ ok tt) × (x ≡ v))
  unfolding as_denied
  in_turn_iff (err e) check v x = ground arith
  in_turn_iff (ok u) (err e) v x = ground arith
  in_turn_iff (ok u) (ok w) v x = ((λ h. (refl, refl, sym (ok_eq h))), λ h. ap ok (sym h.2))

  pub verify-sign_record :
      (crypto : Crypto) (u : SignedAdmissionRecord) (private : Bytes)
      → verify_admission_record crypto (sign_record crypto u private) ≡ true
  unfolding verify_admission_record sign_record signed_bytes
  verify-sign_record crypto u private = crypto.signed_verifies private _

  -- The record is of that request and of those approvals, and it is signed as a whole.
  abbrev pub Certifies :
      Crypto → AdmissionRequest → List ApprovalRecord → Bytes → SignedAdmissionRecord → Type 0
  Certifies crypto r approvals private admitted =
      (admitted.record_id
        ≡ str_append "adm-"
            (take_text 23 (str_append "sha256:" (crypto.sha256_hex (request_json r)))))
      × (admitted.request_digest ≡ str_append "sha256:" (crypto.sha256_hex (request_json r)))
      × (admitted.decision ≡ "admitted")
      × (admitted.admitted_version ≡ r.pinned)
      × (admitted.privileged_role ≡ r.privileged_role)
      × (admitted.approvals ≡ approvals)
      × (admitted.signature ≡ crypto.sign_raw private (signed_bytes admitted))
      × (admitted.signer_public_key ≡ crypto.public_of private)

  signed-Certifies :
      (crypto : Crypto) (r : AdmissionRequest) (approvals : List ApprovalRecord) (private : Bytes)
      → Certifies crypto r approvals private
          (sign_record crypto (unsigned_record crypto r approvals) private)
  unfolding sign_record unsigned_record record_id_for request_digest sign signed_bytes
  signed-Certifies crypto r approvals private = (refl, refl, refl, refl, refl, refl, refl, refl)

  Certifies-signed :
      (crypto : Crypto) (r : AdmissionRequest) (approvals : List ApprovalRecord) (private : Bytes)
      (admitted : SignedAdmissionRecord)
      → Certifies crypto r approvals private admitted
      → admitted ≡ sign_record crypto (unsigned_record crypto r approvals) private
  unfolding sign_record unsigned_record record_id_for request_digest sign signed_bytes
  Certifies-signed crypto r approvals private admitted
        (id, digest, decision, version, role, people, signature, key) =
      let parts =
        ◌≡◌ (record admitted { signature = []; signer_public_key = [] })
          (unsigned_record crypto r approvals) in
      let unsigned : parts = λ i. record {
        record_id = id i;
        request_digest = digest i;
        decision = decision i;
        admitted_version = version i;
        privileged_role = role i;
        approvals = people i;
        signature = [];
        signer_public_key = [];
      } in
      let signed = signature ∙ ap (λ u. crypto.sign_raw private (signed_bytes u)) unsigned in
      λ i. record (unsigned i) { signature = signed i; signer_public_key = key i }

  pub admitted_record_iff :
      (crypto : Crypto) (r : AdmissionRequest) (approvals : List ApprovalRecord)
      (signer : WorkloadIdentity) (private : Bytes) (admitted : SignedAdmissionRecord)
      → (admit_privileged crypto casefold r approvals signer private ≡ ok admitted) ↔ (
          (require_evaluator_key_access signer ≡ ok tt)
          × TwoPersons casefold (some r.requested_by) (map ApprovalRecord.approver approvals)
          × (admitted ≡ sign_record crypto (unsigned_record crypto r approvals) private))
  unfolding admit_privileged
  admitted_record_iff crypto r approvals signer private admitted =
      let i =
        in_turn_iff (require_evaluator_key_access signer) (check_approvals casefold r approvals)
          (sign_record crypto (unsigned_record crypto r approvals) private) admitted in
      (
        (λ h. let t = i.0 h in (t.0, check-TwoPersons r approvals t.1, t.2)),
        λ h. i.1 (h.0, persons-check r approvals h.1, h.2),
      )

  -- A privileged plugin is admitted exactly if the signer is the evaluator and two distinct persons
  -- other than the requester approved. The record that is returned then is the one with the digest of
  -- the request's JSON text, an identifier that begins that digest, the decision "admitted", the
  -- request's pinned version and role, the approvals, the signer's public key, and the signature of the
  -- whole.
  pub admit_privileged_iff :
      (crypto : Crypto) (r : AdmissionRequest) (approvals : List ApprovalRecord)
      (signer : WorkloadIdentity) (private : Bytes) (admitted : SignedAdmissionRecord)
      → (admit_privileged crypto casefold r approvals signer private ≡ ok admitted) ↔ (
          (require_evaluator_key_access signer ≡ ok tt)
          × TwoPersons casefold (some r.requested_by) (map ApprovalRecord.approver approvals)
          × Certifies crypto r approvals private admitted)
  admit_privileged_iff crypto r approvals signer private admitted =
      let i = admitted_record_iff crypto r approvals signer private admitted in
      (
        (λ h.
            let t = i.0 h in
            (
              t.0,
              t.1,
              subst (Certifies crypto r approvals private) (sym t.2)
                  (signed-Certifies crypto r approvals private),
            )),
        λ h. i.1 (h.0, h.1, Certifies-signed crypto r approvals private admitted h.2),
      )
