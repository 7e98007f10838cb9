-- ===== src/Selection/Graduation/Ledger.antt =====
-- The ledger of graduation decisions: `record_graduation_decision` and `verify_graduation_decision` of
-- selection/graduation.py over the rows of db/models/graduation.py. The drawn identifier and the time
-- that the database stamps are arguments.
use recursive_self_improveme.Common.{
  ℕ, String, ◌≡◌, refl, Bool, true, false, ◌||◌, not, Option, none, some, List, [], ◌∷◌, ◌++◌,
  str_eq, if◌then◌else◌, All, All-append,
}
use recursive_self_improveme.Common.Json.{
  Bytes, Json, Fields, boolean, num, str, arr, null, obj, end, field, dumps_utf8, null_or,
}
use recursive_self_improveme.Security.{Crypto, sign, verify, verify-sign}
use recursive_self_improveme.Selection.Graduation.Records.{refusal_value, GraduationDecision}

pub record GraduationDecisionRow : Type 0 where
  pub id : String
  pub tenant_id : String
  pub class_id : String
  pub dossier_digest : Option String
  pub granted : Bool
  pub refusal_reason : Option String
  pub detail : Json
  pub candidate_resolved_tier : ℕ
  pub production_resolved_tier : Option ℕ
  pub signature : Bytes
  pub signer_public_key : Bytes
  pub decided_at : ℕ

unfoldable pub reason_of : GraduationDecision → Option String
unfolding refusal_value
reason_of decision = elim decision.refusal_reason [ none ↦ none | some r ↦ some (refusal_value r) ]

unfoldable pub number_or_null : Option ℕ → Json
number_or_null none = null
number_or_null (some n) = num n

-- `_decision_payload`, its keys in sorted order.
unfoldable pub decision_payload : GraduationDecision → String → Json
unfolding reason_of number_or_null
decision_payload decision tenant_id = obj (
    field "candidate_resolved_tier" (num decision.candidate_resolved_tier) (
      field "class_id" (str decision.class_id) (
        field "detail" (str decision.detail) (
          field "dossier_digest" (null_or decision.dossier_digest) (
            field "granted" (boolean decision.granted) (
              field "production_resolved_tier" (number_or_null decision.production_resolved_tier) (
                field "refusal_reason" (null_or (reason_of decision)) (
                  field "schema_id" (str "evoruntime.decision.graduation/v1")
                    (field "tenant_id" (str tenant_id) end)))))))))

unfoldable pub decision_canonical_bytes : Json → Bytes
unfolding dumps_utf8
decision_canonical_bytes payload = dumps_utf8 payload

unfoldable pub has_key : String → Fields → Bool
has_key key end = false
has_key key (field k v rest) = str_eq k key || has_key key rest

unfoldable pub names_tenant : Json → Bool
unfolding has_key
names_tenant (obj fields) = has_key "tenant_id" fields
names_tenant null = false
names_tenant (boolean b) = false
names_tenant (num n) = false
names_tenant (str s) = false
names_tenant (arr items) = false

module _ (crypto : Crypto) where
  -- The row that `record_graduation_decision` adds to the session.
  unfoldable pub record_graduation_decision :
      String
      → ℕ
      → Bytes
      → String
      → GraduationDecision
      → List GraduationDecisionRow
      → GraduationDecisionRow × List GraduationDecisionRow
  unfolding decision_payload decision_canonical_bytes sign reason_of
  record_graduation_decision id now private tenant_id decision rows =
      let payload = decision_payload decision tenant_id in
      let detached = sign crypto private (decision_canonical_bytes payload) in
      let row : GraduationDecisionRow = record {
        id = id;
        tenant_id = tenant_id;
        class_id = decision.class_id;
        dossier_digest = decision.dossier_digest;
        granted = decision.granted;
        refusal_reason = reason_of decision;
        detail = payload;
        candidate_resolved_tier = decision.candidate_resolved_tier;
        production_resolved_tier = decision.production_resolved_tier;
        signature = detached.signature;
        signer_public_key = detached.public_key;
        decided_at = now;
      } in
      (row, rows ++ row ∷ [])

  unfoldable pub verify_graduation_decision : GraduationDecisionRow → Bool
  unfolding names_tenant decision_canonical_bytes verify
  verify_graduation_decision row =
      if not (names_tenant row.detail)
      then false
      else verify crypto (record { signature = row.signature; public_key = row.signer_public_key })
          (decision_canonical_bytes row.detail)

  -- Recording a decision, a grant or a refusal, keeps the property that every row of the ledger verifies,
  -- and the row that it adds is the last one.
  pub record_graduation_decision_lem :
      (id : String) (now : ℕ) (private : Bytes) (tenant_id : String) (decision : GraduationDecision)
      (rows : List GraduationDecisionRow)
      → All (λ r. verify_graduation_decision r ≡ true) rows
      → (let after = record_graduation_decision id now private tenant_id decision rows in
          All (λ r. verify_graduation_decision r ≡ true) after.1 × (after.1 ≡ rows ++ after.0 ∷ []))
  unfolding record_graduation_decision verify_graduation_decision
  record_graduation_decision_lem id now private tenant_id decision rows h =
      let p = decision_canonical_bytes (decision_payload decision tenant_id) in
      let after = record_graduation_decision id now private tenant_id decision rows in
      (
        All-append (λ r. verify_graduation_decision r ≡ true) rows (after.0 ∷ []) h
            (verify-sign crypto private p, tt),
        refl,
      )
