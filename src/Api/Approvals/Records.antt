-- ===== src/Api/Approvals/Records.antt =====
-- The rows that an admission of api/approvals.py writes, the canonical body of a promotion and the
-- check of a stored signature.
use Prim.Native.String.{compare}
use Prim.Native.Nat.{Ordering}
use recursive_self_improveme.Common.{
  String, Bool, true, false, Option, none, some, List, [], ◌∷◌, map, if◌then◌else◌,
}
use recursive_self_improveme.Common.Json.{
  Bytes, Items, num, str, arr, obj, nil, cons, end, field, dumps, null_or,
}
use recursive_self_improveme.Security.{Crypto, sign, verify}
use recursive_self_improveme.Selection.Authority.{AuthorityTier, tier_value}
use recursive_self_improveme.Plugins.Privileged.{
  ApprovalRecord, AdmissionRequest, SignedAdmissionRecord, unsigned_bytes,
}
use recursive_self_improveme.Api.Approvals.{
  RequestKind, privileged_admission, kind_value, ApprovalRequest, ApprovalDecision, AdmissionRecord,
}

unfoldable pub insert_text : String → List String → List String
insert_text s [] = s ∷ []
insert_text s (t ∷ ts) =
    let rest = insert_text s ts in elim (compare s t) [ Ordering.gt ↦ t ∷ rest | _ ↦ s ∷ t ∷ ts ]

-- `sorted(approvers)`
unfoldable pub sorted_texts : List String → List String
unfolding insert_text
sorted_texts [] = []
sorted_texts (s ∷ ss) = insert_text s (sorted_texts ss)

text_items : List String → Items
text_items [] = nil
text_items (s ∷ ss) = cons (str s) (text_items ss)

unfoldable pub promotion_body :
    String → String → AuthorityTier → String → List String → RequestKind → Bytes
unfolding sorted_texts text_items kind_value tier_value dumps
promotion_body request_id proposal_digest tier requested_by approvers kind = dumps (
    obj (
      field "approvers" (arr (text_items (sorted_texts approvers))) (
        field "kind" (str (kind_value kind)) (
          field "proposal_digest" (str proposal_digest) (
            field "request_id" (str request_id) (
              field "requested_by" (str requested_by)
                (field "tier" (num (tier_value tier)) end)))))))

unfoldable pub approval_record : ApprovalDecision → ApprovalRecord
approval_record d = record { approver = d.approver; approver_role = d.approver_role; note = d.note }

-- `str(value)` of a column that may be null.
unfoldable pub text_of : Option String → String
text_of none = "None"
text_of (some s) = s

-- `kind in PROMOTION_REQUEST_KINDS`
unfoldable pub is_promotion : RequestKind → Bool
is_promotion privileged_admission = false
is_promotion kind = true

-- The row of a privileged admission.
unfoldable pub privileged_row : ApprovalRequest → SignedAdmissionRecord → AdmissionRecord
privileged_row request signed = record {
  tenant_id = request.tenant_id;
  record_id = signed.record_id;
  request_id = request.request_id;
  kind = request.kind;
  decision = "admitted";
  plugin_id = request.plugin_id;
  content_digest = request.content_digest;
  privileged_role = request.privileged_role;
  proposal_digest = none;
  tier = request.tier;
  requested_by = request.requested_by;
  request_digest = some signed.request_digest;
  approvals = signed.approvals;
  signature = signed.signature;
  signer_public_key = signed.signer_public_key;
}

module _ (crypto : Crypto) where
  -- The row of a promotion, signed.
  unfoldable pub promotion_row :
      ApprovalRequest → List ApprovalDecision → String → String → Bytes → AdmissionRecord
  unfolding promotion_body sign approval_record
  promotion_row request approvals proposal_digest record_id private =
      let approvers = map ApprovalDecision.approver approvals in
      let body =
        promotion_body request.request_id proposal_digest request.tier request.requested_by
          approvers request.kind in
      let detached = sign crypto private body in
      record {
        tenant_id = request.tenant_id;
        record_id = record_id;
        request_id = request.request_id;
        kind = request.kind;
        decision = "admitted";
        plugin_id = request.plugin_id;
        content_digest = request.content_digest;
        privileged_role = request.privileged_role;
        proposal_digest = some proposal_digest;
        tier = request.tier;
        requested_by = request.requested_by;
        request_digest = none;
        approvals = map approval_record approvals;
        signature = detached.signature;
        signer_public_key = detached.public_key;
      }

  -- The signature of the row over these bytes.
  unfoldable pub row_verifies : AdmissionRecord → Bytes → Bool
  unfolding verify
  row_verifies row body =
      verify crypto (record { signature = row.signature; public_key = row.signer_public_key }) body

  -- `verify_admission_signature`; the request is the one that a privileged admission stands for.
  unfoldable pub verify_admission_signature : AdmissionRecord → Option AdmissionRequest → Bool
  unfolding is_promotion row_verifies promotion_body text_of unsigned_bytes
  verify_admission_signature row request =
      if is_promotion row.kind
      then row_verifies row (
          promotion_body row.request_id (text_of row.proposal_digest) row.tier row.requested_by
            (map ApprovalRecord.approver row.approvals) row.kind)
      else elim request [
        | none ↦ false
        | some r ↦ row_verifies row (
            unsigned_bytes row.record_id (null_or row.request_digest) row.decision
              (null_or row.plugin_id) (null_or row.content_digest) (null_or row.privileged_role)
              row.approvals)
      ]
