-- ===== src/Api/Approvals/Admissions.antt =====
-- Admitting approved requests: `admit` and the reads of admissions in api/approvals.py. The identifier
-- that a promotion draws is an argument.
use recursive_self_improveme.Common.{
  String, Bool, true, false, ◌&&◌, ◌||◌, not, Option, none, some, List, [], ◌∷◌, ◌++◌, map, str_eq,
  if◌then◌else◌, Outcome, ok, err, ◌>>=◌, ◌>>◌,
}
use recursive_self_improveme.Common.Json.{Bytes}
use recursive_self_improveme.Security.{evaluator, Crypto}
use recursive_self_improveme.Selection.Authority.{
  TierApprovalEvidence, TierRejected, tier_rejected, assert_phase2_admissible,
}
use recursive_self_improveme.Plugins.Privileged.{
  new_pinned_version, parse_privileged_role, AdmissionRequest, PrivilegedError, admit_privileged,
}
use recursive_self_improveme.Api.Approvals.{
  Principal, RequestKind, tier4_promotion, RequestStatus, approved, rejected, admitted,
  ApprovalRequest, ApprovalDecision, AdmissionRecord, Board, already_admitted, review_rejected,
  review_not_approved, privileged_denied, ApiError, invalid_spec, approval_denied,
  admission_not_found, tier_promotion_refused, or_raise, raise_if, require_request,
  require_proposal, request_decisions, approvals_in, set_status,
}
use recursive_self_improveme.Api.Approvals.Records.{
  text_of, is_promotion, approval_record, promotion_row, privileged_row,
}

unfoldable pub is_approved : RequestStatus → Bool
is_approved approved = true
is_approved status = false

unfoldable pub is_tier4 : RequestKind → Bool
is_tier4 tier4_promotion = true
is_tier4 kind = false

-- The refusals by the status, in their order.
unfoldable pub may_admit : RequestStatus → RequestKind → Outcome ApiError (Unit {0})
unfolding is_approved is_tier4
may_admit admitted kind = err (approval_denied already_admitted)
may_admit rejected kind = err (approval_denied review_rejected)
may_admit status kind =
    raise_if (not (is_approved status) && is_tier4 kind) (approval_denied review_not_approved)

-- `except TierRejectedError`
unfoldable pub as_refused : Outcome TierRejected (Unit {0}) → Outcome ApiError (Unit {0})
as_refused (ok _) = ok tt
as_refused (err (tier_rejected tier reason)) = err (tier_promotion_refused tier reason)

-- `except PrivilegedAdmissionDeniedError`
unfoldable pub as_review_denied : {A : Type 0} → Outcome PrivilegedError A → Outcome ApiError A
as_review_denied (ok a) = ok a
as_review_denied (err e) = err (approval_denied (privileged_denied e))

unfoldable pub evidence_of : ApprovalRequest → List ApprovalDecision → TierApprovalEvidence
evidence_of request approvals = record {
  approvers = map ApprovalDecision.approver approvals;
  requested_by = some request.requested_by;
  human_signoff = request.human_signoff;
  manually_initiated = request.manually_initiated;
}

-- The request that `_admit_privileged` hands to the gate.
unfoldable pub admission_request : ApprovalRequest → Outcome ApiError AdmissionRequest
unfolding or_raise new_pinned_version parse_privileged_role text_of
admission_request request =
    or_raise (invalid_spec "digest")
      (new_pinned_version (text_of request.plugin_id) (text_of request.content_digest))
    >>= λ pinned.
        or_raise (invalid_spec "role") (parse_privileged_role (text_of request.privileged_role))
        >>= λ role. ok (record {
          pinned = pinned;
          privileged_role = role;
          requested_by = request.requested_by;
          justification = request.justification;
        })

-- `record_id` is unique in its table.
unfoldable pub has_record_id : String → List AdmissionRecord → Bool
has_record_id id [] = false
has_record_id id (a ∷ rest) = str_eq a.record_id id || has_record_id id rest

-- The session's write; `admit` turns the `IntegrityError` into a denial.
unfoldable pub record_admission : ApprovalRequest → Board → AdmissionRecord → Outcome ApiError Board
unfolding has_record_id set_status
record_admission request board row =
    raise_if (has_record_id row.record_id board.admissions) (approval_denied already_admitted)
    >> ok (record board {
      admissions = board.admissions ++ row ∷ [];
      requests = set_status request.tenant_id request.request_id admitted board.requests;
    })

module _ (crypto : Crypto) (casefold : String → String) where
  -- The branch of a promotion.
  unfoldable pub admit_promotion :
      Board
      → ApprovalRequest
      → List ApprovalDecision
      → String
      → Bytes
      → Outcome ApiError AdmissionRecord
  unfolding require_proposal text_of assert_phase2_admissible evidence_of as_refused promotion_row
  admit_promotion board request approvals record_id private =
      require_proposal board request.tenant_id (text_of request.campaign_id)
        (text_of request.proposal_id)
      >>= λ proposal.
          as_refused
            (assert_phase2_admissible casefold request.tier (some (evidence_of request approvals)))
          >> ok (promotion_row crypto request approvals proposal.proposed_digest record_id private)

  -- `_admit_privileged`, for the evaluator of this deployment.
  unfoldable pub admit_plugin :
      ApprovalRequest → List ApprovalDecision → String → Bytes → Outcome ApiError AdmissionRecord
  unfolding admission_request as_review_denied admit_privileged approval_record privileged_row
  admit_plugin request approvals evaluator_subject private = admission_request request >>= λ r.
      as_review_denied (
        admit_privileged crypto casefold r (map approval_record approvals)
          (record { role = evaluator; subject = evaluator_subject }) private)
      >>= λ signed. ok (privileged_row request signed)

  -- The row of an admission.
  unfoldable pub admitted_row :
      Board
      → ApprovalRequest
      → List ApprovalDecision
      → String
      → String
      → Bytes
      → Outcome ApiError AdmissionRecord
  unfolding is_promotion admit_promotion admit_plugin
  admitted_row board request approvals record_id evaluator_subject private =
      if is_promotion request.kind
      then admit_promotion board request approvals record_id private
      else admit_plugin request approvals evaluator_subject private

  unfoldable pub admit :
      Principal → String → String → String → Bytes → Board → Outcome ApiError Board
  unfolding require_request may_admit request_decisions approvals_in admitted_row record_admission
  admit principal request_id record_id evaluator_subject private board =
      require_request board principal.tenant_id request_id >>= λ request.
      let decisions = request_decisions principal.tenant_id request_id board.decisions in
      may_admit request.status request.kind
      >> admitted_row board request (approvals_in decisions) record_id evaluator_subject private
      >>= λ row. record_admission request board row

unfoldable pub find_admission : String → String → List AdmissionRecord → Option AdmissionRecord
find_admission tenant id [] = none
find_admission tenant id (a ∷ rest) =
    let others = find_admission tenant id rest in
    if str_eq a.tenant_id tenant && str_eq a.record_id id then some a else others

unfoldable pub get_admission : Board → Principal → String → Outcome ApiError AdmissionRecord
unfolding or_raise find_admission
get_admission board principal record_id =
    or_raise (admission_not_found record_id)
      (find_admission principal.tenant_id record_id board.admissions)

unfoldable pub admissions_of : String → Option String → List AdmissionRecord → List AdmissionRecord
admissions_of tenant request_id [] = []
admissions_of tenant request_id (a ∷ rest) =
    let others = admissions_of tenant request_id rest in
    if str_eq a.tenant_id tenant && of_request request_id a.request_id then a ∷ others else others
  where
    of_request : Option String → String → Bool
    of_request none id = true
    of_request (some wanted) id = str_eq id wanted

unfoldable pub list_admissions : Board → Principal → Option String → List AdmissionRecord
unfolding admissions_of
list_admissions board principal request_id =
    admissions_of principal.tenant_id request_id board.admissions
