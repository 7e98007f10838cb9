-- ===== src/Api/Approvals/Decisions.antt =====
-- Deciding review-board requests: `decide` and `get_decision` of api/approvals.py.
use recursive_self_improveme.Common.{
  String, Bool, true, false, ◌&&◌, ◌||◌, Option, none, some, List, [], ◌∷◌, ◌++◌, str_eq, leb,
  if◌then◌else◌, length, Outcome, ok, err, ◌>>=◌, ◌>>◌,
}
use recursive_self_improveme.Security.{role_value}
use recursive_self_improveme.Selection.Authority.{same_person}
use recursive_self_improveme.Api.Approvals.{
  Principal, identity_id, RequestStatus, pending, approved, rejected, admitted, DecisionKind,
  parse_decision, is_approve, ApprovalRequest, ApprovalDecision, Board, review_closed,
  self_approval, duplicate_approver, ApiError, invalid_spec, approval_denied, decision_not_found,
  integrity_error, or_raise, raise_if, require_request, is_request_of, request_decisions,
  approvals_in, any_reject, set_status,
}

unfoldable pub is_closed : RequestStatus → Bool
is_closed pending = false
is_closed approved = false
is_closed rejected = true
is_closed admitted = true

unfoldable pub find_decision :
    String → String → String → List ApprovalDecision → Option ApprovalDecision
unfolding is_request_of
find_decision tenant id approver [] = none
find_decision tenant id approver (d ∷ ds) =
    let rest = find_decision tenant id approver ds in
    if is_request_of tenant id d && str_eq d.approver approver then some d else rest

-- `decision_id` is unique in its table.
unfoldable pub has_decision_id : String → List ApprovalDecision → Bool
has_decision_id id [] = false
has_decision_id id (d ∷ ds) = str_eq d.decision_id id || has_decision_id id ds

unfoldable pub has_text : List String → String → Bool
has_text [] s = false
has_text (t ∷ ts) s = str_eq t s || has_text ts s

-- The set with this element.
unfoldable pub insert_person : String → List String → List String
unfolding has_text
insert_person s people = if has_text people s then people else s ∷ people

unfoldable pub new_decision : Principal → String → DecisionKind → String → String → ApprovalDecision
unfolding identity_id role_value
new_decision principal request_id decision note decision_id = record {
  tenant_id = principal.tenant_id;
  decision_id = decision_id;
  request_id = request_id;
  decision = decision;
  approver = identity_id principal;
  approver_role = role_value principal.identity.role;
  note = note;
}

module _ (casefold : String → String) where
  -- `{row.approver.casefold() for row in rows}`, from the set that is built so far.
  unfoldable pub people_from : List String → List ApprovalDecision → List String
  unfolding insert_person
  people_from people [] = people
  people_from people (d ∷ ds) = people_from (insert_person (casefold d.approver) people) ds

  -- The status that the decisions project, from the status before.
  unfoldable pub projected : List ApprovalDecision → RequestStatus → RequestStatus
  unfolding any_reject approvals_in people_from
  projected decisions status =
      if any_reject decisions
      then rejected
      else if leb 2 (length (people_from [] (approvals_in decisions)))
      then approved
      else status

  -- The session's write: the new row, and `_project_request_status`.
  unfoldable pub record_decision : ApprovalRequest → ApprovalDecision → Board → Board
  unfolding projected request_decisions set_status
  record_decision request row board =
      let rows = board.decisions ++ row ∷ [] in
      let status =
        projected (request_decisions request.tenant_id request.request_id rows) request.status in
      record board {
        decisions = rows;
        requests = set_status request.tenant_id request.request_id status board.requests;
      }

  -- The refusals, in their order.
  unfoldable pub may_decide :
      Principal → ApprovalRequest → DecisionKind → Board → Outcome ApiError (Unit {0})
  unfolding is_closed same_person find_decision identity_id is_approve
  may_decide principal request decision board =
      raise_if (is_closed request.status) (approval_denied review_closed)
      >> raise_if
          (is_approve decision && same_person casefold (identity_id principal) request.requested_by)
          (approval_denied self_approval)
      >> elim (find_decision principal.tenant_id request.request_id (identity_id principal)
          board.decisions) [
            | some existing ↦ err (approval_denied duplicate_approver)
            | none ↦ ok tt
          ]

  unfoldable pub decide :
      Principal → String → String → String → String → Board → Outcome ApiError Board
  unfolding or_raise parse_decision require_request may_decide has_decision_id record_decision
      new_decision
  decide principal request_id decision note decision_id board =
      or_raise (invalid_spec "decision") (parse_decision decision) >>= λ kind.
      require_request board principal.tenant_id request_id >>= λ request.
      may_decide principal request kind board
      >> raise_if (has_decision_id decision_id board.decisions) (integrity_error decision_id)
      >> ok
          (record_decision request (new_decision principal request_id kind note decision_id) board)

unfoldable pub get_decision :
    Board → Principal → String → String → Outcome ApiError ApprovalDecision
unfolding require_request or_raise find_decision
get_decision board principal request_id approver =
    require_request board principal.tenant_id request_id >>= λ request.
    or_raise (decision_not_found approver)
      (find_decision principal.tenant_id request_id approver board.decisions)
