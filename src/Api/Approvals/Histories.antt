-- ===== src/Api/Approvals/Histories.antt =====
-- Sequences of calls of api/approvals.py, each of them a transaction: `session_scope` of db/base.py.
use recursive_self_improveme.Common.{
  String, ◌≡◌, inl, inr, false, some, List, [], ◌∷◌, Outcome, ok, err, Outcome-cases,
}
use recursive_self_improveme.Common.Json.{Bytes}
use recursive_self_improveme.Security.{Crypto}
use recursive_self_improveme.Tenancy.Policy.{TenantPolicyRegistry}
use recursive_self_improveme.Api.Approvals.{
  Principal, ApprovalRequest, ProposalRecord, ArtifactContent, Board, ApiError, find_request,
  request_decisions, approvals_in, any_reject,
}
use recursive_self_improveme.Api.Approvals.Requests.{RequestSpec, create_request}
use recursive_self_improveme.Api.Approvals.Decisions.{decide}
use recursive_self_improveme.Api.Approvals.Admissions.{admit}
use recursive_self_improveme.Api.Approvals.Invariant.{Sound}
use recursive_self_improveme.Api.Approvals.Kept.{create-Sound, decide-Sound, admit-Sound}
use recursive_self_improveme.Api.Approvals.Reviewed.{Reviewed, admit-Reviewed}

pub data Call : Type 0 where
  creating : Principal → RequestSpec → String → Call
  deciding : Principal → String → String → String → String → Call
  admitting : Principal → String → String → Call

-- What a transaction leaves: its writes, or the state before it.
unfoldable pub committed : Board → Outcome ApiError Board → Board
committed before (ok after) = after
committed before (err e) = before

-- The tables before any call, over a registry of proposals.
unfoldable pub empty_board : List ProposalRecord → List ArtifactContent → Board
empty_board proposals artifacts = record {
  requests = [];
  decisions = [];
  admissions = [];
  proposals = proposals;
  artifacts = artifacts;
}

module _ (crypto : Crypto) (casefold : String → String) (registry : TenantPolicyRegistry)
    (subject : String) (private : Bytes) where
  unfoldable pub run_call : Call → Board → Outcome ApiError Board
  run_call (creating principal spec id) board = create_request registry principal spec id board
  run_call (deciding principal id decision note decision_id) board =
      decide casefold principal id decision note decision_id board
  run_call (admitting principal id record_id) board =
      admit crypto casefold principal id record_id subject private board

  unfoldable pub run_calls : List Call → Board → Board
  unfolding committed run_call
  run_calls [] board = board
  run_calls (c ∷ cs) board = run_calls cs (committed board (run_call c board))

  call-Sound :
      (c : Call) (board : Board)
      → Sound casefold board
      → Sound casefold (committed board (run_call c board))
  unfolding committed run_call
  call-Sound c board s = elim (Outcome-cases (run_call c board)) [
    | inr e ↦ rw (e.1, committed) s
    | inl a ↦ rw (a.1, committed) (by_call c a.0 a.1)
  ]
    where
      by_call : (c : Call) (after : Board) → run_call c board ≡ ok after → Sound casefold after
      by_call (creating principal spec id) after h =
          create-Sound casefold registry principal spec id board after h s
      by_call (deciding principal id decision note decision_id) after h =
          decide-Sound casefold principal id decision note decision_id board after h s
      by_call (admitting principal id record_id) after h =
          admit-Sound casefold crypto principal id record_id subject private board after h s

  -- Every history of calls keeps the invariant.
  pub run_calls-Sound :
      (cs : List Call) (board : Board) → Sound casefold board → Sound casefold (run_calls cs board)
  unfolding run_calls
  run_calls-Sound [] board s = s
  run_calls-Sound (c ∷ cs) board s =
      run_calls-Sound cs (committed board (run_call c board)) (call-Sound c board s)

  pub empty-Sound :
      (proposals : List ProposalRecord) (artifacts : List ArtifactContent)
      → Sound casefold (empty_board proposals artifacts)
  unfolding empty_board find_request
  empty-Sound proposals artifacts = record { at = λ t i. tt; known = tt }

  -- After any history of calls on empty tables, whatever `admit` admits was rejected by no one and
  -- approved by two different persons other than its requester.
  pub history-Reviewed :
      (proposals : List ProposalRecord) (artifacts : List ArtifactContent) (cs : List Call)
      (principal : Principal) (request_id record_id : String) (after : Board)
      → admit crypto casefold principal request_id record_id subject private
          (run_calls cs (empty_board proposals artifacts))
        ≡ ok after
      → let board = run_calls cs (empty_board proposals artifacts) in
        (r : ApprovalRequest) × (find_request principal.tenant_id request_id board.requests
          ≡ some r)
        × (any_reject (request_decisions r.tenant_id r.request_id board.decisions) ≡ false)
        × Reviewed casefold r.requested_by
            (approvals_in (request_decisions r.tenant_id r.request_id board.decisions))
  history-Reviewed proposals artifacts cs principal request_id record_id after h =
      admit-Reviewed casefold crypto principal request_id record_id subject private
        (run_calls cs (empty_board proposals artifacts)) after
        (run_calls-Sound cs (empty_board proposals artifacts) (empty-Sound proposals artifacts)) h
