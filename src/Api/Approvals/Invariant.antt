-- ===== src/Api/Approvals/Invariant.antt =====
-- The invariant of the review board's tables, and that the calls of api/approvals.py keep it.
use recursive_self_improveme.Common.{
  String, ◌≡◌, refl, subst, ◌≢◌, inl, inr, true, false, ◌&&◌, Option, none, some, List, [], ◌∷◌,
  ◌++◌, arith, Bool-cases, All, ok, err_ne,
}
use recursive_self_improveme.Selection.Authority.{same_person}
use recursive_self_improveme.Selection.Authority.Admission.{not_same_person}
use recursive_self_improveme.Api.Approvals.{
  RequestKind, RequestStatus, pending, approved, rejected, admitted, is_approve, ApprovalRequest,
  ApprovalDecision, Board, find_request, is_request_of, request_decisions, approvals_in, any_reject,
}
use recursive_self_improveme.Api.Approvals.Requests.{has_request_id}
use recursive_self_improveme.Api.Approvals.Decisions.{people_from, is_closed, projected}
use recursive_self_improveme.Api.Approvals.Admissions.{may_admit}
use recursive_self_improveme.Api.Approvals.Lookup.{decisions-append}
use recursive_self_improveme.Api.Approvals.Opening.{Opened, Targeted}
use recursive_self_improveme.Api.Approvals.Status.{Settled, projected-Settled}

module _ (casefold : String → String) where
  -- No approval in the list is by the requester.
  abbrev pub ByOthers : String → List ApprovalDecision → Type 0
  ByOthers requester ds = All (λ d. casefold d.approver ≢ casefold requester) ds

  -- A request among the decisions: its status is settled by those on it, no approval is by its
  -- requester, and its legs and its target suit its kind.
  pub record SoundRequest (ds : List ApprovalDecision) (r : ApprovalRequest) : Type 0 where
    pub settled : Settled casefold (request_decisions r.tenant_id r.request_id ds) r.status
    pub by_others :
        ByOthers r.requested_by (approvals_in (request_decisions r.tenant_id r.request_id ds))
    pub opened : Opened r.kind r.tier r.human_signoff r.manually_initiated
    pub targeted : Targeted r.kind r.plugin_id r.content_digest r.privileged_role

  abbrev pub SoundAt : List ApprovalDecision → Option ApprovalRequest → Type 0
  SoundAt ds none = Unit
  SoundAt ds (some r) = SoundRequest ds r

  -- Every request that a lookup finds is sound, and every decision is on a request.
  pub record Sound (board : Board) : Type 0 where
    pub at : (tenant id : String) → SoundAt board.decisions (find_request tenant id board.requests)
    pub known : All (λ d. has_request_id d.request_id board.requests ≡ true) board.decisions

  pub lookup-SoundRequest :
      (board : Board) (tenant id : String) (r : ApprovalRequest)
      → Sound board
      → find_request tenant id board.requests ≡ some r
      → SoundRequest board.decisions r
  lookup-SoundRequest board tenant id r s f = subst (SoundAt board.decisions) f (s.at tenant id)

  approvals-ByOthers :
      (requester : String) (ds : List ApprovalDecision) (d : ApprovalDecision)
      → (is_approve d.decision && same_person casefold d.approver requester) ≡ false
      → ByOthers requester (approvals_in ds)
      → ByOthers requester (approvals_in (ds ++ d ∷ []))
  unfolding approvals_in
  approvals-ByOthers requester [] d n h = elim (Bool-cases (is_approve d.decision)) [
    | inl e ↦ rw e (not_same_person casefold d.approver requester (rw e at n), tt)
    | inr e ↦ rw e tt
  ]
  approvals-ByOthers requester (x ∷ xs) d n h = elim (Bool-cases (is_approve x.decision)) [
    | inl e ↦ let k = rw e at h in rw e (k.0, approvals-ByOthers requester xs d n k.1)
    | inr e ↦ rw e (approvals-ByOthers requester xs d n (rw e at h))
  ]

  -- Another decision on the request.
  pub decided_request :
      (ds : List ApprovalDecision) (r : ApprovalRequest) (d : ApprovalDecision)
      → is_request_of r.tenant_id r.request_id d ≡ true
      → is_closed r.status ≡ false
      → (is_approve d.decision && same_person casefold d.approver r.requested_by) ≡ false
      → SoundRequest ds r
      → SoundRequest (ds ++ d ∷ []) (record r {
        status =
            projected casefold (request_decisions r.tenant_id r.request_id (ds ++ d ∷ [])) r.status;
      })
  decided_request ds r d m o n s =
      let e = rw m at (decisions-append r.tenant_id r.request_id ds d) in
      record {
        settled = rw e (
            projected-Settled casefold (request_decisions r.tenant_id r.request_id ds) d r.status o
              s.settled);
        by_others = rw e (
            approvals-ByOthers r.requested_by (request_decisions r.tenant_id r.request_id ds) d n
              s.by_others);
        opened = s.opened;
        targeted = s.targeted;
      }

  -- A decision on another request.
  pub undecided_request :
      (ds : List ApprovalDecision) (r : ApprovalRequest) (d : ApprovalDecision)
      → is_request_of r.tenant_id r.request_id d ≡ false
      → SoundRequest ds r
      → SoundRequest (ds ++ d ∷ []) r
  undecided_request ds r d m s =
      let e = rw m at (decisions-append r.tenant_id r.request_id ds d) in
      record {
        settled = rw e (s.settled);
        by_others = rw e (s.by_others);
        opened = s.opened;
        targeted = s.targeted;
      }

  pub unrejected :
      (ds : List ApprovalDecision) (status : RequestStatus) (kind : RequestKind)
      → may_admit status kind ≡ ok tt
      → Settled casefold ds status
      → any_reject ds ≡ false
  unfolding may_admit
  unrejected ds pending kind m h = h.0
  unrejected ds approved kind m h = h.0
  unrejected ds rejected kind m h = elim (err_ne m) [ ]
  unrejected ds admitted kind m h = h

  -- A request that may be admitted has no rejection.
  pub admitted_request :
      (ds : List ApprovalDecision) (r : ApprovalRequest)
      → may_admit r.status r.kind ≡ ok tt
      → SoundRequest ds r
      → SoundRequest ds (record r { status = admitted })
  admitted_request ds r m s = record {
    settled =
        unrejected (request_decisions r.tenant_id r.request_id ds) r.status r.kind m s.settled;
    by_others = s.by_others;
    opened = s.opened;
    targeted = s.targeted;
  }

  -- A new request has no decisions.
  pub new-SoundRequest :
      (ds : List ApprovalDecision) (r : ApprovalRequest)
      → request_decisions r.tenant_id r.request_id ds ≡ []
      → r.status ≡ pending
      → Opened r.kind r.tier r.human_signoff r.manually_initiated
      → Targeted r.kind r.plugin_id r.content_digest r.privileged_role
      → SoundRequest ds r
  unfolding people_from approvals_in any_reject
  new-SoundRequest ds r e p o t = record {
    settled = rw (e, p) (refl, omega arith);
    by_others = rw e tt;
    opened = o;
    targeted = t;
  }
