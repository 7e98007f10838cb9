-- ===== src/Api/Approvals/Examples.antt =====
-- Tests of api/approvals.py, and its theorems at concrete reviews.
use recursive_self_improveme.Common.{
  String, ◌≡◌, refl, ◌≢◌, true, false, none, some, List, [], ◌∷◌, ◌++◌, arith, str_eq_iff, ok, err,
}
use recursive_self_improveme.Security.{evaluator, role_value}
use recursive_self_improveme.Security.Fixtures.{demo_crypto}
use recursive_self_improveme.Selection.Authority.{tier_3, tier_4, wrong_count}
use recursive_self_improveme.Tenancy.Policy.{research, new_document, new_registry, environment_for}
use recursive_self_improveme.Tenancy.Policy.Documents.{new_document_iff}
use recursive_self_improveme.Plugins.Privileged.{AdmissionRequest, adapter}
use recursive_self_improveme.Api.Approvals.{
  approved, rejected, ApprovalRequest, ApprovalDecision, AdmissionRecord, Board, tier3_promotion,
  tier4_promotion, approve, parse_request_kind, approval_denied, self_approval,
  tier_promotion_refused, find_request, request_decisions, approvals_in, any_reject,
}
use recursive_self_improveme.Api.Approvals.Requests.{RequestSpec, create_request}
use recursive_self_improveme.Api.Approvals.Decisions.{is_closed, decide}
use recursive_self_improveme.Api.Approvals.Admissions.{admit}
use recursive_self_improveme.Api.Approvals.Records.{verify_admission_signature}
use recursive_self_improveme.Api.Approvals.Invariant.{Sound}
use recursive_self_improveme.Api.Approvals.Reviewed.{Reviewed}
use recursive_self_improveme.Api.Approvals.Signatures.{admit-verifies}
use recursive_self_improveme.Api.Approvals.Closing.{Stands, run_calls-Stands}
use recursive_self_improveme.Api.Approvals.Isolation.{Same, run_calls-Same}
use recursive_self_improveme.Api.Approvals.Limits.{third_approval, create-research}
use recursive_self_improveme.Api.Approvals.Histories.{
  run_calls-Sound, empty-Sound, Call, creating, deciding, admitting, committed, empty_board,
  run_calls, history-Reviewed,
}
use recursive_self_improveme.Api.Approvals.Fixtures.{
  person, lower, lab_policy, lab_registry, lab_proposals, lab_artifacts, scaffold_spec, lab,
  two_approvals, reviewed_board, after_admission,
}

-- Two persons approve a scaffold, and it is admitted.
admit_test :
    admit demo_crypto lower (person "dave") "r1" "adm-1" "ev" [] reviewed_board ≡ ok after_admission
unfolding admit run_calls decide create_request empty_board
admit_test = refl

abbrev dave_admits : Call
dave_admits = admitting (person "dave") "r1" "adm-1"

history-Reviewed_example :
    (r : ApprovalRequest) × (find_request "lab" "r1" reviewed_board.requests ≡ some r)
    × (any_reject (request_decisions r.tenant_id r.request_id reviewed_board.decisions) ≡ false)
    × Reviewed lower r.requested_by
        (approvals_in (request_decisions r.tenant_id r.request_id reviewed_board.decisions))
history-Reviewed_example =
    history-Reviewed demo_crypto lower lab_registry "ev" [] lab_proposals lab_artifacts
      two_approvals (person "dave") "r1" "adm-1" after_admission admit_test

reviewed_board-Sound : Sound lower reviewed_board
reviewed_board-Sound =
    run_calls-Sound demo_crypto lower lab_registry "ev" [] two_approvals lab
      (empty-Sound demo_crypto lower lab_registry "ev" [] lab_proposals lab_artifacts)

abbrev no_request : AdmissionRequest
no_request = record {
  pinned = record { plugin_id = "p"; digest = "d" };
  privileged_role = adapter;
  requested_by = "x";
  justification = "y";
}

admit-verifies_example :
    (row : AdmissionRecord) × (after_admission.admissions ≡ reviewed_board.admissions ++ row ∷ [])
    × (verify_admission_signature demo_crypto row (some no_request) ≡ true)
admit-verifies_example =
    admit-verifies demo_crypto lower (person "dave") "r1" "adm-1" "ev" [] reviewed_board
      after_admission no_request reviewed_board-Sound admit_test

-- A request that was rejected.
abbrev rejection : List Call
rejection =
    creating (person "Alice") scaffold_spec "r1"
    ∷ deciding (person "bob") "r1" "reject" "no" "d1"
    ∷ []

abbrev rejected_board : Board
rejected_board = run_calls demo_crypto lower lab_registry "ev" [] rejection lab

abbrev rejected_request : ApprovalRequest
rejected_request = record {
  tenant_id = "lab";
  request_id = "r1";
  kind = tier4_promotion;
  campaign_id = some "c1";
  proposal_id = some "prop-1";
  plugin_id = none;
  content_digest = none;
  privileged_role = none;
  tier = tier_4;
  justification = "why";
  requested_by = "Alice";
  human_signoff = true;
  manually_initiated = true;
  status = rejected;
}

rejected_test : find_request "lab" "r1" rejected_board.requests ≡ some rejected_request
unfolding run_calls decide create_request empty_board find_request
rejected_test = refl

abbrev more_calls : List Call
more_calls = deciding (person "carol") "r1" "approve" "" "d2" ∷ dave_admits ∷ []

run_calls-Stands_example :
    Stands "lab" "r1" rejected_request
      (request_decisions "lab" "r1" rejected_board.decisions)
      (run_calls demo_crypto lower lab_registry "ev" [] more_calls rejected_board)
unfolding is_closed
run_calls-Stands_example =
    run_calls-Stands demo_crypto lower lab_registry "ev" [] "lab" "r1" rejected_request
      (request_decisions "lab" "r1" rejected_board.decisions) more_calls rejected_board refl
      (record { row = rejected_test; decisions = refl })

-- The approver may not be the requester, in any spelling.
self_approval_test :
    decide lower (person "alice") "r1" "approve" "" "d1" (
      run_calls demo_crypto lower lab_registry "ev" []
        (creating (person "Alice") scaffold_spec "r1" ∷ [])
        lab)
    ≡ err (approval_denied self_approval)
unfolding run_calls decide create_request empty_board
self_approval_test = refl

abbrev other_lab : Call
other_lab =
    deciding
      (record { identity = record { role = evaluator; subject = "mallory" }; tenant_id = "other" })
      "r1" "reject" "" "d9"

different_tenants : ◌≢◌ {A = String} "other" "lab"
different_tenants e = ground (arith, str_eq_iff "other" "lab")

run_calls-Same_example :
    Same "lab" reviewed_board
      (run_calls demo_crypto lower lab_registry "ev" [] (other_lab ∷ []) reviewed_board)
run_calls-Same_example =
    run_calls-Same demo_crypto lower lab_registry "ev" [] "lab" (other_lab ∷ []) reviewed_board
      (different_tenants, tt)

abbrev tool_spec : RequestSpec
tool_spec = record scaffold_spec {
  kind = "tier3_promotion";
  proposal_id = some "prop-2";
  human_signoff = false;
  manually_initiated = false;
}

abbrev three_approvals : List Call
three_approvals =
    creating (person "Alice") tool_spec "r2"
    ∷ deciding (person "bob") "r2" "approve" "" "d1"
    ∷ deciding (person "carol") "r2" "approve" "" "d2"
    ∷ deciding (person "erin") "r2" "approve" "" "d3"
    ∷ []

abbrev crowded_row : ApprovalRequest
crowded_row = record {
  tenant_id = "lab";
  request_id = "r2";
  kind = tier3_promotion;
  campaign_id = some "c1";
  proposal_id = some "prop-2";
  plugin_id = none;
  content_digest = none;
  privileged_role = none;
  tier = tier_3;
  justification = "why";
  requested_by = "Alice";
  human_signoff = false;
  manually_initiated = false;
  status = approved;
}

abbrev approval : String → String → ApprovalDecision
approval id approver = record {
  tenant_id = "lab";
  decision_id = id;
  request_id = "r2";
  decision = approve;
  approver = approver;
  approver_role = "evaluator";
  note = "";
}

abbrev crowded_board : Board
crowded_board = run_calls demo_crypto lower lab_registry "ev" [] three_approvals lab

-- A third approval of a tier-3 request is recorded, and the request cannot be admitted.
crowded_test :
    admit demo_crypto lower (person "dave") "r2" "adm-1" "ev" [] crowded_board
    ≡ err (tier_promotion_refused tier_3 (wrong_count 3))
unfolding admit run_calls decide create_request empty_board
crowded_test = refl

crowded_request : find_request "lab" "r2" crowded_board.requests ≡ some crowded_row
unfolding run_calls decide create_request empty_board find_request
crowded_request = refl

crowded_approvals :
    approvals_in (request_decisions "lab" "r2" crowded_board.decisions)
    ≡ approval "d1" "bob" ∷ approval "d2" "carol" ∷ approval "d3" "erin" ∷ []
unfolding run_calls decide create_request empty_board request_decisions approvals_in role_value
crowded_approvals = refl

third_approval_example : ¬ (
    admit demo_crypto lower (person "dave") "r2" "adm-1" "ev" [] crowded_board ≡ ok crowded_board)
third_approval_example =
    third_approval demo_crypto lower (person "dave") "r2" "adm-1" "ev" [] crowded_board
      crowded_board crowded_row (approval "d1" "bob") (approval "d2" "carol") (approval "d3" "erin")
      [] crowded_request refl crowded_approvals

lab_policy_test : new_document lab_policy ≡ ok lab_policy
unfolding new_document
lab_policy_test = refl

lab_registry_test : new_registry (lab_policy ∷ []) ≡ ok lab_registry
unfolding new_registry
lab_registry_test = refl

opened_test :
    create_request lab_registry (person "Alice") scaffold_spec "r1" lab
    ≡ ok (committed lab (create_request lab_registry (person "Alice") scaffold_spec "r1" lab))
unfolding create_request empty_board committed
opened_test = refl

parse_test : parse_request_kind "tier4_promotion" ≡ some tier4_promotion
unfolding parse_request_kind
parse_test = refl

create-research_example : environment_for lab_registry "lab" ≡ research
create-research_example =
    create-research (lab_policy ∷ []) lab_registry (person "Alice") scaffold_spec "r1" lab
      (committed lab (create_request lab_registry (person "Alice") scaffold_spec "r1" lab))
      lab_registry_test (((new_document_iff lab_policy lab_policy).0 lab_policy_test).1, tt)
      parse_test opened_test
