-- ===== src/Api/Approvals/Fixtures.antt =====
-- The tenant, the proposals and the reviews of the tests of api/approvals.py.
use recursive_self_improveme.Common.{
  String, true, false, none, some, List, [], ◌∷◌, str_eq, if◌then◌else◌,
}
use recursive_self_improveme.Security.{evaluator}
use recursive_self_improveme.Security.Fixtures.{demo_crypto}
use recursive_self_improveme.Tenancy.Policy.{TenantPolicyDocument, TenantPolicyRegistry, research}
use recursive_self_improveme.Api.Approvals.{Principal, ProposalRecord, ArtifactContent, Board}
use recursive_self_improveme.Api.Approvals.Requests.{RequestSpec}
use recursive_self_improveme.Api.Approvals.Admissions.{admit}
use recursive_self_improveme.Api.Approvals.Histories.{
  Call, creating, deciding, committed, empty_board, run_calls,
}

abbrev pub person : String → Principal
person subject = record {
  identity = record { role = evaluator; subject = subject };
  tenant_id = "lab";
}

abbrev pub lower : String → String
lower s = if str_eq s "Alice" then "alice" else s

abbrev pub lab_policy : TenantPolicyDocument
lab_policy = record {
  tenant_id = "lab";
  policy_id = "p1";
  environment = research;
  policy_version = 1;
  allowed_authority_tiers = 1 ∷ 2 ∷ 3 ∷ 4 ∷ [];
  recursive_claims_enabled = true;
  auto_promotion_max_tier = 2;
  require_review_for_all_tiers = false;
}

abbrev pub lab_registry : TenantPolicyRegistry
lab_registry = record { by_tenant = lab_policy ∷ [] }

abbrev pub lab_proposals : List ProposalRecord
lab_proposals =
    record {
      tenant_id = "lab";
      proposal_id = "prop-1";
      proposed_digest = "d1";
      campaign_id = some "c1";
    }
    ∷ record {
      tenant_id = "lab";
      proposal_id = "prop-2";
      proposed_digest = "d2";
      campaign_id = some "c1";
    }
    ∷ []

abbrev pub lab_artifacts : List ArtifactContent
lab_artifacts =
    record { tenant_id = "lab"; digest = "d1"; artifact_type = "scaffold" }
    ∷ record { tenant_id = "lab"; digest = "d2"; artifact_type = "tool_spec" }
    ∷ []

abbrev pub scaffold_spec : RequestSpec
scaffold_spec = record {
  kind = "tier4_promotion";
  justification = "why";
  campaign_id = some "c1";
  proposal_id = some "prop-1";
  plugin_id = none;
  content_digest = none;
  privileged_role = none;
  human_signoff = true;
  manually_initiated = true;
}

abbrev pub lab : Board
lab = empty_board lab_proposals lab_artifacts

abbrev pub two_approvals : List Call
two_approvals =
    creating (person "Alice") scaffold_spec "r1"
    ∷ deciding (person "bob") "r1" "approve" "" "d1"
    ∷ deciding (person "carol") "r1" "approve" "" "d2"
    ∷ []

abbrev pub reviewed_board : Board
reviewed_board = run_calls demo_crypto lower lab_registry "ev" [] two_approvals lab

abbrev pub after_admission : Board
after_admission =
    committed reviewed_board
      (admit demo_crypto lower (person "dave") "r1" "adm-1" "ev" [] reviewed_board)
