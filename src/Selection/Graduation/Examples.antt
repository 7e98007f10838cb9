-- ===== src/Selection/Graduation/Examples.antt =====
-- Graduation at concrete dossiers.
use recursive_self_improveme.Common.{
  String, ◌≡◌, refl, ◌↔◌, true, false, some, List, [], ◌∷◌, ◌++◌, All, err,
}
use recursive_self_improveme.Security.Fixtures.{demo_crypto}
use recursive_self_improveme.Selection.Authority.{tier_2, tier_3}
use recursive_self_improveme.Selection.Graduation.{
  IsolationTier, brokered, executable, suggestion, runtime, RiskDossier, untrimmed,
  too_little_isolation, incoherent, new_dossier, dossier_tier, SignedRiskDossier, sign_risk_dossier,
  verify_risk_dossier,
}
use recursive_self_improveme.Selection.Graduation.Records.{
  GraduationBinding, risk_not_comparable, Detail, GraduationDecision, evaluate_graduation,
}
use recursive_self_improveme.Selection.Graduation.Comparable.{Grantable, evaluate_graduation_iff}
use recursive_self_improveme.Selection.Graduation.Ledger.{
  GraduationDecisionRow, record_graduation_decision, verify_graduation_decision,
  record_graduation_decision_lem,
}

abbrev skill : RiskDossier
skill = record {
  dossier_id = "d1";
  class_id = "skills";
  artifact_class = "skill_package";
  isolation_tier_demanded = brokered;
  blast_radius = suggestion;
  reversible = true;
  compensable = true;
  dossier_version = 1;
}

abbrev script : RiskDossier
script = record skill {
  dossier_id = "d2";
  class_id = "scripts";
  artifact_class = "skill_script";
  isolation_tier_demanded = executable;
  blast_radius = runtime;
}

abbrev bind_to : String → IsolationTier → GraduationBinding
bind_to digest tier = record {
  class_id = "skills";
  risk_dossier_digest = digest;
  max_tier_allowed = tier;
}

abbrev silent : Detail → String
silent d = ""

abbrev signed : RiskDossier → SignedRiskDossier
unfolding sign_risk_dossier
signed d = sign_risk_dossier demo_crypto d (1 ∷ [])

untrimmed_test : new_dossier (record skill { class_id = "skills " }) ≡ err (untrimmed "class_id")
unfolding new_dossier
untrimmed_test = refl

isolation_test :
    new_dossier (record skill { blast_radius = runtime })
    ≡ err (too_little_isolation runtime brokered)
unfolding new_dossier
isolation_test = refl

incoherent_test : new_dossier (record script { compensable = false }) ≡ err incoherent
unfolding new_dossier
incoherent_test = refl

tier_test : (dossier_tier skill ≡ tier_2) × (dossier_tier script ≡ tier_3)
unfolding dossier_tier
tier_test = (refl, refl)

tampered_test :
    verify_risk_dossier demo_crypto (record (signed skill) { dossier = script })
    ≡ err (signed skill).digest
unfolding verify_risk_dossier signed
tampered_test = refl

-- A script is a greater risk than the skill in production.
above_test :
    (evaluate_graduation demo_crypto silent "scripts"
      (some (signed script))
      (some (bind_to (signed script).digest executable))
      (signed skill ∷ [])).refusal_reason
    ≡ some risk_not_comparable
unfolding evaluate_graduation signed
above_test = refl

abbrev granted : GraduationDecision
unfolding evaluate_graduation
granted =
    evaluate_graduation demo_crypto silent "skills" (some (signed skill))
      (some (bind_to (signed skill).digest executable)) (signed script ∷ [])

granted_test : granted.granted ≡ true
unfolding granted signed
granted_test = refl

evaluate_graduation_iff_example :
    ((evaluate_graduation demo_crypto silent "skills"
        (some (signed skill))
        (some (bind_to (signed skill).digest executable))
        (signed script ∷ [])).granted
      ≡ true)
    ↔ Grantable demo_crypto "skills"
        (some (signed skill))
        (some (bind_to (signed skill).digest executable))
        (signed script ∷ [])
evaluate_graduation_iff_example =
    evaluate_graduation_iff demo_crypto silent "skills" (some (signed skill))
      (some (bind_to (signed skill).digest executable)) (signed script ∷ [])

abbrev after : GraduationDecisionRow × List GraduationDecisionRow
unfolding record_graduation_decision
after = record_graduation_decision demo_crypto "g1" 5 (1 ∷ []) "t" granted []

record_graduation_decision_lem_at_test :
    All (λ r. verify_graduation_decision demo_crypto r ≡ true) after.1
    × (after.1 ≡ [] ++ after.0 ∷ [])
unfolding after record_graduation_decision
record_graduation_decision_lem_at_test =
    record_graduation_decision_lem demo_crypto "g1" 5 (1 ∷ []) "t" granted [] tt
