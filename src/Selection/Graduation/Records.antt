-- ===== src/Selection/Graduation/Records.antt =====
-- The graduation check and its signed record: `evaluate_graduation`, `record_graduation_decision` and
-- `verify_graduation_decision` of selection/graduation.py.
use recursive_self_improveme.Common.{
  ℕ, String, Bool, true, false, not, Option, none, some, List, [], ◌∷◌, str_eq, ltb, if◌then◌else◌,
}
use recursive_self_improveme.Security.{Crypto}
use recursive_self_improveme.Selection.Authority.{AuthorityTier, tier_value, max_tier}
use recursive_self_improveme.Selection.Graduation.{
  IsolationTier, tier_rank, SignedRiskDossier, dossier_tier, dossier_verifies,
}

pub record GraduationBinding : Type 0 where
  pub class_id : String
  pub risk_dossier_digest : String
  pub max_tier_allowed : IsolationTier

pub data GraduationRefusal : Type 0 where
  no_dossier unverified_dossier dossier_digest_mismatch class_id_mismatch : GraduationRefusal
  tier_exceeds_binding not_compensable risk_not_comparable : GraduationRefusal

unfoldable pub refusal_value : GraduationRefusal → String
refusal_value no_dossier = "no_dossier"
refusal_value unverified_dossier = "unverified_dossier"
refusal_value dossier_digest_mismatch = "dossier_digest_mismatch"
refusal_value class_id_mismatch = "class_id_mismatch"
refusal_value tier_exceeds_binding = "tier_exceeds_binding"
refusal_value not_compensable = "not_compensable"
refusal_value risk_not_comparable = "risk_not_comparable"

-- What the text of a decision's detail shows.
pub data Detail : Type 0 where
  nothing_presented no_compensation nothing_to_compare : Detail
  candidate_unverified production_unverified : String → Detail
  another_class : String → String → String → Detail
  another_digest : Option String → String → Detail
  demands_more : IsolationTier → IsolationTier → Detail
  above_production : ℕ → ℕ → Detail
  comparable : ℕ → ℕ → String → Detail

pub record GraduationDecision : Type 0 where
  pub class_id : String
  pub granted : Bool
  pub refusal_reason : Option GraduationRefusal
  pub detail : String
  pub dossier_digest : Option String
  pub candidate_resolved_tier : ℕ
  pub production_resolved_tier : Option ℕ

-- The first dossier that does not verify.
unfoldable pub first_unverified : Crypto → List SignedRiskDossier → Option SignedRiskDossier
unfolding dossier_verifies
first_unverified crypto [] = none
first_unverified crypto (p ∷ ps) =
    let rest = first_unverified crypto ps in
    if not (dossier_verifies crypto p) then some p else rest

-- `max(...)` over the dossiers' tiers.
unfoldable pub highest_tier : AuthorityTier → List SignedRiskDossier → AuthorityTier
unfolding max_tier dossier_tier
highest_tier tier [] = tier
highest_tier tier (p ∷ ps) = highest_tier (max_tier tier (dossier_tier p.dossier)) ps

module _ (crypto : Crypto) (describe : Detail → String) where
  -- `_refused`
  unfoldable pub refused :
      String → GraduationRefusal → Detail → Option String → ℕ → Option ℕ → GraduationDecision
  refused class_id reason detail digest candidate production = record {
    class_id = class_id;
    granted = false;
    refusal_reason = some reason;
    detail = describe detail;
    dossier_digest = digest;
    candidate_resolved_tier = candidate;
    production_resolved_tier = production;
  }

  -- The comparison with the production dossiers, all of which verify.
  unfoldable pub compare_tiers :
      String → SignedRiskDossier → List SignedRiskDossier → GraduationDecision
  unfolding refused highest_tier dossier_tier tier_value
  compare_tiers class_id s [] =
      refused class_id risk_not_comparable nothing_to_compare (some s.digest)
        (tier_value (dossier_tier s.dossier)) none
  compare_tiers class_id s (p ∷ ps) =
      let candidate = tier_value (dossier_tier s.dossier) in
      let production = tier_value (highest_tier (dossier_tier p.dossier) ps) in
      if ltb production candidate
      then refused class_id risk_not_comparable (above_production candidate production)
          (some s.digest) candidate (some production)
      else record {
        class_id = class_id;
        granted = true;
        refusal_reason = none;
        detail = describe (comparable candidate production s.digest);
        dossier_digest = some s.digest;
        candidate_resolved_tier = candidate;
        production_resolved_tier = some production;
      }

  unfoldable pub judge_production :
      String → SignedRiskDossier → List SignedRiskDossier → GraduationDecision
  unfolding first_unverified compare_tiers refused
  judge_production class_id s production = elim (first_unverified crypto production) [
    | some p ↦
        refused class_id unverified_dossier (production_unverified p.dossier.dossier_id)
          (some s.digest) (tier_value (dossier_tier s.dossier)) none
    | none ↦ compare_tiers class_id s production
  ]

  unfoldable pub judge_binding :
      String
      → SignedRiskDossier
      → Option GraduationBinding
      → List SignedRiskDossier
      → GraduationDecision
  unfolding judge_production refused tier_rank
  judge_binding class_id s none production =
      refused class_id dossier_digest_mismatch (another_digest none s.digest) (some s.digest) 0 none
  judge_binding class_id s (some b) production =
      if not (str_eq s.digest b.risk_dossier_digest)
      then refused class_id dossier_digest_mismatch
          (another_digest (some b.risk_dossier_digest) s.digest) (some s.digest) 0 none
      else if ltb (tier_rank b.max_tier_allowed) (tier_rank s.dossier.isolation_tier_demanded)
      then refused class_id tier_exceeds_binding
          (demands_more s.dossier.isolation_tier_demanded b.max_tier_allowed) (some s.digest) 0 none
      else if not s.dossier.compensable
      then refused class_id not_compensable no_compensation (some s.digest) 0 none
      else judge_production class_id s production

  unfoldable pub evaluate_graduation :
      String
      → Option SignedRiskDossier
      → Option GraduationBinding
      → List SignedRiskDossier
      → GraduationDecision
  unfolding refused dossier_verifies judge_binding
  evaluate_graduation class_id none binding production =
      refused class_id no_dossier nothing_presented none 0 none
  evaluate_graduation class_id (some s) binding production =
      if not (dossier_verifies crypto s)
      then refused class_id unverified_dossier (candidate_unverified s.dossier.dossier_id)
          (some s.digest) 0 none
      else if not (str_eq s.dossier.class_id class_id)
      then refused class_id class_id_mismatch
          (another_class s.dossier.dossier_id s.dossier.class_id class_id) (some s.digest) 0 none
      else judge_binding class_id s binding production
