-- ===== src/Selection/Authority.antt =====
-- The authority tiers and the tier gate: selection/authority.py.
-- `casefold` stands for `str.casefold`; the code asks only whether two results are equal.
pub mod Classes
pub mod Admission
mod Examples
use recursive_self_improveme.Common.{
  ℕ, zero, suc, ◌+◌, ◌-◌, ◌*◌, ◌/◌, ◌%◌, ◌≤◌, ◌<◌, min, max, String, ◌≡◌, refl, sym, ap, ◌∙◌, subst,
  ◌≢◌, ◌↔◌, ◌⊎◌, inl, inr, Bool, true, false, ◌&&◌, ◌||◌, not, Option, none, some, List, [], ◌∷◌,
  ◌++◌, map, arith, str_eq, str_eq_iff, ltb, leb, ◌==◌, if◌then◌else◌, ltb→lt, lt→ltb, leb→le,
  ==_iff, Bool-cases, Option-cases, opt_eq, opt_eq→eq, opt_eq_refl, length, length-append,
  replicate, All, All-append, Outcome, ok, err, Outcome-cases,
}

pub data PluginArtifactType : Type 0 where
  memory_entry prompt_bundle demonstration_set compiled_prompt_program : PluginArtifactType
  skill_package workflow_graph tool_spec skill_script algorithm : PluginArtifactType
  harness_patch scaffold : PluginArtifactType

pub data AuthorityTier : Type 0 where
  tier_1 tier_2 tier_3 tier_4 : AuthorityTier

unfoldable pub tier_value : AuthorityTier → ℕ
tier_value tier_1 = 1
tier_value tier_2 = 2
tier_value tier_3 = 3
tier_value tier_4 = 4

abbrev pub approval_free_max_tier : AuthorityTier
approval_free_max_tier = tier_2

pub record ResolvedRelease : Type 0 where
  pub artifact_classes : List String
  pub contains_executable_content : Bool
  pub touches_harness : Bool
  pub memory_write_mode : String
  pub reversible : Bool
  pub runtime_surface : String

-- `ResolvedRelease(artifact_classes=classes)`, with the defaults of the other fields.
unfoldable pub of_classes : List String → ResolvedRelease
of_classes classes = record {
  artifact_classes = classes;
  contains_executable_content = false;
  touches_harness = false;
  memory_write_mode = "suggestion";
  reversible = true;
  runtime_surface = "read_only";
}

-- The `ValueError` of an unknown mode or surface.
pub data ReleaseShapeError : Type 0 where
  bad_memory_write_mode bad_runtime_surface : String → ReleaseShapeError

-- `ResolvedRelease.__post_init__`
unfoldable pub check_shape : ResolvedRelease → Outcome ReleaseShapeError (Unit {0})
check_shape r =
    if not (str_eq r.memory_write_mode "suggestion" || str_eq r.memory_write_mode "direct")
    then err (bad_memory_write_mode r.memory_write_mode)
    else if not (
        str_eq r.runtime_surface "read_only"
        || str_eq r.runtime_surface "config"
        || str_eq r.runtime_surface "runtime")
    then err (bad_runtime_surface r.runtime_surface)
    else ok tt

-- The member of the enumeration with this value.
unfoldable pub artifact_type_of : String → Option PluginArtifactType
artifact_type_of cls =
    if str_eq cls "prompt_bundle"
    then some prompt_bundle
    else if str_eq cls "demonstration_set"
    then some demonstration_set
    else if str_eq cls "memory_entry"
    then some memory_entry
    else if str_eq cls "compiled_prompt_program"
    then some compiled_prompt_program
    else if str_eq cls "skill_package"
    then some skill_package
    else if str_eq cls "workflow_graph"
    then some workflow_graph
    else if str_eq cls "tool_spec"
    then some tool_spec
    else if str_eq cls "skill_script"
    then some skill_script
    else if str_eq cls "algorithm"
    then some algorithm
    else if str_eq cls "harness_patch"
    then some harness_patch
    else if str_eq cls "scaffold"
    then some scaffold
    else none

-- The table `tier_by_class`.
unfoldable pub tier_by_type : PluginArtifactType → AuthorityTier
tier_by_type prompt_bundle = tier_1
tier_by_type demonstration_set = tier_1
tier_by_type memory_entry = tier_2
tier_by_type compiled_prompt_program = tier_2
tier_by_type skill_package = tier_2
tier_by_type workflow_graph = tier_3
tier_by_type tool_spec = tier_3
tier_by_type skill_script = tier_3
tier_by_type algorithm = tier_3
tier_by_type harness_patch = tier_4
tier_by_type scaffold = tier_4

-- `tier_by_class.get(cls, AuthorityTier.TIER_3)`
unfoldable pub tier_by_class : String → AuthorityTier
unfolding artifact_type_of tier_by_type
tier_by_class cls = elim (artifact_type_of cls) [ none ↦ tier_3 | some t ↦ tier_by_type t ]

unfoldable pub max_tier : AuthorityTier → AuthorityTier → AuthorityTier
unfolding tier_value
max_tier s t = if leb (tier_value t) (tier_value s) then s else t

-- `max(tiers)` of the tiers of a non-empty list of classes.
unfoldable pub max_of : AuthorityTier → List String → AuthorityTier
unfolding tier_by_class max_tier
max_of tier [] = tier
max_of tier (cls ∷ rest) = max_of (max_tier tier (tier_by_class cls)) rest

unfoldable pub class_tiers : List String → AuthorityTier
unfolding max_of
class_tiers [] = tier_3
class_tiers (cls ∷ rest) = max_of (tier_by_class cls) rest

unfoldable pub resolve_authority_tier : ResolvedRelease → AuthorityTier
unfolding class_tiers
resolve_authority_tier r =
    if r.touches_harness
    then tier_4
    else if r.contains_executable_content
        || str_eq r.memory_write_mode "direct"
        || not r.reversible
        || str_eq r.runtime_surface "runtime"
    then tier_3
    else class_tiers r.artifact_classes

pub record TierApprovalEvidence : Type 0 where
  pub approvers : List String
  pub requested_by : Option String
  pub human_signoff : Bool
  pub manually_initiated : Bool

-- `TierApprovalEvidence()`
abbrev pub no_evidence : TierApprovalEvidence
no_evidence = record {
  approvers = [];
  requested_by = none;
  human_signoff = false;
  manually_initiated = false;
}

-- `TierRejectedError(tier, reason)`
pub data TierRejection : Type 0 where
  wrong_count : ℕ → TierRejection
  same_approver : String → TierRejection
  self_approval : Option String → TierRejection
  missing_legs : List String → TierRejection

pub data TierRejected : Type 0 where
  tier_rejected : AuthorityTier → TierRejection → TierRejected

unfoldable pub missing_evidence : TierApprovalEvidence → List String
missing_evidence approval =
    (if approval.human_signoff then [] else "explicit human sign-off" ∷ [])
    ++ (if approval.manually_initiated then [] else "manual initiation" ∷ [])

unfoldable pub require_legs : AuthorityTier → List String → Outcome TierRejected (Unit {0})
require_legs tier [] = ok tt
require_legs tier (leg ∷ legs) = err (tier_rejected tier (missing_legs (leg ∷ legs)))

module _ (casefold : String → String) where
  unfoldable pub same_person : String → String → Bool
  same_person a b = str_eq (casefold a) (casefold b)

  -- `requested_by is not None and any(a.casefold() == requested_by.casefold() for a in approvers)`
  unfoldable pub names_requester : Option String → List String → Bool
  unfolding same_person
  names_requester none approvers = false
  names_requester (some r) [] = false
  names_requester (some r) (a ∷ rest) = same_person a r || names_requester (some r) rest

  unfoldable pub require_two_person_approval :
      TierApprovalEvidence → AuthorityTier → Outcome TierRejected (Unit {0})
  unfolding same_person names_requester
  require_two_person_approval approval tier = elim approval.approvers [
    | [] ↦ err (tier_rejected tier (wrong_count 0))
    | first ∷ [] ↦ err (tier_rejected tier (wrong_count 1))
    | first ∷ second ∷ [] ↦
        if same_person first second
        then err (tier_rejected tier (same_approver first))
        else if names_requester approval.requested_by (first ∷ second ∷ [])
        then err (tier_rejected tier (self_approval approval.requested_by))
        else ok tt
    | first ∷ second ∷ third ∷ rest ↦ err (tier_rejected tier (wrong_count (3 + length rest)))
  ]

  unfoldable pub judge_evidence :
      AuthorityTier → TierApprovalEvidence → Outcome TierRejected (Unit {0})
  unfolding require_two_person_approval missing_evidence require_legs
  judge_evidence tier_3 approval = require_two_person_approval approval tier_3
  judge_evidence tier approval = require_legs tier (missing_evidence approval)

  unfoldable pub assert_phase2_admissible :
      AuthorityTier → Option TierApprovalEvidence → Outcome TierRejected (Unit {0})
  unfolding judge_evidence tier_value
  assert_phase2_admissible tier evidence =
      if leb (tier_value tier) (tier_value approval_free_max_tier)
      then ok tt
      else judge_evidence tier (evidence_or evidence)
    where
      -- `evidence or TierApprovalEvidence()`
      evidence_or : Option TierApprovalEvidence → TierApprovalEvidence
      evidence_or none = no_evidence
      evidence_or (some approval) = approval
