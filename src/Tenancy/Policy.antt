-- ===== src/Tenancy/Policy.antt =====
-- The tenant policy document and its registry: tenancy/policy.py, with the environments of
-- tenancy/environment.py. Versions and tiers are natural numbers: the refusal of a negative one is
-- not reached.
pub mod Documents
pub mod Environments
mod Examples
use Prim.Native.String.{◌++◌ as str_append}
use recursive_self_improveme.Common.{
  ℕ, zero, suc, ◌+◌, ◌-◌, ◌*◌, ◌/◌, ◌%◌, ◌≤◌, ◌<◌, min, max, String, ◌≡◌, refl, sym, ap, ◌∙◌, subst,
  ◌≢◌, ◌↔◌, ◌⊎◌, inl, inr, Bool, true, false, ◌&&◌, ◌||◌, not, Option, none, some, List, [], ◌∷◌,
  ◌++◌, map, arith, str_eq, str_eq_iff, ltb, leb, ◌==◌, if◌then◌else◌, ltb→lt, lt→ltb, leb→le,
  ==_iff, Bool-cases, Option-cases, opt_eq, opt_eq→eq, opt_eq_refl, length, length-append, is_empty,
  replicate, All, All-append, Outcome, ok, err, ◌>>=◌, ◌>>◌, Outcome-cases,
}
use recursive_self_improveme.Common.Json.{
  Bytes, Json, Items, Fields, boolean, num, str, arr, obj, nil, cons, end, field, dumps_utf8,
}
use recursive_self_improveme.Security.{Crypto}

pub data TenantEnvironment : Type 0 where
  research production : TenantEnvironment

unfoldable pub environment_value : TenantEnvironment → String
environment_value research = "research"
environment_value production = "production"

unfoldable pub is_production : TenantEnvironment → Bool
is_production research = false
is_production production = true

unfoldable pub is_scaffold_class : String → Bool
is_scaffold_class artifact_type = str_eq artifact_type "scaffold"

abbrev pub max_authority_tier : ℕ
max_authority_tier = 4

abbrev pub default_auto_promotion_max_tier : ℕ
default_auto_promotion_max_tier = 2

pub data TenantPolicyError : Type 0 where
  no_tenant_id no_policy_id bad_version no_tiers : TenantPolicyError
  bad_tier : ℕ → TenantPolicyError
  production_tier_4 production_recursive production_auto_tier_4 : TenantPolicyError
  auto_above_allowed : ℕ → ℕ → TenantPolicyError
  incoherent_review : ℕ → TenantPolicyError
  two_documents : String → TenantPolicyError

pub record TenantPolicyDocument : Type 0 where
  pub tenant_id : String
  pub policy_id : String
  pub environment : TenantEnvironment
  pub policy_version : ℕ
  pub allowed_authority_tiers : List ℕ
  pub recursive_claims_enabled : Bool
  pub auto_promotion_max_tier : ℕ
  pub require_review_for_all_tiers : Bool

unfoldable pub has_tier : ℕ → List ℕ → Bool
has_tier tier [] = false
has_tier tier (t ∷ ts) = t == tier || has_tier tier ts

unfoldable pub insert_tier : ℕ → List ℕ → List ℕ
insert_tier tier [] = tier ∷ []
insert_tier tier (t ∷ ts) =
    let rest = insert_tier tier ts in
    if ltb tier t then tier ∷ t ∷ ts else if tier == t then t ∷ ts else t ∷ rest

-- `sorted(set(tiers))`
unfoldable pub sorted_set : List ℕ → List ℕ
unfolding insert_tier
sorted_set [] = []
sorted_set (t ∷ ts) = insert_tier t (sorted_set ts)

unfoldable pub max_of : List ℕ → ℕ
max_of [] = 0
max_of (t ∷ ts) = max t (max_of ts)

-- The loop over the tiers.
unfoldable pub check_tiers : List ℕ → Outcome TenantPolicyError (Unit {0})
check_tiers [] = ok tt
check_tiers (t ∷ ts) =
    let rest = check_tiers ts in
    if not (leb 1 t && leb t max_authority_tier) then err (bad_tier t) else rest

-- `if test: raise e`, before the rest of the checks.
unfoldable pub refuse_when :
    {A : Type 0}
    → Bool
    → TenantPolicyError
    → Outcome TenantPolicyError A
    → Outcome TenantPolicyError A
refuse_when true e rest = err e
refuse_when false e rest = rest

-- `_validate_approval_defaults`
unfoldable pub validate_approval_defaults :
    TenantPolicyDocument → Outcome TenantPolicyError (Unit {0})
unfolding refuse_when max_of is_production
validate_approval_defaults d =
    refuse_when (ltb (max_of d.allowed_authority_tiers) d.auto_promotion_max_tier)
      (auto_above_allowed d.auto_promotion_max_tier (max_of d.allowed_authority_tiers))
      (refuse_when (d.require_review_for_all_tiers && not (d.auto_promotion_max_tier == 0))
        (incoherent_review d.auto_promotion_max_tier)
        (refuse_when
          (is_production d.environment && leb max_authority_tier d.auto_promotion_max_tier)
          production_auto_tier_4 (ok tt)))

-- `_validate`
unfoldable pub validate : TenantPolicyDocument → Outcome TenantPolicyError (Unit {0})
unfolding refuse_when check_tiers is_production has_tier validate_approval_defaults
validate d = refuse_when (str_eq d.tenant_id "") no_tenant_id (
    refuse_when (str_eq d.policy_id "") no_policy_id (
      refuse_when (ltb d.policy_version 1) bad_version (
        refuse_when (is_empty d.allowed_authority_tiers) no_tiers (
          check_tiers d.allowed_authority_tiers
          >> (refuse_when
              (is_production d.environment && has_tier max_authority_tier d.allowed_authority_tiers)
              production_tier_4
              (refuse_when (is_production d.environment && d.recursive_claims_enabled)
                production_recursive (validate_approval_defaults d)))))))

-- `TenantPolicyDocument(...)`, from the fields as they are given.
unfoldable pub new_document : TenantPolicyDocument → Outcome TenantPolicyError TenantPolicyDocument
unfolding sorted_set validate
new_document given =
    let d = record given { allowed_authority_tiers = sorted_set given.allowed_authority_tiers } in
    validate d >> ok d

unfoldable pub allows_tier : TenantPolicyDocument → ℕ → Bool
unfolding has_tier
allows_tier d tier = has_tier tier d.allowed_authority_tiers

unfoldable pub auto_eligible : TenantPolicyDocument → ℕ → Bool
unfolding has_tier
auto_eligible d tier =
    not d.require_review_for_all_tiers
    && leb tier d.auto_promotion_max_tier
    && has_tier tier d.allowed_authority_tiers

unfoldable pub requires_two_person_review : TenantPolicyDocument → ℕ → Bool
unfolding has_tier auto_eligible
requires_two_person_review d tier =
    has_tier tier d.allowed_authority_tiers && not (auto_eligible d tier)

tier_items : List ℕ → Items
tier_items [] = nil
tier_items (t ∷ ts) = cons (num t) (tier_items ts)

unfoldable pub to_canonical_dict : TenantPolicyDocument → Fields
unfolding tier_items environment_value
to_canonical_dict d = field "allowed_authority_tiers" (arr (tier_items d.allowed_authority_tiers)) (
    field "auto_promotion_max_tier" (num d.auto_promotion_max_tier) (
      field "environment" (str (environment_value d.environment)) (
        field "policy_id" (str d.policy_id) (
          field "policy_version" (num d.policy_version) (
            field "recursive_claims_enabled" (boolean d.recursive_claims_enabled) (
              field "require_review_for_all_tiers" (boolean d.require_review_for_all_tiers)
                (field "tenant_id" (str d.tenant_id) end)))))))

unfoldable pub policy_canonical_bytes : TenantPolicyDocument → Bytes
unfolding to_canonical_dict dumps_utf8
policy_canonical_bytes d = dumps_utf8 (obj (to_canonical_dict d))

unfoldable pub policy_digest : Crypto → TenantPolicyDocument → String
unfolding policy_canonical_bytes
policy_digest crypto d = str_append "sha256:" (crypto.sha256_hex (policy_canonical_bytes d))

-- `by_tenant`, the documents under their tenants.
pub record TenantPolicyRegistry : Type 0 where
  pub by_tenant : List TenantPolicyDocument

unfoldable pub find_policy : String → List TenantPolicyDocument → Option TenantPolicyDocument
find_policy tenant [] = none
find_policy tenant (d ∷ ds) =
    let rest = find_policy tenant ds in if str_eq d.tenant_id tenant then some d else rest

-- The loop of the constructor.
unfoldable pub add_documents :
    List TenantPolicyDocument
    → List TenantPolicyDocument
    → Outcome TenantPolicyError (List TenantPolicyDocument)
unfolding find_policy
add_documents seen [] = ok seen
add_documents seen (d ∷ ds) =
    let rest = add_documents (seen ++ d ∷ []) ds in
    elim (find_policy d.tenant_id seen) [
      | some other ↦ err (two_documents d.tenant_id)
      | none ↦ rest
    ]

unfoldable pub new_registry :
    List TenantPolicyDocument → Outcome TenantPolicyError TenantPolicyRegistry
unfolding add_documents
new_registry documents = add_documents [] documents >>= λ ds. ok (record { by_tenant = ds })

unfoldable pub policy_for : TenantPolicyRegistry → String → Option TenantPolicyDocument
unfolding find_policy
policy_for registry tenant = find_policy tenant registry.by_tenant

unfoldable pub environment_for : TenantPolicyRegistry → String → TenantEnvironment
unfolding policy_for
environment_for registry tenant = elim (policy_for registry tenant) [
  | some d ↦ d.environment
  | none ↦ production
]
