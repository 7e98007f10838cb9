-- ===== src/Tenancy/Policy/Examples.antt =====
-- The tenant policy of tenancy/policy.py at concrete documents.
use recursive_self_improveme.Common.{◌≡◌, refl, ◌⊎◌, false, some, [], ◌∷◌, All, Any, ok, err}
use recursive_self_improveme.Tenancy.Policy.{
  research, production, production_tier_4, auto_above_allowed, two_documents, TenantPolicyDocument,
  new_document, allows_tier, auto_eligible, requires_two_person_review, TenantPolicyRegistry,
  new_registry, policy_for, environment_for,
}
use recursive_self_improveme.Tenancy.Policy.Environments.{
  Standing, tier-Standing, production_lem, new_registry_lem,
}

abbrev shop : TenantPolicyDocument
shop = record {
  tenant_id = "shop";
  policy_id = "p1";
  environment = production;
  policy_version = 1;
  allowed_authority_tiers = 1 ∷ 2 ∷ 3 ∷ [];
  recursive_claims_enabled = false;
  auto_promotion_max_tier = 2;
  require_review_for_all_tiers = false;
}

abbrev lab : TenantPolicyDocument
lab = record shop {
  tenant_id = "lab";
  environment = research;
  allowed_authority_tiers = 1 ∷ 2 ∷ 3 ∷ 4 ∷ [];
}

-- The tiers are sorted, and one that is given twice stands once.
sorted_test : new_document (record shop { allowed_authority_tiers = 3 ∷ 1 ∷ 2 ∷ 3 ∷ [] }) ≡ ok shop
unfolding new_document
sorted_test = refl

tier_4_test :
    new_document (record shop { allowed_authority_tiers = 4 ∷ [] }) ≡ err production_tier_4
unfolding new_document
tier_4_test = refl

auto_test :
    new_document (record shop { auto_promotion_max_tier = 9 }) ≡ err (auto_above_allowed 9 3)
unfolding new_document
auto_test = refl

twice_test : new_registry (shop ∷ lab ∷ shop ∷ []) ≡ err (two_documents "shop")
unfolding new_registry
twice_test = refl

accepted : new_document shop ≡ ok shop
unfolding new_document
accepted = refl

abbrev registry : TenantPolicyRegistry
registry = record { by_tenant = shop ∷ lab ∷ [] }

built : new_registry (shop ∷ lab ∷ []) ≡ ok registry
unfolding new_registry
built = refl

tier-Standing_at_test : Standing lab 4
tier-Standing_at_test = tier-Standing lab 4

production_lem_example :
    (allows_tier shop 4 ≡ false)
    × (auto_eligible shop 4 ≡ false)
    × (requires_two_person_review shop 4 ≡ false)
    × (shop.recursive_claims_enabled ≡ false)
production_lem_example = production_lem shop shop accepted refl

new_registry_lem_example :
    All (λ d. policy_for registry d.tenant_id ≡ some d) (shop ∷ lab ∷ [])
    × ((environment_for registry "lab" ≡ production)
        ⊎ Any (λ d. (d.tenant_id ≡ "lab") × (d.environment ≡ research)) (shop ∷ lab ∷ []))
new_registry_lem_example = new_registry_lem (shop ∷ lab ∷ []) registry "lab" built
