-- ===== src/Tenancy/Policy/Environments.antt =====
-- What the environment of a tenant allows: tenancy/policy.py.
use recursive_self_improveme.Common.{
  ℕ, ◌≤◌, String, ◌≡◌, refl, sym, ap, ◌∙◌, subst, ◌⊎◌, inl, inr, true, false, ◌||◌, none, some,
  List, [], ◌∷◌, ◌++◌, arith, str_eq, str_eq_iff, ◌==◌, Bool-cases, Option-cases, some_eq, some_ne,
  All, All-append, Any, ok, ok_eq, err_ne, Outcome-cases,
}
use mathlib.Core.List.{append-nil, append_assoc}
use recursive_self_improveme.Tenancy.Policy.{
  TenantEnvironment, research, production, is_production, TenantPolicyDocument, has_tier,
  insert_tier, sorted_set, new_document, allows_tier, auto_eligible, requires_two_person_review,
  TenantPolicyRegistry, find_policy, add_documents, new_registry, policy_for, environment_for,
}
use recursive_self_improveme.Tenancy.Policy.Documents.{new_document_iff}

has-insert : (t x : ℕ) (ts : List ℕ) → has_tier t (insert_tier x ts) ≡ (x == t || has_tier t ts)
unfolding has_tier insert_tier
has-insert t x [] = refl
has-insert t x (y ∷ ys) = let ih = has-insert t x ys in ground arith

-- Sorting keeps the tiers that a document names.
pub has-sorted_set : (t : ℕ) (ts : List ℕ) → has_tier t (sorted_set ts) ≡ has_tier t ts
unfolding sorted_set has_tier
has-sorted_set t [] = refl
has-sorted_set t (x ∷ xs) = rw (has-insert t x (sorted_set xs), has-sorted_set t xs) refl

-- The ways in which a tier stands under a document: promoted automatically, only after a review by
-- two persons, or not at all.
pub data Standing (d : TenantPolicyDocument) (tier : ℕ) : Type 0 where
  automatic :
      allows_tier d tier ≡ true
      → d.require_review_for_all_tiers ≡ false
      → tier ≤ d.auto_promotion_max_tier
      → auto_eligible d tier ≡ true
      → requires_two_person_review d tier ≡ false
      → Standing d tier
  reviewed :
      allows_tier d tier ≡ true
      → auto_eligible d tier ≡ false
      → requires_two_person_review d tier ≡ true
      → Standing d tier
  forbidden :
      allows_tier d tier ≡ false
      → auto_eligible d tier ≡ false
      → requires_two_person_review d tier ≡ false
      → Standing d tier

-- Every tier stands in one of the three ways.
pub tier-Standing : (d : TenantPolicyDocument) (tier : ℕ) → Standing d tier
unfolding allows_tier auto_eligible requires_two_person_review
tier-Standing d tier = elim (Bool-cases (allows_tier d tier)) [
  | inl a ↦ elim (Bool-cases (auto_eligible d tier)) [
    | inl e ↦ automatic a (ground arith) (ground arith) e (ground arith)
    | inr e ↦ reviewed a e (ground arith)
  ]
  | inr a ↦ forbidden a (ground arith) (ground arith)
]

-- A document that the constructor accepts for a production tenant does not allow tier 4, promotes it
-- neither automatically nor after a review, and does not enable recursive claims.
pub production_lem :
    (given d : TenantPolicyDocument)
    → new_document given ≡ ok d
    → d.environment ≡ production
    → (allows_tier d 4 ≡ false)
      × (auto_eligible d 4 ≡ false)
      × (requires_two_person_review d 4 ≡ false)
      × (d.recursive_claims_enabled ≡ false)
unfolding allows_tier auto_eligible requires_two_person_review is_production
production_lem given d h e =
    let c = ((new_document_iff given d).0 h).1 in
    let no_4 = rw e at (c.tier_4_in_research) in
    let no_claims = rw e at (c.claims_in_research) in (no_4, ground arith, ground arith, no_claims)

pub find_policy-All :
    (P : TenantPolicyDocument → Type 0) (tenant : String) (ds : List TenantPolicyDocument)
    (d : TenantPolicyDocument)
    → find_policy tenant ds ≡ some d
    → All P ds
    → P d
unfolding find_policy
find_policy-All P tenant [] d h p = elim (some_ne (sym h)) [ ]
find_policy-All P tenant (x ∷ xs) d h p = elim (Bool-cases (str_eq x.tenant_id tenant)) [
  | inl e ↦ subst P (some_eq (rw e at h)) p.0
  | inr e ↦ find_policy-All P tenant xs d (rw e at h) p.1
]

find_policy-Any :
    (P : TenantPolicyDocument → Type 0) (tenant : String) (ds : List TenantPolicyDocument)
    (d : TenantPolicyDocument)
    → find_policy tenant ds ≡ some d
    → P d
    → Any (λ x. (x.tenant_id ≡ tenant) × P x) ds
unfolding find_policy
find_policy-Any P tenant [] d h p = elim (some_ne (sym h)) [ ]
find_policy-Any P tenant (x ∷ xs) d h p = elim (Bool-cases (str_eq x.tenant_id tenant)) [
  | inl e ↦ inl ((str_eq_iff x.tenant_id tenant).0 e, subst P (sym (some_eq (rw e at h))) p)
  | inr e ↦ inr (find_policy-Any P tenant xs d (rw e at h) p)
]

-- Every document is found under its tenant.
abbrev pub Found : List TenantPolicyDocument → Type 0
Found ds = All (λ d. find_policy d.tenant_id ds ≡ some d) ds

find-append_left :
    (tenant : String) (ds es : List TenantPolicyDocument) (d : TenantPolicyDocument)
    → find_policy tenant ds ≡ some d
    → find_policy tenant (ds ++ es) ≡ some d
unfolding find_policy
find-append_left tenant [] es d h = ground arith
find-append_left tenant (x ∷ xs) es d h = elim (Bool-cases (str_eq x.tenant_id tenant)) [
  | inl e ↦ rw e (rw e at h)
  | inr e ↦ rw e (find-append_left tenant xs es d (rw e at h))
]

find-append_right :
    (tenant : String) (ds es : List TenantPolicyDocument)
    → find_policy tenant ds ≡ none
    → find_policy tenant (ds ++ es) ≡ find_policy tenant es
unfolding find_policy
find-append_right tenant [] es h = refl
find-append_right tenant (x ∷ xs) es h = elim (Bool-cases (str_eq x.tenant_id tenant)) [
  | inl e ↦ elim (some_ne (rw e at h)) [ ]
  | inr e ↦ rw e (find-append_right tenant xs es (rw e at h))
]

find_own : (d : TenantPolicyDocument) → find_policy d.tenant_id (d ∷ []) ≡ some d
unfolding find_policy
find_own d = rw ((str_eq_iff d.tenant_id d.tenant_id).1 refl) refl

keep_found :
    (seen ds more : List TenantPolicyDocument)
    → All (λ d. find_policy d.tenant_id seen ≡ some d) ds
    → All (λ d. find_policy d.tenant_id (seen ++ more) ≡ some d) ds
keep_found seen [] more h = tt
keep_found seen (x ∷ xs) more h =
    (find-append_left x.tenant_id seen more x h.0, keep_found seen xs more h.1)

Found-append :
    (seen : List TenantPolicyDocument) (d : TenantPolicyDocument)
    → Found seen
    → find_policy d.tenant_id seen ≡ none
    → Found (seen ++ d ∷ [])
Found-append seen d f n =
    All-append _ seen (d ∷ []) (keep_found seen seen (d ∷ []) f)
      (find-append_right d.tenant_id seen (d ∷ []) n ∙ find_own d, tt)

add_documents-Found :
    (seen ds all : List TenantPolicyDocument)
    → Found seen
    → add_documents seen ds ≡ ok all
    → (all ≡ seen ++ ds) × Found all
unfolding add_documents
add_documents-Found seen [] all f h =
    (sym (ok_eq h) ∙ sym (append-nil seen), subst Found (ok_eq h) f)
add_documents-Found seen (d ∷ ds) all f h = elim (Option-cases (find_policy d.tenant_id seen)) [
  | inl e ↦
      let ih =
        add_documents-Found (seen ++ d ∷ []) ds all (Found-append seen d f e)
          (rw (e, add_documents) at h) in
      (ih.0 ∙ append_assoc seen (d ∷ []) ds, ih.1)
  | inr e ↦ elim (err_ne (rw (e.1, add_documents) at h)) [ ]
]

pub registry_parts :
    (documents : List TenantPolicyDocument) (registry : TenantPolicyRegistry)
    → new_registry documents ≡ ok registry
    → (registry.by_tenant ≡ documents) × Found registry.by_tenant
unfolding new_registry
registry_parts documents registry h = elim (Outcome-cases (add_documents [] documents)) [
  | inl all ↦
      let f = add_documents-Found [] documents all.0 tt all.1 in
      let e = ok_eq (rw all.1 at h) in
      (ap TenantPolicyRegistry.by_tenant (sym e) ∙ f.0, subst (λ r. Found r.by_tenant) e f.1)
  | inr e ↦ elim (err_ne (rw e.1 at h)) [ ]
]

environment-cases : (e : TenantEnvironment) → (e ≡ production) ⊎ (e ≡ research)
environment-cases research = inr refl
environment-cases production = inl refl

environment_known :
    (registry : TenantPolicyRegistry) (tenant : String)
    → (environment_for registry tenant ≡ production)
      ⊎ Any (λ d. (d.tenant_id ≡ tenant) × (d.environment ≡ research)) registry.by_tenant
unfolding policy_for environment_for
environment_known registry tenant = elim (Option-cases (find_policy tenant registry.by_tenant)) [
  | inl e ↦ inl (rw (e, environment_for) refl)
  | inr e ↦ elim (environment-cases e.0.environment) [
    | inl prod ↦ inl (rw (e.1, environment_for) prod)
    | inr res ↦
        inr (find_policy-Any (λ d. d.environment ≡ research) tenant registry.by_tenant e.0 e.1 res)
  ]
]

-- In a registry that was built from documents, every one of them governs the tenant that it names,
-- and a tenant is a research tenant only if one of them says so.
pub new_registry_lem :
    (documents : List TenantPolicyDocument) (registry : TenantPolicyRegistry) (tenant : String)
    → new_registry documents ≡ ok registry
    → All (λ d. policy_for registry d.tenant_id ≡ some d) documents
      × ((environment_for registry tenant ≡ production)
          ⊎ Any (λ d. (d.tenant_id ≡ tenant) × (d.environment ≡ research)) documents)
unfolding policy_for environment_for
new_registry_lem documents registry tenant h =
    let p = registry_parts documents registry h in
    (
      subst (λ ds. All (λ d. find_policy d.tenant_id registry.by_tenant ≡ some d) ds) p.0 p.1,
      subst
          (λ ds.
            (environment_for registry tenant ≡ production)
            ⊎ Any (λ d. (d.tenant_id ≡ tenant) × (d.environment ≡ research)) ds)
          p.0 (environment_known registry tenant),
    )
