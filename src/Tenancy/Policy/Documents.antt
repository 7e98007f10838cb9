-- ===== src/Tenancy/Policy/Documents.antt =====
-- What a document that tenancy/policy.py builds can say.
use recursive_self_improveme.Common.{
  ℕ, ◌≤◌, ◌≡◌, refl, sym, ap, subst, ◌↔◌, Bool, true, false, ◌&&◌, not, List, [], ◌∷◌, arith,
  str_eq, ltb, leb, ◌==◌, is_empty, All, Outcome, ok, err, ◌>>◌, ok_eq,
}
use recursive_self_improveme.Tenancy.Policy.{
  is_production, TenantPolicyError, TenantPolicyDocument, has_tier, max_of, sorted_set, check_tiers,
  refuse_when, validate_approval_defaults, validate, new_document,
}

-- The conditions that the constructor checks.
pub record Coherent (d : TenantPolicyDocument) : Type 0 where
  pub tenant_named : str_eq d.tenant_id "" ≡ false
  pub policy_named : str_eq d.policy_id "" ≡ false
  pub versioned : 1 ≤ d.policy_version
  pub some_tier : is_empty d.allowed_authority_tiers ≡ false
  pub tiers_exist : All (λ t. (1 ≤ t) × (t ≤ 4)) d.allowed_authority_tiers
  pub tier_4_in_research :
      is_production d.environment && has_tier 4 d.allowed_authority_tiers ≡ false
  pub claims_in_research : is_production d.environment && d.recursive_claims_enabled ≡ false
  pub auto_below_allowed : d.auto_promotion_max_tier ≤ max_of d.allowed_authority_tiers
  pub review_or_auto :
      d.require_review_for_all_tiers && not (d.auto_promotion_max_tier == 0) ≡ false
  pub auto_below_4 : is_production d.environment && leb 4 d.auto_promotion_max_tier ≡ false

below : {a b : ℕ} → ltb a b ≡ false → b ≤ a
below h = ground arith

above : {a b : ℕ} → b ≤ a → ltb a b ≡ false
above h = ground arith

module _ {A : Type 0} where
  passed :
      {test : Bool} (e : TenantPolicyError) {rest : Outcome TenantPolicyError A} {a : A}
      → refuse_when test e rest ≡ ok a
      → (test ≡ false) × (rest ≡ ok a)
  unfolding refuse_when
  passed {test = true} e h = ground arith
  passed {test = false} e h = (refl, h)

  passes :
      {test : Bool} (e : TenantPolicyError) {rest : Outcome TenantPolicyError A} {a : A}
      → test ≡ false
      → rest ≡ ok a
      → refuse_when test e rest ≡ ok a
  unfolding refuse_when
  passes e h k = rw h k

  in_turn :
      {m : Outcome TenantPolicyError (Unit {0})} {rest : Outcome TenantPolicyError A} {a : A}
      → (m >> rest) ≡ ok a
      → (m ≡ ok tt) × (rest ≡ ok a)
  in_turn {m = ok u} h = (refl, h)
  in_turn {m = err e} h = ground arith

check_tiers_iff : (ts : List ℕ) → (check_tiers ts ≡ ok tt) ↔ All (λ t. (1 ≤ t) × (t ≤ 4)) ts
unfolding check_tiers
check_tiers_iff [] = ((λ h. tt), λ h. refl)
check_tiers_iff (t ∷ ts) =
    let ih = check_tiers_iff ts in
    (
      (λ h. ((ground arith, ground arith), ih.0 (ground arith))),
      λ h. let bounds = h.0 in let rest = ih.1 h.1 in ground arith,
    )

validate-Coherent : (d : TenantPolicyDocument) → validate d ≡ ok tt → Coherent d
unfolding validate validate_approval_defaults
validate-Coherent d h =
    let tenant = passed _ h in
    let policy = passed _ tenant.1 in
    let version = passed _ policy.1 in
    let some_tiers = passed _ version.1 in
    let tiers = in_turn some_tiers.1 in
    let tier_4 = passed _ tiers.1 in
    let claims = passed _ tier_4.1 in
    let allowed = passed _ claims.1 in
    let review = passed _ allowed.1 in
    let auto = passed _ review.1 in
    record {
      tenant_named = tenant.0;
      policy_named = policy.0;
      versioned = below version.0;
      some_tier = some_tiers.0;
      tiers_exist = (check_tiers_iff d.allowed_authority_tiers).0 tiers.0;
      tier_4_in_research = tier_4.0;
      claims_in_research = claims.0;
      auto_below_allowed = below allowed.0;
      review_or_auto = review.0;
      auto_below_4 = auto.0;
    }

Coherent-validate : (d : TenantPolicyDocument) → Coherent d → validate d ≡ ok tt
unfolding validate validate_approval_defaults
Coherent-validate d c = passes _ c.tenant_named (
    passes _ c.policy_named (
      passes _ (above c.versioned) (
        passes _ c.some_tier (
          rw ((check_tiers_iff d.allowed_authority_tiers).1 c.tiers_exist) (
            passes _ c.tier_4_in_research (
              passes _ c.claims_in_research (
                passes _ (above c.auto_below_allowed)
                  (passes _ c.review_or_auto (passes _ c.auto_below_4 refl)))))))))

-- The constructor accepts exactly the coherent documents, with their tiers sorted and without
-- repetition.
pub new_document_iff :
    (given d : TenantPolicyDocument)
    → (new_document given ≡ ok d) ↔ (
        (d ≡ record given { allowed_authority_tiers = sorted_set given.allowed_authority_tiers })
        × Coherent d)
unfolding new_document
new_document_iff given d =
    let n = record given { allowed_authority_tiers = sorted_set given.allowed_authority_tiers } in
    (
      (λ h.
          let t = in_turn {m = validate n} {rest = ok n} {a = d} h in
          let e = ok_eq t.1 in (sym e, subst Coherent e (validate-Coherent n t.0))),
      λ h. rw (Coherent-validate n (subst Coherent h.0 h.1)) (ap ok (sym h.0)),
    )
