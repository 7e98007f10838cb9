-- ===== src/Selection/Graduation/Comparable.antt =====
-- When `evaluate_graduation` of selection/graduation.py grants.
use recursive_self_improveme.Common.{
  ℕ, ◌≤◌, String, ◌≡◌, refl, sym, ◌∙◌, ◌↔◌, ◌⊎◌, inl, inr, Bool, true, false, not, Option, none,
  some, List, [], ◌∷◌, arith, str_eq, str_eq_iff, ltb, if◌then◌else◌, Bool-cases, Option-cases,
  some_ne, All, Any,
}
use recursive_self_improveme.Security.{Crypto}
use recursive_self_improveme.Selection.Authority.{AuthorityTier, tier_value, max_tier}
use recursive_self_improveme.Selection.Graduation.{
  tier_rank, SignedRiskDossier, dossier_tier, dossier_verifies,
}
use recursive_self_improveme.Selection.Graduation.Records.{
  GraduationBinding, GraduationDecision, Detail, first_unverified, highest_tier, compare_tiers,
  refused, judge_production, judge_binding, evaluate_graduation,
}

-- The number of the tier that a signed dossier resolves to.
abbrev pub tier_of : SignedRiskDossier → ℕ
tier_of s = tier_value (dossier_tier s.dossier)

-- The production dossiers all verify, and one resolves to a tier no lower than the candidate's.
abbrev pub InProduction : Crypto → SignedRiskDossier → List SignedRiskDossier → Type 0
InProduction crypto s ps =
    All (λ p. dossier_verifies crypto p ≡ true) ps × Any (λ p. tier_of s ≤ tier_of p) ps

-- What a grant asks for.
abbrev pub Grantable :
    Crypto
    → String
    → Option SignedRiskDossier
    → Option GraduationBinding
    → List SignedRiskDossier
    → Type 0
Grantable crypto class_id none binding ps = ⊥
Grantable crypto class_id (some s) none ps = ⊥
Grantable crypto class_id (some s) (some b) ps =
    (dossier_verifies crypto s ≡ true)
    × ((s.dossier.class_id ≡ class_id)
        × ((s.digest ≡ b.risk_dossier_digest)
            × ((tier_rank s.dossier.isolation_tier_demanded ≤ tier_rank b.max_tier_allowed)
                × ((s.dossier.compensable ≡ true) × InProduction crypto s ps))))

max_tier_lem :
    (n : ℕ) (s t : AuthorityTier)
    → (n ≤ tier_value (max_tier s t)) ↔ ((n ≤ tier_value s) ⊎ (n ≤ tier_value t))
unfolding max_tier
max_tier_lem n s t = ground arith

-- An alternative that is itself one of two.
split_iff {ℓ} : {P M N S T : Type ℓ} → (P ↔ (M ⊎ N)) → (M ↔ (S ⊎ T)) → P ↔ (S ⊎ (T ⊎ N))
split_iff whole part = (
  λ p. elim (whole.0 p) [
    | inl m ↦ elim (part.0 m) [ inl s ↦ inl s | inr t ↦ inr (inl t) ]
    | inr n ↦ inr (inr n)
  ],
  λ q. whole.1 (elim q [
    | inl s ↦ inl (part.1 (inl s))
    | inr r ↦ elim r [ inl t ↦ inl (part.1 (inr t)) | inr n ↦ inr n ]
  ]),
)

highest_tier_iff :
    (n : ℕ) (tier : AuthorityTier) (ps : List SignedRiskDossier)
    → (n ≤ tier_value (highest_tier tier ps))
      ↔ ((n ≤ tier_value tier) ⊎ Any (λ p. n ≤ tier_of p) ps)
unfolding highest_tier
highest_tier_iff n tier [] = (λ h. inl h, λ h. elim h [ inl k ↦ k | inr k ↦ elim k [ ] ])
highest_tier_iff n tier (p ∷ ps) =
    split_iff (highest_tier_iff n (max_tier tier (dossier_tier p.dossier)) ps)
      (max_tier_lem n tier (dossier_tier p.dossier))

first_unverified_iff :
    (crypto : Crypto) (ps : List SignedRiskDossier)
    → (first_unverified crypto ps ≡ none) ↔ All (λ p. dossier_verifies crypto p ≡ true) ps
unfolding first_unverified
first_unverified_iff crypto [] = (λ h. tt, λ h. refl)
first_unverified_iff crypto (p ∷ ps) =
    let ih = first_unverified_iff crypto ps in
    elim (Bool-cases (dossier_verifies crypto p)) [
      | inl v ↦ rw v (λ h. (refl, ih.0 h), λ h. ih.1 h.1)
      | inr v ↦ rw v (λ h. elim (some_ne h) [ ], λ h. ground arith)
    ]

-- A check that refuses when its test holds.
gate_iff {ℓ κ} :
    {P : Type ℓ} {Q : Type κ} (b : Bool) (refusal next : GraduationDecision)
    → refusal.granted ≡ false
    → ((b ≡ false) ↔ P)
    → ((next.granted ≡ true) ↔ Q)
    → ((if b then refusal else next).granted ≡ true) ↔ (P × Q)
gate_iff true refusal next refuses test rest = (λ h. ground arith, λ h. ground (arith, test.1 h.0))
gate_iff false refusal next refuses test rest = (λ h. (test.0 refl, rest.0 h), λ h. rest.1 h.1)

refuse_iff : (false ≡ true) ↔ ⊥
refuse_iff = (λ h. ground arith, λ h. elim h [ ])

not_iff : (b : Bool) → (not b ≡ false) ↔ (b ≡ true)
not_iff b = ground arith

differs_iff : (a b : String) → (not (str_eq a b) ≡ false) ↔ (a ≡ b)
differs_iff a b = ground (arith, str_eq_iff a b)

above_iff : (m n : ℕ) → (ltb m n ≡ false) ↔ (n ≤ m)
above_iff m n = ground arith

module _ (crypto : Crypto) (describe : Detail → String) where
  compare_tiers_iff :
      (class_id : String) (s : SignedRiskDossier) (ps : List SignedRiskDossier)
      → ((compare_tiers crypto describe class_id s ps).granted ≡ true)
        ↔ Any (λ p. tier_of s ≤ tier_of p) ps
  unfolding compare_tiers refused
  compare_tiers_iff class_id s [] = (λ h. ground arith, λ h. elim h [ ])
  compare_tiers_iff class_id s (p ∷ ps) =
      let top = highest_tier_iff (tier_of s) (dossier_tier p.dossier) ps in
      elim (Bool-cases (ltb (tier_value (highest_tier (dossier_tier p.dossier) ps)) (tier_of s))) [
        | inl l ↦ rw l (λ h. ground arith, λ h. ground (arith, (above_iff _ _).1 (top.1 h)))
        | inr l ↦ rw l (λ h. top.0 ((above_iff _ _).0 l), λ h. refl)
      ]

  judge_production_iff :
      (class_id : String) (s : SignedRiskDossier) (ps : List SignedRiskDossier)
      → ((judge_production crypto describe class_id s ps).granted ≡ true) ↔ InProduction crypto s ps
  unfolding judge_production refused
  judge_production_iff class_id s ps =
      let each = first_unverified_iff crypto ps in
      let one = compare_tiers_iff class_id s ps in
      elim (Option-cases (first_unverified crypto ps)) [
        | inl f ↦ rw (f, judge_production) (λ h. (each.0 f, one.0 h), λ h. one.1 h.1)
        | inr f ↦
            rw (f.1, judge_production)
              (λ h. ground arith, λ h. elim (some_ne (sym f.1 ∙ each.1 h.0)) [ ])
      ]

  -- `evaluate_graduation` grants exactly when a dossier was presented that verifies and is about this
  -- class, a binding pins its digest and allows the isolation that it demands, it is compensable, every
  -- production dossier verifies, and one of them resolves to an authority tier no lower than its own.
  pub evaluate_graduation_iff :
      (class_id : String) (presented : Option SignedRiskDossier)
      (binding : Option GraduationBinding) (production : List SignedRiskDossier)
      → ((evaluate_graduation crypto describe class_id presented binding production).granted ≡ true)
        ↔ Grantable crypto class_id presented binding production
  unfolding evaluate_graduation judge_binding refused
  evaluate_graduation_iff class_id none binding ps = (λ h. ground arith, λ h. elim h [ ])
  evaluate_graduation_iff class_id (some s) none ps = (
    λ h.
        ((gate_iff (not (dossier_verifies crypto s)) _ _ refl (not_iff _) (
            gate_iff (not (str_eq s.dossier.class_id class_id)) _
              (judge_binding crypto describe class_id s none ps) refl (differs_iff _ _)
              refuse_iff)).0
          h).1.1,
    λ h. elim h [ ],
  )
  evaluate_graduation_iff class_id (some s) (some b) ps =
      gate_iff (not (dossier_verifies crypto s)) _ _ refl (not_iff _) (
        gate_iff (not (str_eq s.dossier.class_id class_id)) _ _ refl (differs_iff _ _) (
          gate_iff (not (str_eq s.digest b.risk_dossier_digest)) _ _ refl (differs_iff _ _) (
            gate_iff (ltb _ _) _ _ refl (above_iff _ _) (
              gate_iff (not s.dossier.compensable) _ _ refl (not_iff _)
                (judge_production_iff class_id s ps)))))
