-- ===== src/Release/Canary/Draws.antt =====
-- The floors and the ceiling of release/canary.py, and the arms that it draws.
use mathlib.Core.List.{Permᴰ}
use mathlib.Core.List.Permᴰ.{nil, cons, swap, trans}
use recursive_self_improveme.Common.{
  ℕ, zero, suc, ◌-◌, ◌*◌, ◌/◌, ◌≤◌, ◌≡◌, refl, sym, ap, ◌∙◌, subst, inl, inr, true, false, ◌&&◌,
  List, [], ◌∷◌, ◌++◌, arith, ltb, leb, Bool-cases, length, length-append, replicate, Outcome, ok,
  err,
}
use recursive_self_improveme.Release.Manifest.{ReleaseError}
use recursive_self_improveme.Release.Fleet.{SessionArm, candidate, incumbent}
use recursive_self_improveme.Release.Canary.{
  CanaryConfig, new_config, Randomness, candidate_count, draw_arms,
}

scaled : (n u a : ℕ) → u ≤ a → n * u ≤ n * a
scaled zero u a h = omega arith
scaled (suc n) u a h = omega (arith, scaled n u a h)

share : (n u : ℕ) → u ≤ 50000 → n * u / 1000000 * 20 ≤ n
share n u h = omega (arith, scaled n u 50000 h)

below : (n u a : ℕ) → u ≤ a → n * u / 1000000 * 1000000 ≤ n * a
below n u a h = omega (arith, scaled n u a h)

at_least : (a b : ℕ) → ltb a b ≡ false → b ≤ a
at_least a b h = ground arith

capped : (a : ℕ) → ltb 0 a && leb a 50000 ≡ true → a ≤ 50000
capped a h = ground arith

refused :
    {e : ReleaseError} {c : CanaryConfig}
    → ◌≡◌ {A = Outcome ReleaseError CanaryConfig} (err e) (ok c)
    → ⊥
refused h = ground arith

accepted : {b c : CanaryConfig} → ◌≡◌ {A = Outcome ReleaseError CanaryConfig} (ok b) (ok c) → b ≡ c
accepted h = ground arith

-- How many of the arms are the candidate's.
abbrev pub candidates_in : List SessionArm → ℕ
candidates_in [] = 0
candidates_in (candidate ∷ arms) = suc (candidates_in arms)
candidates_in (incumbent ∷ arms) = candidates_in arms

one_more :
    (a b : SessionArm) (xs ys : List SessionArm)
    → a ≡ b
    → candidates_in xs ≡ candidates_in ys
    → candidates_in (a ∷ xs) ≡ candidates_in (b ∷ ys)
one_more candidate b xs ys e h = rw (sym e) (ap suc h)
one_more incumbent b xs ys e h = rw (sym e) h

two_swapped :
    (a b : SessionArm) (xs : List SessionArm)
    → candidates_in (a ∷ b ∷ xs) ≡ candidates_in (b ∷ a ∷ xs)
two_swapped candidate candidate xs = refl
two_swapped candidate incumbent xs = refl
two_swapped incumbent candidate xs = refl
two_swapped incumbent incumbent xs = refl

-- A permutation keeps the length and the number of the candidate's arms.
permuted :
    {xs ys : List SessionArm}
    → Permᴰ xs ys
    → (candidates_in xs ≡ candidates_in ys) × (length xs ≡ length ys)
permuted nil = (refl, refl)
permuted (cons {a} {b} {l₁ = xs} {l₂ = ys} e d) =
    (one_more a b xs ys e (permuted d).0, ap suc (permuted d).1)
permuted (swap {a} {b} {a'} {b'} {l = xs} e f) =
    (two_swapped a b xs ∙ one_more b a' (a ∷ xs) (b' ∷ xs) f (one_more a b' xs xs e refl), refl)
permuted (trans d d') = ((permuted d).0 ∙ (permuted d').0, (permuted d).1 ∙ (permuted d').1)

incumbents : (k : ℕ) → candidates_in (replicate k incumbent) ≡ 0
incumbents zero = refl
incumbents (suc k) = incumbents k

slice : (c k : ℕ) → candidates_in (replicate c candidate ++ replicate k incumbent) ≡ c
slice zero k = incumbents k
slice (suc c) k = ap suc (slice c k)

sized : {A : Type 0} (n : ℕ) (a : A) → length (replicate n a) ≡ n
sized zero a = refl
sized (suc n) a = ap suc (sized n a)

-- What is drawn for a configuration.
draw_arms_lem :
    (rng : Randomness) (config : CanaryConfig)
    → candidate_count rng config * 20 ≤ config.min_paired_tasks
    → (length (draw_arms rng config) ≡ config.min_paired_tasks)
      × (candidates_in (draw_arms rng config) ≡ candidate_count rng config)
unfolding draw_arms
draw_arms_lem rng config h =
    let c = candidate_count rng config in
    let k = config.min_paired_tasks - c in
    let arms = replicate c candidate ++ replicate k incumbent in
    let same = permuted (rng.shuffle_permutes config.seed arms) in
    let all = length-append (replicate c candidate) (replicate k incumbent) in
    (omega (arith, same.1, all, sized c candidate, sized k incumbent, h), same.0 ∙ slice c k)

counted :
    (tasks allocation horizon seed : ℕ) (config : CanaryConfig) (rng : Randomness)
    → new_config tasks allocation horizon seed ≡ ok config
    → (200 ≤ config.min_paired_tasks)
      × (86400 ≤ config.observation_horizon)
      × (candidate_count rng config * 20 ≤ config.min_paired_tasks)
      × (candidate_count rng config * 1000000
          ≤ config.min_paired_tasks * config.max_candidate_allocation)
unfolding candidate_count new_config
counted tasks allocation horizon seed config rng h = elim (Bool-cases (ltb tasks 200)) [
  | inl e ↦ absurd (refused (rw (e, new_config) at h))
  | inr e ↦ elim (Bool-cases (ltb 0 allocation && leb allocation 50000)) [
    | inr f ↦ absurd (refused (rw (e, f, new_config) at h))
    | inl f ↦ elim (Bool-cases (ltb horizon 86400)) [
      | inl g ↦ absurd (refused (rw (e, f, g, new_config) at h))
      | inr g ↦
          subst
            (λ (c : CanaryConfig).
              (200 ≤ c.min_paired_tasks)
              × (86400 ≤ c.observation_horizon)
              × (c.min_paired_tasks * rng.uniform c.seed c.max_candidate_allocation / 1000000 * 20
                  ≤ c.min_paired_tasks)
              × (c.min_paired_tasks
                    * rng.uniform c.seed c.max_candidate_allocation
                    / 1000000
                    * 1000000
                  ≤ c.min_paired_tasks * c.max_candidate_allocation))
            (accepted (rw (e, f, g, new_config) at h))
            (
              at_least tasks 200 e,
              at_least horizon 86400 g,
              share tasks (rng.uniform seed allocation)
                  (omega (arith, capped allocation f, rng.uniform_within seed allocation)),
              below tasks (rng.uniform seed allocation) allocation
                  (rng.uniform_within seed allocation),
            )
    ]
  ]
]

-- A canary under a configuration that is accepted draws arms for as many sessions as the configuration
-- has tasks, at least 200, over at least 24 hours. Of these at most a twentieth, and at most the
-- configured share, are the candidate's, whatever the random numbers.
pub new_config-floors :
    (tasks allocation horizon seed : ℕ) (config : CanaryConfig) (rng : Randomness)
    → new_config tasks allocation horizon seed ≡ ok config
    → (200 ≤ length (draw_arms rng config))
      × (length (draw_arms rng config) ≡ config.min_paired_tasks)
      × (86400 ≤ config.observation_horizon)
      × (candidates_in (draw_arms rng config) * 20 ≤ length (draw_arms rng config))
      × (candidates_in (draw_arms rng config) * 1000000
          ≤ length (draw_arms rng config) * config.max_candidate_allocation)
new_config-floors tasks allocation horizon seed config rng h =
    let (enough, long, capped_share, cap) = counted tasks allocation horizon seed config rng h in
    let (size, count) = draw_arms_lem rng config capped_share in
    rw (size, count) (enough, refl, long, capped_share, cap)
