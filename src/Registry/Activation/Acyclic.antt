-- ===== src/Registry/Activation/Acyclic.antt =====
-- What the walk of registry/service.py has shown when it accepts a root.
use recursive_self_improveme.Common.{
  ℕ, zero, suc, String, ◌≡◌, refl, sym, ◌∙◌, subst, ◌⊎◌, inl, inr, Bool, false, ◌||◌, Option, none,
  some, List, [], ◌∷◌, arith, str_eq, str_eq_iff, Bool-cases, Option-cases, some_eq, some_ne,
  length, Any, Outcome, ok, err, err_ne,
}
use recursive_self_improveme.Release.Manifest.{has_text}
use recursive_self_improveme.Registry.Activation.{
  RegistryError, RegisteredArtifact, find_artifact, push_all, walk, after_walk, assert_acyclic,
}

module _ (rows : List RegisteredArtifact) (tenant : String) where
  -- The second digest is a dependency of the first.
  abbrev pub Depends : String → String → Type 0
  Depends c d =
      (a : RegisteredArtifact) × (find_artifact tenant c rows ≡ some a)
      × Any (λ e. e ≡ d) a.dependencies

  -- The second digest is reached from the first in any number of steps.
  pub data Reaches : String → String → Type 0 where
    here : {c : String} → Reaches c c
    further : {c d e : String} → Depends c d → Reaches d e → Reaches c e

  -- Something in the list reaches the digest.
  abbrev FromAny : List String → String → Type 0
  FromAny stack x = (c : String) × Any (λ e. e ≡ c) stack × Reaches c x

  -- The digest depends on itself, through one dependency or more.
  abbrev pub Cyclic : String → Type 0
  Cyclic x = (d : String) × Depends x d × Reaches d x

push-left :
    (ds stack : List String) (c : String)
    → Any (λ e. e ≡ c) stack
    → Any (λ e. e ≡ c) (push_all ds stack)
unfolding push_all
push-left [] stack c h = h
push-left (d ∷ ds) stack c h = push-left ds (d ∷ stack) c (inr h)

push-right :
    (ds stack : List String) (c : String)
    → Any (λ e. e ≡ c) ds
    → Any (λ e. e ≡ c) (push_all ds stack)
unfolding push_all
push-right [] stack c h = elim h [ ]
push-right (d ∷ ds) stack c (inl h) = push-left ds (d ∷ stack) c (inl h)
push-right (d ∷ ds) stack c (inr h) = push-right ds (d ∷ stack) c h

later : (c x : String) (b : Bool) → (str_eq c x || b) ≡ false → b ≡ false
later c x b h = ground arith

seen : (c x : String) (b : Bool) → c ≡ x → (str_eq c x || b) ≡ false → ⊥
seen c x b e h = ground (arith, str_eq_iff c x)

module _ (rows : List RegisteredArtifact) (tenant : String) where
  -- A walk that accepts has found the row of its top, and goes on from its dependencies.
  record Stepped (fuel : ℕ) (visited : List String) (c : String) (stack : List String)
      : Type 0 where
    artifact : RegisteredArtifact
    unvisited : has_text visited c ≡ false
    found : find_artifact tenant c rows ≡ some artifact
    rest : walk rows tenant fuel (c ∷ visited) (push_all artifact.dependencies stack) ≡ some (ok tt)

  step :
      (fuel : ℕ) (visited : List String) (c : String) (stack : List String)
      → walk rows tenant (suc fuel) visited (c ∷ stack) ≡ some (ok tt)
      → Stepped fuel visited c stack
  unfolding walk
  step fuel visited c stack h = elim (Bool-cases (has_text visited c)) [
    | inl e ↦ elim (err_ne (some_eq (rw (e, walk) at h))) [ ]
    | inr e ↦ elim (Option-cases (find_artifact tenant c rows)) [
      | inl f ↦ elim (err_ne (some_eq (rw (e, f, walk) at h))) [ ]
      | inr f ↦ record { artifact = f.0; unvisited = e; found = f.1; rest = rw (e, f.1, walk) at h }
    ]
  ]

  -- Where the top of the stack leads goes through itself or its dependencies.
  onward :
      (fuel : ℕ) (visited : List String) (c x : String) (stack : List String)
      → (s : Stepped fuel visited c stack) → Reaches rows tenant c x
      → (c ≡ x) ⊎ FromAny rows tenant (push_all s.artifact.dependencies stack) x
  onward fuel visited c x stack s here = inl refl
  onward fuel visited c x stack s (further {d = d} (a, f, m) r) = inr (
    d,
    push-right s.artifact.dependencies stack d
        (subst (λ b. Any (λ e. e ≡ d) b.dependencies) (some_eq (sym f ∙ s.found)) m),
    r,
  )

  split :
      (fuel : ℕ) (visited : List String) (c x : String) (stack : List String)
      → (s : Stepped fuel visited c stack) → FromAny rows tenant (c ∷ stack) x
      → (c ≡ x) ⊎ FromAny rows tenant (push_all s.artifact.dependencies stack) x
  split fuel visited c x stack s (d, inl e, r) =
      onward fuel visited c x stack s (subst (λ y. Reaches rows tenant y x) (sym e) r)
  split fuel visited c x stack s (d, inr m, r) =
      inr (d, push-left s.artifact.dependencies stack d m, r)

  -- Nothing that the stack reaches is visited already.
  unvisited_ahead :
      (fuel : ℕ) (visited stack : List String) (x : String)
      → walk rows tenant fuel visited stack ≡ some (ok tt)
      → FromAny rows tenant stack x
      → has_text visited x ≡ false
  unfolding walk has_text
  unvisited_ahead fuel visited [] x h (c, m, r) = elim m [ ]
  unvisited_ahead zero visited (c ∷ stack) x h p = elim (some_ne (sym h)) [ ]
  unvisited_ahead (suc fuel) visited (c ∷ stack) x h p =
      let s = step fuel visited c stack h in
      elim (split fuel visited c x stack s p) [
        | inl e ↦ subst (λ y. has_text visited y ≡ false) e s.unvisited
        | inr q ↦
            later c x (has_text visited x) (
              unvisited_ahead fuel (c ∷ visited) (push_all s.artifact.dependencies stack) x s.rest
                q)
      ]

  no_cycle :
      (fuel : ℕ) (visited stack : List String) (x : String)
      → walk rows tenant fuel visited stack ≡ some (ok tt)
      → FromAny rows tenant stack x
      → Cyclic rows tenant x
      → ⊥
  unfolding has_text walk
  no_cycle fuel visited [] x h (c, m, r) k = elim m [ ]
  no_cycle zero visited (c ∷ stack) x h p k = elim (some_ne (sym h)) [ ]
  no_cycle (suc fuel) visited (c ∷ stack) x h p (d, (a, f, m), r) =
      let s = step fuel visited c stack h in
      elim (split fuel visited c x stack s p) [
        | inr q ↦
            no_cycle fuel (c ∷ visited) (push_all s.artifact.dependencies stack) x s.rest q
              (d, (a, f, m), r)
        | inl e ↦ seen c x (has_text visited x) e (
            unvisited_ahead fuel (c ∷ visited) (push_all s.artifact.dependencies stack) x s.rest (
              d,
              push-right s.artifact.dependencies stack d (
                  subst (λ b. Any (λ y. y ≡ d) b.dependencies)
                    (some_eq (
                      sym f ∙ subst (λ y. find_artifact tenant y rows ≡ some s.artifact) e s.found))
                    m),
              r,
            ))
      ]

  -- No digest that is reached from an accepted root depends on itself, however indirectly.
  pub assert_acyclic_lem :
      (roots : List String) (root x : String)
      → assert_acyclic rows tenant roots ≡ some (ok tt)
      → Any (λ r. r ≡ root) roots
      → Reaches rows tenant root x
      → ¬ Cyclic rows tenant x
  unfolding assert_acyclic after_walk
  assert_acyclic_lem [] root x h m r = elim m [ ]
  assert_acyclic_lem (r0 ∷ roots) root x h m r =
      let parts =
        accepted (walk rows tenant (suc (length rows)) [] (r0 ∷ []))
          (assert_acyclic rows tenant roots) h in
      elim m [
        | inl e ↦
            no_cycle (suc (length rows)) [] (r0 ∷ []) x parts.0
              (r0, inl refl, subst (λ y. Reaches rows tenant y x) (sym e) r)
        | inr n ↦ assert_acyclic_lem roots root x parts.1 n r
      ]
    where
      accepted :
          (w rest : Option (Outcome RegistryError (Unit {0})))
          → after_walk rows tenant w rest ≡ some (ok tt)
          → (w ≡ some (ok tt)) × (rest ≡ some (ok tt))
      accepted none rest h = elim (some_ne (sym h)) [ ]
      accepted (some (ok u)) rest h = (refl, h)
      accepted (some (err e)) rest h = elim (err_ne (some_eq h)) [ ]
