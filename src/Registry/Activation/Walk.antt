-- ===== src/Registry/Activation/Walk.antt =====
-- The walk of registry/service.py over the dependency graph ends.
use recursive_self_improveme.Common.{
  ℕ, zero, suc, ◌≤◌, ◌<◌, String, ◌≡◌, refl, sym, subst, inl, inr, true, false, ◌&&◌, Option, none,
  some, List, [], ◌∷◌, arith, str_eq, str_eq_iff, if◌then◌else◌, Bool-cases, Option-cases, some_ne,
  length, Outcome, ok, err,
}
use recursive_self_improveme.Release.Manifest.{has_text}
use recursive_self_improveme.Registry.Activation.{
  RegistryError, artifact_not_found, circular_metadata, RegisteredArtifact, find_artifact, push_all,
  walk, after_walk, assert_acyclic,
}

-- The rows that the walk has not visited.
unseen : List String → List RegisteredArtifact → ℕ
unseen visited [] = 0
unseen visited (a ∷ rest) =
    if has_text visited a.digest then unseen visited rest else suc (unseen visited rest)

unseen-bounds :
    (visited : List String) (rows : List RegisteredArtifact) → unseen visited rows ≤ length rows
unfolding unseen
unseen-bounds visited [] = omega arith
unseen-bounds visited (a ∷ rest) = let ih = unseen-bounds visited rest in ground arith

unseen-visit :
    (c : String) (visited : List String) (rows : List RegisteredArtifact)
    → unseen (c ∷ visited) rows ≤ unseen visited rows
unfolding unseen has_text
unseen-visit c visited [] = omega arith
unseen-visit c visited (a ∷ rest) = let ih = unseen-visit c visited rest in ground arith

same_digest : (u t d c : String) → (str_eq u t && str_eq d c) ≡ true → d ≡ c
same_digest u t d c h = ground (arith, str_eq_iff d c)

-- Visiting a row that is not visited leaves fewer.
fewer :
    (c tenant : String) (visited : List String) (rows : List RegisteredArtifact)
    (a : RegisteredArtifact)
    → has_text visited c ≡ false
    → find_artifact tenant c rows ≡ some a
    → unseen (c ∷ visited) rows < unseen visited rows
unfolding unseen has_text find_artifact
fewer c tenant visited [] a v f = elim (some_ne (sym f)) [ ]
fewer c tenant visited (x ∷ rest) a v f =
    elim (Bool-cases (str_eq x.tenant_id tenant && str_eq x.digest c)) [
      | inl e ↦
          let m = same_digest x.tenant_id tenant x.digest c e in
          let w = subst (λ d. has_text visited d ≡ false) (sym m) v in
          let q = (str_eq_iff c x.digest).1 (sym m) in
          let u = unseen-visit c visited rest in rw (q, w) (omega (arith, u))
      | inr e ↦
          let ih = fewer c tenant visited rest a v (rw (e, find_artifact) at f) in ground arith
    ]

module _ (rows : List RegisteredArtifact) (tenant : String) where
  walk-ends :
      (fuel : ℕ) (visited stack : List String)
      → unseen visited rows < fuel
      → (outcome : Outcome RegistryError (Unit {0})) × (walk rows tenant fuel visited stack
          ≡ some outcome)
  unfolding walk
  walk-ends fuel visited [] h = (ok tt, refl)
  walk-ends zero visited (c ∷ stack) h = ground arith
  walk-ends (suc fuel) visited (c ∷ stack) h = elim (Bool-cases (has_text visited c)) [
    | inl e ↦ (err (circular_metadata c), rw (e, walk) refl)
    | inr e ↦ elim (Option-cases (find_artifact tenant c rows)) [
      | inl f ↦ (err (artifact_not_found c), rw (e, f, walk) refl)
      | inr f ↦
          let less = fewer c tenant visited rows f.0 e f.1 in
          let rest =
            walk-ends fuel (c ∷ visited) (push_all f.0.dependencies stack)
              (omega (arith, less, h)) in
          (rest.0, rw (e, f.1, walk) rest.1)
    ]
  ]

  -- The fuel that each root is given is enough: the check of the graph always has an outcome.
  pub assert_acyclic-ends :
      (roots : List String)
      → (outcome : Outcome RegistryError (Unit {0})) × (assert_acyclic rows tenant roots
          ≡ some outcome)
  unfolding assert_acyclic after_walk
  assert_acyclic-ends [] = (ok tt, refl)
  assert_acyclic-ends (root ∷ roots) =
      let bound = unseen-bounds [] rows in
      let first = walk-ends (suc (length rows)) [] (root ∷ []) (omega (arith, bound)) in
      let rest = assert_acyclic-ends roots in
      joined (walk rows tenant (suc (length rows)) [] (root ∷ [])) first.0 first.1 rest.0 rest.1
    where
      joined :
          (w : Option (Outcome RegistryError (Unit {0}))) (o : Outcome RegistryError (Unit {0}))
          → w ≡ some o
          → (p : Outcome RegistryError (Unit {0})) → assert_acyclic rows tenant roots ≡ some p
          → (outcome : Outcome RegistryError (Unit {0})) × (after_walk rows tenant w
                (assert_acyclic rows tenant roots)
              ≡ some outcome)
      joined none o e p f = elim (some_ne (sym e)) [ ]
      joined (some (ok u)) o e p f = (p, f)
      joined (some (err x)) o e p f = (err x, refl)
