-- ===== src/Registry/Activation/Accepted.antt =====
-- What `activate_release` of registry/service.py accepts.
use recursive_self_improveme.Common.{
  String, ◌≡◌, refl, sym, subst, ◌⊎◌, inl, inr, true, Option, none, some, List, [], ◌∷◌, arith,
  str_eq, str_eq_iff, Bool-cases, Option-cases, some_eq, some_ne, is_empty, All, Any, Outcome, ok,
  err, ok_eq, err_ne,
}
use recursive_self_improveme.Security.{Crypto, verify}
use recursive_self_improveme.Registry.{manifest_body_bytes}
use recursive_self_improveme.Release.Manifest.{has_text, fromkeys}
use recursive_self_improveme.Registry.Activation.{
  RegistryError, RegisteredArtifact, ReleaseManifest, find_artifact, find_manifest, outside_of,
  require_all, check_request, after_walk, activated, activate_release,
}
use recursive_self_improveme.Registry.Activation.Walk.{assert_acyclic-ends}
use recursive_self_improveme.Registry.Activation.Acyclic.{Reaches, Cyclic, assert_acyclic_lem}

-- The manifest's signature is over its body.
abbrev pub IsSigned : Crypto → ReleaseManifest → Type 0
IsSigned crypto m =
    verify crypto (record { signature = m.signature; public_key = m.signer_public_key })
      (manifest_body_bytes m.artifact_digests m.adapter_versions m.model_routes m.policies
        m.prior_release_digest)
    ≡ true

-- The manifest resolves the digest, and the tenant has registered it.
abbrev pub IsResolved : List RegisteredArtifact → String → ReleaseManifest → String → Type 0
IsResolved rows tenant m d =
    (has_text m.artifact_digests d ≡ true)
    × ((a : RegisteredArtifact) × (find_artifact tenant d rows ≡ some a))

outside_of_none :
    (resolved ds : List String)
    → is_empty (outside_of resolved ds) ≡ true
    → All (λ d. has_text resolved d ≡ true) ds
unfolding outside_of
outside_of_none resolved [] h = tt
outside_of_none resolved (d ∷ ds) h = elim (Bool-cases (has_text resolved d)) [
  | inl i ↦ (i, outside_of_none resolved ds (rw (i, outside_of) at h))
  | inr o ↦ ground (arith, rw (o, outside_of) at h)
]

module _ (rows : List RegisteredArtifact) (tenant : String) where
  require_all_ok :
      (ds : List String)
      → require_all rows tenant ds ≡ ok tt
      → All (λ d. (a : RegisteredArtifact) × (find_artifact tenant d rows ≡ some a)) ds
  unfolding require_all
  require_all_ok [] h = tt
  require_all_ok (d ∷ ds) h = elim (Option-cases (find_artifact tenant d rows)) [
    | inl f ↦ elim (err_ne (rw (f, require_all) at h)) [ ]
    | inr f ↦ (f, require_all_ok ds (rw (f.1, require_all) at h))
  ]

  after_walk_ok :
      (first : Outcome RegistryError (Unit {0})) (rest : Option (Outcome RegistryError (Unit {0})))
      → after_walk rows tenant (some first) rest ≡ some (ok tt)
      → (first ≡ ok tt) × (rest ≡ some (ok tt))
  unfolding after_walk
  after_walk_ok (err e) rest h = elim (err_ne (some_eq h)) [ ]
  after_walk_ok (ok u) rest h = (refl, h)

-- What holds of all holds of each.
All-at {ℓ} :
    (P : String → Type ℓ) (xs : List String) (d : String) → All P xs → Any (λ e. e ≡ d) xs → P d
All-at P [] d h m = elim m [ ]
All-at P (x ∷ xs) d h (inl e) = subst P e h.0
All-at P (x ∷ xs) d h (inr k) = All-at P xs d h.1 k

-- A request names what it asks for, once it is behind those seen.
fromkeys_member :
    (seen ss : List String) (d : String)
    → Any (λ e. e ≡ d) ss
    → (has_text seen d ≡ true) ⊎ Any (λ e. e ≡ d) (fromkeys seen ss)
unfolding fromkeys has_text
fromkeys_member seen [] d h = elim h [ ]
fromkeys_member seen (s ∷ ss) d h = elim (Bool-cases (has_text seen s)) [
  | inl i ↦
      rw (i, fromkeys)
        (elim h [
          | inl e ↦ inl (subst (λ t. has_text seen t ≡ true) e i)
          | inr k ↦ fromkeys_member seen ss d k
        ])
  | inr o ↦
      rw (o, fromkeys)
        (elim h [
          | inl e ↦ inr (inl e)
          | inr k ↦ elim (fromkeys_member (s ∷ seen) ss d k) [
            | inl i ↦ elim (Bool-cases (str_eq s d)) [
              | inl e ↦ inr (inl ((str_eq_iff s d).0 e))
              | inr n ↦ inl (ground (arith, rw (n, has_text) at i))
            ]
            | inr later ↦ inr (inr later)
          ]
        ])
]

fromkeys_keeps :
    (ss : List String) (d : String) → Any (λ e. e ≡ d) ss → Any (λ e. e ≡ d) (fromkeys [] ss)
unfolding has_text
fromkeys_keeps ss d h = elim (fromkeys_member [] ss d h) [ inl i ↦ ground arith | inr k ↦ k ]

abbrev Ends {ℓ} : {A : Type ℓ} → Option A → Type ℓ
Ends {A = A} o = (outcome : A) × (o ≡ some outcome)

after_walk-Ends :
    (rows : List RegisteredArtifact) (tenant : String) (first : Outcome RegistryError (Unit {0}))
    {rest : Option (Outcome RegistryError (Unit {0}))}
    → Ends rest
    → Ends (after_walk rows tenant (some first) rest)
unfolding after_walk
after_walk-Ends rows tenant (err e) h = (err e, refl)
after_walk-Ends rows tenant (ok u) h = h

module _ (crypto : Crypto) (rows : List RegisteredArtifact) (manifests : List ReleaseManifest)
    (tenant : String) where
  activated-Ends :
      (m : ReleaseManifest) {r : Option (Outcome RegistryError (Unit {0}))}
      → Ends r
      → Ends (activated crypto m r)
  unfolding activated
  activated-Ends m (err e, h) = rw h (err e, refl)
  activated-Ends m (ok u, h) = rw h (ok m, refl)

  -- An activation always comes to an end: the fuel of the walks does not run out.
  pub activate_release-ends :
      (digest : String) (requested : List String)
      → (outcome : Outcome RegistryError ReleaseManifest) × (activate_release crypto rows manifests
            tenant digest requested
          ≡ some outcome)
  unfolding activate_release
  activate_release-ends digest requested =
      let keys = fromkeys [] requested in
      elim (Option-cases (find_manifest tenant digest manifests)) [
        | inl f ↦ rw (f, activate_release) (_, refl)
        | inr f ↦
            rw (f.1, activate_release)
              (activated-Ends f.0 (
                after_walk-Ends rows tenant (check_request crypto rows tenant f.0 keys)
                  (assert_acyclic-ends rows tenant keys)))
      ]

  activated_ok :
      (m n : ReleaseManifest) (r : Option (Outcome RegistryError (Unit {0})))
      → activated crypto m r ≡ some (ok n)
      → (r ≡ some (ok tt)) × (m ≡ n)
  unfolding activated
  activated_ok m n none h = elim (some_ne (sym h)) [ ]
  activated_ok m n (some (err e)) h = elim (err_ne (some_eq h)) [ ]
  activated_ok m n (some (ok u)) h = (refl, ok_eq (some_eq h))

  check_request_ok :
      (m : ReleaseManifest) (keys : List String)
      → check_request crypto rows tenant m keys ≡ ok tt
      → IsSigned crypto m
        × All (λ d. has_text m.artifact_digests d ≡ true) keys
        × All (λ d. (a : RegisteredArtifact) × (find_artifact tenant d rows ≡ some a)) keys
  unfolding check_request
  check_request_ok m keys h =
      let signed =
        verify crypto (record { signature = m.signature; public_key = m.signer_public_key })
          (manifest_body_bytes m.artifact_digests m.adapter_versions m.model_routes m.policies
            m.prior_release_digest) in
      elim (Bool-cases signed) [
        | inr f ↦ elim (err_ne (rw (f, check_request) at h)) [ ]
        | inl s ↦ elim (Bool-cases (is_empty (outside_of m.artifact_digests keys))) [
          | inr f ↦ elim (err_ne (rw (s, f, check_request) at h)) [ ]
          | inl e ↦ (
            s,
            outside_of_none m.artifact_digests keys e,
            require_all_ok rows tenant keys (rw (s, e, check_request) at h),
          )
        ]
      ]

  -- A manifest is activated only if it is stored under the digest, its signature is over its body, and
  -- every artifact of the request is one that it resolves and that the tenant has registered, from which
  -- no artifact is reached that depends on itself, however indirectly.
  pub activate_release_lem :
      (digest : String) (requested : List String) (m : ReleaseManifest)
      → activate_release crypto rows manifests tenant digest requested ≡ some (ok m)
      → (find_manifest tenant digest manifests ≡ some m)
        × IsSigned crypto m
        × ((d x : String)
            → Any (λ e. e ≡ d) requested
            → IsResolved rows tenant m d × (Reaches rows tenant d x → ¬ Cyclic rows tenant x))
  unfolding activate_release
  activate_release_lem digest requested n h =
      let keys = fromkeys [] requested in
      elim (Option-cases (find_manifest tenant digest manifests)) [
        | inl f ↦ elim (err_ne (some_eq (rw (f, activate_release) at h))) [ ]
        | inr (m, f) ↦
            let a = activated_ok m n _ (rw (f, activate_release) at h) in
            let w = after_walk_ok rows tenant (check_request crypto rows tenant m keys) _ a.0 in
            let c = check_request_ok m keys w.0 in
            subst
              (λ n.
                (find_manifest tenant digest manifests ≡ some n)
                × IsSigned crypto n
                × ((d x : String)
                    → Any (λ e. e ≡ d) requested
                    → IsResolved rows tenant n d
                      × (Reaches rows tenant d x → ¬ Cyclic rows tenant x)))
              a.1
              (
                f,
                c.0,
                λ d x asked.
                    let key = fromkeys_keeps requested d asked in
                    (
                      (All-at _ keys d c.1 key, All-at _ keys d c.2 key),
                      λ reach. assert_acyclic_lem rows tenant keys d x w.1 key reach,
                    ),
              )
      ]
