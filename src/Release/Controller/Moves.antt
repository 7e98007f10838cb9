-- ===== src/Release/Controller/Moves.antt =====
-- What activation and rollback of release/controller.py do to the pointer.
use recursive_self_improveme.Common.{
  String, ◌≡◌, ◌≢◌, refl, ap, ◌∙◌, Bool, true, false, Option, some, Option-cases, Outcome, ok, err,
  Outcome-cases, arith, opt_eq, opt_eq_refl, if◌then◌else◌, inl, inr,
}
use recursive_self_improveme.Security.{Crypto}
use recursive_self_improveme.Selection.ReleasePointer.{
  ReleasePointer, PointerAuditLog, PointerError, ReleasePointerStore, compare_and_swap,
}
use recursive_self_improveme.Selection.ReleasePointer.Authority.{
  Swapped, Effects, compare_and_swap-Effects,
}
use recursive_self_improveme.Release.Manifest.{
  SignedReleaseManifest, ReleaseError, circular_manifest, verify_release_manifest,
  assert_distinct_from_prior,
}
use recursive_self_improveme.Release.Controller.{
  ReleaseController, through, cas, activate, rollback,
}

distinct_lem :
    (m : SignedReleaseManifest)
    → assert_distinct_from_prior m ≡ ok tt
    → m.prior_release_digest ≢ some m.manifest_digest
unfolding assert_distinct_from_prior
distinct_lem m h e =
    passed (opt_eq m.prior_release_digest (some m.manifest_digest)) h
      (ap (λ d. opt_eq d (some m.manifest_digest)) e ∙ opt_eq_refl (some m.manifest_digest))
  where
    passed :
        (b : Bool)
        → ◌≡◌ {A = Outcome ReleaseError (Unit {0})}
            (if b then err (circular_manifest m.manifest_digest) else ok tt)
            (ok tt)
        → b ≡ true
        → ⊥
    passed true h e = ground arith
    passed false h e = ground arith

module _ {L : Type 0} (crypto : Crypto) (audit_log : PointerAuditLog L)
    (controller : ReleaseController) where
  -- A move that returns is a swap by the controller's identity; one that raises leaves the pointer.
  abbrev pub Moves :
      Option String
      → String
      → ReleasePointerStore L
      → Outcome ReleaseError ReleasePointer × ReleasePointerStore L
      → Type 0
  Moves expected new s (ok p, s') =
      Swapped audit_log controller.identity expected new s s' × (p ≡ s'.pointer)
  Moves expected new s (err e, s') = s'.pointer ≡ s.pointer

  through-Moves :
      (expected : Option String) (new : String) (s : ReleasePointerStore L)
      (r : Outcome PointerError ReleasePointer × ReleasePointerStore L)
      → Effects audit_log controller.identity expected new s r
      → Moves expected new s (through r)
  unfolding through
  through-Moves expected new s (ok p, s') h = h
  through-Moves expected new s (err e, s') h = h

  cas-Moves :
      (expected : Option String) (new : String) (s : ReleasePointerStore L)
      → Moves expected new s (cas crypto audit_log controller expected new s)
  unfolding cas
  cas-Moves expected new s =
      through-Moves expected new s (compare_and_swap audit_log controller.identity expected new s)
        (compare_and_swap-Effects audit_log controller.identity expected new s)

  -- An activation that returns had a verified manifest that is not its own prior, and moved the
  -- pointer from what it was to the manifest's digest; one that raises leaves the pointer.
  abbrev pub Activates :
      SignedReleaseManifest
      → ReleasePointerStore L
      → Outcome ReleaseError ReleasePointer × ReleasePointerStore L
      → Type 0
  Activates m s (ok p, s') =
      (verify_release_manifest crypto m ≡ ok tt)
      × (m.prior_release_digest ≢ some m.manifest_digest)
      × Moves s.pointer.current_digest m.manifest_digest s (ok p, s')
  Activates m s (err e, s') = s'.pointer ≡ s.pointer

  Moves-Activates :
      (m : SignedReleaseManifest) (s : ReleasePointerStore L)
      (r : Outcome ReleaseError ReleasePointer × ReleasePointerStore L)
      → verify_release_manifest crypto m ≡ ok tt
      → m.prior_release_digest ≢ some m.manifest_digest
      → Moves s.pointer.current_digest m.manifest_digest s r
      → Activates m s r
  Moves-Activates m s (ok p, s') v d h = (v, d, h)
  Moves-Activates m s (err e, s') v d h = h

  -- An activation that returns had a manifest that verifies and is not its own prior, and was a
  -- swap, by the controller's identity, of the pointer from what it was to the manifest's digest;
  -- one that raises leaves the pointer as it was.
  pub activate-Activates :
      (m : SignedReleaseManifest) (s : ReleasePointerStore L)
      → Activates m s (activate crypto audit_log controller m s)
  unfolding activate
  activate-Activates m s = elim (Outcome-cases (verify_release_manifest crypto m)) [
    | inr (e, refused) ↦ rw refused refl
    | inl (_, verified) ↦ elim (Outcome-cases (assert_distinct_from_prior m)) [
      | inr (e, circular) ↦ rw (verified, circular) refl
      | inl (_, distinct) ↦
          rw (verified, distinct)
            (Moves-Activates m s _ verified (distinct_lem m distinct)
              (cas-Moves s.pointer.current_digest m.manifest_digest s))
    ]
  ]

  -- A rollback that returns had a verified manifest with a prior release, and moved the pointer from
  -- the manifest's digest to the prior one; one that raises leaves the pointer.
  abbrev pub RollsBack :
      SignedReleaseManifest
      → ReleasePointerStore L
      → Outcome ReleaseError ReleasePointer × ReleasePointerStore L
      → Type 0
  RollsBack m s (ok p, s') =
      (verify_release_manifest crypto m ≡ ok tt)
      × ((prior : String) × (m.prior_release_digest ≡ some prior)
          × Moves (some m.manifest_digest) prior s (ok p, s'))
  RollsBack m s (err e, s') = s'.pointer ≡ s.pointer

  Moves-RollsBack :
      (m : SignedReleaseManifest) (s : ReleasePointerStore L) (prior : String)
      (r : Outcome ReleaseError ReleasePointer × ReleasePointerStore L)
      → verify_release_manifest crypto m ≡ ok tt
      → m.prior_release_digest ≡ some prior
      → Moves (some m.manifest_digest) prior s r
      → RollsBack m s r
  Moves-RollsBack m s prior (ok p, s') v d h = (v, (prior, d, h))
  Moves-RollsBack m s prior (err e, s') v d h = h

  -- A rollback that returns had a manifest that verifies and names a prior release, and was a swap,
  -- by the controller's identity, of the pointer from the manifest's digest to the prior one; one
  -- that raises leaves the pointer as it was.
  pub rollback-RollsBack :
      (m : SignedReleaseManifest) (s : ReleasePointerStore L)
      → RollsBack m s (rollback crypto audit_log controller m s)
  unfolding rollback
  rollback-RollsBack m s = elim (Outcome-cases (verify_release_manifest crypto m)) [
    | inr (e, refused) ↦ rw refused refl
    | inl (_, verified) ↦ elim (Option-cases m.prior_release_digest) [
      | inl root ↦ rw (verified, root) refl
      | inr (prior, has) ↦ rw verified (
          simp has
            (Moves-RollsBack m s prior _ verified has (cas-Moves (some m.manifest_digest) prior s)))
    ]
  ]
