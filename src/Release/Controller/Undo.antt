-- ===== src/Release/Controller/Undo.antt =====
-- Rollback of release/controller.py undoes activation.
use recursive_self_improveme.Common.{
  ◌+◌, String, ◌≡◌, ◌≢◌, refl, sym, some, ok, opt_eq, Bool-cases, opt_eq→eq, inl, inr,
}
use recursive_self_improveme.Security.{Crypto, release_controller}
use recursive_self_improveme.Selection.ReleasePointer.{in_memory_audit_log}
use recursive_self_improveme.Selection.ReleasePointer.Ledger.{
  Store, swapped_store, compare_and_swap-succeeds,
}
use recursive_self_improveme.Release.Manifest.{
  SignedReleaseManifest, verify_release_manifest, assert_distinct_from_prior,
}
use recursive_self_improveme.Release.Controller.{
  ReleaseController, through, cas, activate, rollback,
}

module _ (crypto : Crypto) (controller : ReleaseController) (m : SignedReleaseManifest) (s : Store)
    (role : controller.identity.role ≡ release_controller)
    (verified : verify_release_manifest crypto m ≡ ok tt)
    (distinct : m.prior_release_digest ≢ some m.manifest_digest) where
  distinct-passes : assert_distinct_from_prior m ≡ ok tt
  unfolding assert_distinct_from_prior
  distinct-passes = elim (Bool-cases (opt_eq m.prior_release_digest (some m.manifest_digest))) [
    | inl same ↦ absurd (distinct (opt_eq→eq _ _ same))
    | inr other ↦ rw other
  ]

  abbrev activated : Store
  activated = swapped_store controller.identity s.pointer.current_digest m.manifest_digest s

  -- The release controller activates any verified manifest that is not its own prior.
  pub activate-succeeds :
      activate crypto in_memory_audit_log controller m s ≡ (ok activated.pointer, activated)
  unfolding activate cas through
  activate-succeeds = rw (
    verified,
    distinct-passes,
    compare_and_swap-succeeds controller.identity s.pointer.current_digest m.manifest_digest s role
        refl,
  )

  -- If the manifest names the active release as its prior, then activating it and rolling it back
  -- returns the pointer to the digest that it had, two versions later.
  pub rollback-activate :
      (prior : String)
      → m.prior_release_digest ≡ some prior
      → s.pointer.current_digest ≡ some prior
      → (let after =
            rollback crypto in_memory_audit_log controller m
              (activate crypto in_memory_audit_log controller m s).1 in
          (after.0 ≡ ok after.1.pointer)
          × (after.1.pointer.current_digest ≡ s.pointer.current_digest)
          × (after.1.pointer.version ≡ s.pointer.version + 1 + 1))
  unfolding rollback cas through
  rollback-activate prior has active =
      rw (activate-succeeds, verified)
        (simp
          (
            has,
            compare_and_swap-succeeds controller.identity (some m.manifest_digest) prior activated
                role refl,
          )
          (refl, sym active, refl))
