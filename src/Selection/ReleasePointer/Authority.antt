-- ===== src/Selection/ReleasePointer/Authority.antt =====
-- Who moves the pointer of selection/release_pointer.py, and when.
use recursive_self_improveme.Common.{
  ◌+◌, String, ◌≡◌, ◌≢◌, refl, ◌⊎◌, inl, inr, Bool-cases, Option, some, Outcome, ok, err, opt_eq,
  opt_eq→eq,
}
use recursive_self_improveme.Common.Effects.{Returned-cases}
use recursive_self_improveme.Security.{
  WorkloadRole, WorkloadIdentity, PermissionDenied, permission_denied, evaluator, candidate_runner,
  release_controller, require_release_swap_authority,
}
use recursive_self_improveme.Selection.ReleasePointer.{
  ReleasePointer, pointer_moved_to, pointer_is_at, refused_by, PointerAuditLog, PointerError,
  ReleasePointerStore, audit_entry, audit, swap, conflict, deny, compare_and_swap,
}

by_role :
    (identity : WorkloadIdentity) (r : WorkloadRole)
    → identity.role ≡ r
    → (((require_release_swap_authority identity ≡ ok tt) × (r ≡ release_controller))
        ⊎ ((e : PermissionDenied) × (require_release_swap_authority identity ≡ err e)
            × (r ≢ release_controller)))
unfolding require_release_swap_authority
by_role identity release_controller h = inl (simp h, refl)
by_role identity evaluator h =
    inr (permission_denied identity "compare-and-swap the active release pointer", simp h, λ e. cc)
by_role identity candidate_runner h =
    inr (permission_denied identity "compare-and-swap the active release pointer", simp h, λ e. cc)

-- The role check passes exactly for the release controller.
pub authority_cases :
    (identity : WorkloadIdentity)
    → ((require_release_swap_authority identity ≡ ok tt) × (identity.role ≡ release_controller))
      ⊎ ((e : PermissionDenied) × (require_release_swap_authority identity ≡ err e)
          × (identity.role ≢ release_controller))
authority_cases identity = by_role identity identity.role refl

module _ {L : Type 0} (audit_log : PointerAuditLog L) (identity : WorkloadIdentity)
    (expected_current : Option String) (new_digest : String) where
  -- One authorised, matching and audited move of the pointer.
  pub record Swapped (s : ReleasePointerStore L) (s' : ReleasePointerStore L) : Type 0 where
    pub authorised : identity.role ≡ release_controller
    pub matched : s.pointer.current_digest ≡ expected_current
    pub audited :
        audit_log.append
          (audit_entry identity expected_current new_digest "allowed"
            (pointer_moved_to new_digest (s.pointer.version + 1)))
          s.log
        ≡ (ok tt, s'.log)
    pub moved :
        s'.pointer ≡ record { current_digest = some new_digest; version = s.pointer.version + 1 }

  -- A call that returns has moved the pointer so, and returns it; one that raises leaves it.
  abbrev pub Effects :
      ReleasePointerStore L → Outcome PointerError ReleasePointer × ReleasePointerStore L → Type 0
  Effects s (ok p, s') = Swapped s s' × (p ≡ s'.pointer)
  Effects s (err e, s') = s'.pointer ≡ s.pointer

  swap-Effects :
      (s : ReleasePointerStore L)
      → identity.role ≡ release_controller
      → s.pointer.current_digest ≡ expected_current
      → Effects s (swap audit_log identity expected_current new_digest s)
  unfolding swap
  swap-Effects s a m =
      let entry =
        audit_entry identity expected_current new_digest "allowed"
          (pointer_moved_to new_digest (s.pointer.version + 1)) in
      elim (Returned-cases (audit_log.append entry s.log)) [
        | inl (_, log, e) ↦
            rw (e, audit) (record { authorised = a; matched = m; audited = e; moved = refl }, refl)
        | inr (message, log, e) ↦ rw (e, audit) refl
      ]

  conflict-Effects :
      (s : ReleasePointerStore L)
      → Effects s (conflict audit_log identity expected_current new_digest s)
  unfolding conflict
  conflict-Effects s =
      let entry =
        audit_entry identity expected_current new_digest "conflict"
          (pointer_is_at s.pointer.current_digest expected_current) in
      elim (Returned-cases (audit_log.append entry s.log)) [
        | inl (_, log, eq) ↦ rw (eq, audit) refl
        | inr (message, log, eq) ↦ rw (eq, audit) refl
      ]

  deny-Effects :
      (s : ReleasePointerStore L) (e : PermissionDenied)
      → Effects s (deny audit_log identity expected_current new_digest e s)
  unfolding deny
  deny-Effects s e =
      let entry = audit_entry identity expected_current new_digest "denied" (refused_by e) in
      elim (Returned-cases (audit_log.append entry s.log)) [
        | inl (_, log, eq) ↦ rw (eq, audit) refl
        | inr (message, log, eq) ↦ rw (eq, audit) refl
      ]

  -- A compare-and-swap that returns was called by the release controller with the digest that the
  -- pointer had, appended its "allowed" entry to the log, and moved the pointer to the new digest
  -- and the next version, which it returns; one that raises, whatever the log does, leaves the
  -- pointer as it was.
  pub compare_and_swap-Effects :
      (s : ReleasePointerStore L)
      → Effects s (compare_and_swap audit_log identity expected_current new_digest s)
  unfolding compare_and_swap
  compare_and_swap-Effects s = elim (authority_cases identity) [
    | inr (e, refused, _) ↦ rw refused (deny-Effects s e)
    | inl (allowed, role) ↦ elim (Bool-cases (opt_eq s.pointer.current_digest expected_current)) [
      | inl matches ↦ rw (allowed, matches) (swap-Effects s role (opt_eq→eq _ _ matches))
      | inr differs ↦ rw (allowed, differs) (conflict-Effects s)
    ]
  ]
