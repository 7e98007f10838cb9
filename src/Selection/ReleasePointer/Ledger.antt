-- ===== src/Selection/ReleasePointer/Ledger.antt =====
-- The in-memory audit log of selection/release_pointer.py is a faithful account of the pointer.
use recursive_self_improveme.Common.{
  suc, ◌+◌, String, ◌≡◌, ◌≢◌, refl, sym, ap, ◌∙◌, ◌⊎◌, inl, inr, false, Bool-cases, Option, none,
  some, List, [], ◌∷◌, ◌++◌, Outcome, ok, err, arith, opt_eq, opt_eq→eq, opt_eq_refl, str_eq,
  if◌then◌else◌, length, length-append,
}
use recursive_self_improveme.Common.Effects.{ok_injective, ok_ne_err}
use recursive_self_improveme.Security.{WorkloadIdentity, PermissionDenied, release_controller}
use recursive_self_improveme.Selection.ReleasePointer.{
  ReleasePointer, refused_by, pointer_is_at, pointer_moved_to, PointerAuditEntry, PointerError,
  ReleasePointerStore, denied, cas_conflict, in_memory_audit_log, audit_entry, compare_and_swap,
}
use recursive_self_improveme.Selection.ReleasePointer.Authority.{authority_cases}

abbrev pub Store : Type 0
Store = ReleasePointerStore (List PointerAuditEntry)

-- The pointer that an audit log accounts for.
abbrev pub apply_entry : ReleasePointer → PointerAuditEntry → ReleasePointer
apply_entry p e =
    if str_eq e.outcome "allowed"
    then record { current_digest = some e.new_digest; version = p.version + 1 }
    else p

abbrev pub account : ReleasePointer → List PointerAuditEntry → ReleasePointer
account p [] = p
account p (e ∷ log) = account (apply_entry p e) log

account-append :
    (p : ReleasePointer) (log : List PointerAuditEntry) (e : PointerAuditEntry)
    → account p (log ++ e ∷ []) ≡ apply_entry (account p log) e
account-append p [] e = refl
account-append p (x ∷ log) e = account-append (apply_entry p x) log e

abbrev pub no_release : ReleasePointer
no_release = record { current_digest = none; version = 0 }

-- What an attempt must do: deny, report a conflict, or move the pointer; and log it in each case.
abbrev pub ExpectedResult :
    WorkloadIdentity
    → Option String
    → String
    → Store
    → Outcome PointerError ReleasePointer × Store
    → Type 0
ExpectedResult identity expected new s r =
    ((e : PermissionDenied) × (identity.role ≢ release_controller)
      × (r ≡ (
        err (denied e),
        record s { log = s.log ++ audit_entry identity expected new "denied" (refused_by e) ∷ [] },
      )))
    ⊎ ((identity.role ≡ release_controller)
        × (s.pointer.current_digest ≢ expected)
        × (r ≡ (
          err (cas_conflict expected s.pointer.current_digest),
          record s {
            log =
                s.log
                ++ audit_entry identity expected new "conflict"
                    (pointer_is_at s.pointer.current_digest expected)
                  ∷ [];
          },
        )))
    ⊎ ((identity.role ≡ release_controller)
        × (s.pointer.current_digest ≡ expected)
        × (r ≡ (
          ok (record { current_digest = some new; version = s.pointer.version + 1 }),
          record {
            pointer = record { current_digest = some new; version = s.pointer.version + 1 };
            log =
                s.log
                ++ audit_entry identity expected new "allowed"
                    (pointer_moved_to new (s.pointer.version + 1))
                  ∷ [];
          },
        )))

opt_ne : (a b : Option String) → opt_eq a b ≡ false → a ≢ b
opt_ne a b h e = cc (sym h ∙ (ap (λ x. opt_eq x b) e ∙ opt_eq_refl b))

module _ (identity : WorkloadIdentity) (expected : Option String) (new : String) (s : Store) where
  -- With the in-memory log: an attempt by another role is denied, one that expects another digest is
  -- a conflict, and any other moves the pointer and raises its version by one; each appends exactly
  -- one entry with the outcome, and the first two leave the pointer.
  pub compare_and_swap_lem :
      ExpectedResult identity expected new s
        (compare_and_swap in_memory_audit_log identity expected new s)
  unfolding compare_and_swap in_memory_audit_log
  compare_and_swap_lem = elim (authority_cases identity) [
    | inr (e, refused, role) ↦ inl (e, role, rw refused)
    | inl (allowed, role) ↦ elim (Bool-cases (opt_eq s.pointer.current_digest expected)) [
      | inl matches ↦ inr (inr (role, opt_eq→eq _ _ matches, rw (allowed, matches)))
      | inr differs ↦ inr (inl (role, opt_ne _ _ differs, rw (allowed, differs)))
    ]
  ]

-- The store after a swap.
abbrev pub swapped_store : WorkloadIdentity → Option String → String → Store → Store
swapped_store identity expected new s = record {
  pointer = record { current_digest = some new; version = s.pointer.version + 1 };
  log =
      s.log
      ++ audit_entry identity expected new "allowed" (pointer_moved_to new (s.pointer.version + 1))
        ∷ [];
}

pub compare_and_swap-succeeds :
    (identity : WorkloadIdentity) (expected : Option String) (new : String) (s : Store)
    → identity.role ≡ release_controller
    → s.pointer.current_digest ≡ expected
    → compare_and_swap in_memory_audit_log identity expected new s
      ≡ (ok (swapped_store identity expected new s).pointer, swapped_store identity expected new s)
compare_and_swap-succeeds identity expected new s role same =
    elim (compare_and_swap_lem identity expected new s) [
      | inl (_, other, _) ↦ absurd (other role)
      | inr (inl (_, differs, _)) ↦ absurd (differs same)
      | inr (inr (_, _, r)) ↦ r
    ]

-- The pointer is the one that the log accounts for, from an initial one.
abbrev pub IsAccounted : ReleasePointer → Store → Type 0
IsAccounted initial s = s.pointer ≡ account initial s.log

compare_and_swap-IsAccounted :
    (initial : ReleasePointer) (identity : WorkloadIdentity) (expected : Option String)
    (new : String) (s : Store)
    → IsAccounted initial s
    → IsAccounted initial (compare_and_swap in_memory_audit_log identity expected new s).1
unfolding audit_entry
compare_and_swap-IsAccounted initial identity expected new s h =
    elim (compare_and_swap_lem identity expected new s) [
      | inl (e, _, r) ↦ rw (r, account-append) h
      | inr (inl (_, _, r)) ↦ rw (r, account-append) h
      | inr (inr (_, _, r)) ↦ rw (r, account-append, ← h) refl
    ]

-- One caller's attempt.
abbrev pub Attempt : Type 0
Attempt = WorkloadIdentity × Option String × String

unfoldable pub attempts : List Attempt → Store → Store
attempts [] s = s
attempts ((identity, expected, new) ∷ rest) s =
    attempts rest (compare_and_swap in_memory_audit_log identity expected new s).1

attempts-IsAccounted :
    (initial : ReleasePointer) (as' : List Attempt) (s : Store)
    → IsAccounted initial s
    → IsAccounted initial (attempts as' s)
unfolding attempts
attempts-IsAccounted initial [] s h = h
attempts-IsAccounted initial ((identity, expected, new) ∷ rest) s h =
    attempts-IsAccounted initial rest
      (compare_and_swap in_memory_audit_log identity expected new s).1
      (compare_and_swap-IsAccounted initial identity expected new s h)

length-compare_and_swap :
    (identity : WorkloadIdentity) (expected : Option String) (new : String) (s : Store)
    → length (compare_and_swap in_memory_audit_log identity expected new s).1.log
      ≡ suc (length s.log)
length-compare_and_swap identity expected new s =
    elim (compare_and_swap_lem identity expected new s) [
      | inl (e, _, r) ↦ one _ r
      | inr (inl (_, _, r)) ↦ one _ r
      | inr (inr (_, _, r)) ↦ one _ r
    ]
  where
    one :
        {p : ReleasePointer} {result : Outcome PointerError ReleasePointer}
        (entry : PointerAuditEntry)
        → compare_and_swap in_memory_audit_log identity expected new s
          ≡ (result, record { pointer = p; log = s.log ++ entry ∷ [] })
        → length (compare_and_swap in_memory_audit_log identity expected new s).1.log
          ≡ suc (length s.log)
    one entry r =
        ap (λ (x : Outcome PointerError ReleasePointer × Store). length x.1.log) r
        ∙ omega (arith, length-append s.log (entry ∷ []))

length-attempts :
    (as' : List Attempt) (s : Store) → length (attempts as' s).log ≡ length s.log + length as'
unfolding attempts
length-attempts [] s = omega arith
length-attempts ((identity, expected, new) ∷ rest) s =
    length-attempts rest (compare_and_swap in_memory_audit_log identity expected new s).1
    ∙ omega (arith, length-compare_and_swap identity expected new s)

-- After any attempts, by any callers, on a new store: the log has one entry for each attempt, and
-- the pointer is the one that its allowed entries account for, the version being their number.
pub attempts-ledger :
    (as' : List Attempt)
    → (length (attempts as' (record { pointer = no_release; log = [] })).log ≡ length as')
      × IsAccounted no_release (attempts as' (record { pointer = no_release; log = [] }))
attempts-ledger as' = (
  length-attempts as' (record { pointer = no_release; log = [] }) ∙ omega arith,
  attempts-IsAccounted no_release as' (record { pointer = no_release; log = [] }) refl,
)

-- No lost update: after a swap from `expected` to another digest, a second controller that still
-- expects the old one gets a conflict with the actual digest, and the pointer stays.
pub second_swap_conflicts :
    (first second : WorkloadIdentity) (expected : Option String) (new other : String) (s s' : Store)
    (p : ReleasePointer)
    → expected ≢ some new
    → second.role ≡ release_controller
    → compare_and_swap in_memory_audit_log first expected new s ≡ (ok p, s')
    → ((compare_and_swap in_memory_audit_log second expected other s').0
        ≡ err (cas_conflict expected (some new)))
      × ((compare_and_swap in_memory_audit_log second expected other s').1.pointer ≡ s'.pointer)
second_swap_conflicts first second expected new other s s' p ne role h =
    elim (compare_and_swap_lem second expected other s') [
      | inl (_, other_role, _) ↦ absurd (other_role role)
      | inr (inl (_, _, r)) ↦ (
        ap (λ (x : Outcome PointerError ReleasePointer × Store). x.0) r
            ∙ ap (λ (d : Option String). err (cas_conflict expected d)) moved,
        ap (λ (x : Outcome PointerError ReleasePointer × Store). x.1.pointer) r,
      )
      | inr (inr (_, still, _)) ↦ absurd (ne (sym still ∙ moved))
    ]
  where
    moved : s'.pointer.current_digest ≡ some new
    moved = elim (compare_and_swap_lem first expected new s) [
      | inl (_, _, r) ↦ absurd (ok_ne_err (sym h ∙ r))
      | inr (inl (_, _, r)) ↦ absurd (ok_ne_err (sym h ∙ r))
      | inr (inr (_, _, r)) ↦
          ap (λ (x : Store). x.pointer.current_digest) (ok_injective (sym h ∙ r)).1
    ]
