-- ===== src/Selection/ReleasePointer.antt =====
-- The active release pointer and its compare-and-swap: selection/release_pointer.py.
pub mod Authority
pub mod Ledger
mod Examples
use recursive_self_improveme.Common.{
  ℕ, ◌+◌, String, Bool, true, false, Option, none, some, List, [], ◌∷◌, ◌++◌, Outcome, ok, err,
  opt_eq, if◌then◌else◌, not,
}
use recursive_self_improveme.Common.Effects.{Effect, pure, raise, ◌>>=◌, ◌>>◌}
use recursive_self_improveme.Security.{
  WorkloadIdentity, PermissionDenied, permission_denied, role_value, require_release_swap_authority,
}

pub record ReleasePointer : Type 0 where
  pub current_digest : Option String
  pub version : ℕ

-- The `detail` text of an entry, as the values that it is made of.
pub data Detail : Type 0 where
  refused_by : PermissionDenied → Detail
  pointer_is_at : Option String → Option String → Detail
  pointer_moved_to : String → ℕ → Detail

pub record PointerAuditEntry : Type 0 where
  pub actor_subject : String
  pub actor_role : String
  pub action : String
  pub outcome : String
  pub expected_digest : Option String
  pub new_digest : String
  pub detail : Detail

-- An audit log over what it holds, `L`; `append` may raise.
pub record PointerAuditLog (L : Type 0) : Type 0 where
  pub append : PointerAuditEntry → Effect L String (Unit {0})

unfoldable pub in_memory_audit_log : PointerAuditLog (List PointerAuditEntry)
in_memory_audit_log = record { append = λ entry log. (ok tt, log ++ entry ∷ []) }

pub data PointerError : Type 0 where
  denied : PermissionDenied → PointerError
  cas_conflict : Option String → Option String → PointerError
  pointer_audit : String → String → PointerError

-- `ReleasePointerStore`: the pointer, and what the audit log holds.
pub record ReleasePointerStore (L : Type 0) : Type 0 where
  pub pointer : ReleasePointer
  pub log : L

unfoldable pub audit_entry :
    WorkloadIdentity → Option String → String → String → Detail → PointerAuditEntry
unfolding role_value
audit_entry identity expected_current new_digest outcome detail = record {
  actor_subject = identity.subject;
  actor_role = role_value identity.role;
  action = "release-pointer-cas";
  outcome = outcome;
  expected_digest = expected_current;
  new_digest = new_digest;
  detail = detail;
}

unfoldable pub audited :
    {L : Type 0}
    → WorkloadIdentity
    → Outcome String (Unit {0}) × L
    → ReleasePointer
    → Outcome PointerError (Unit {0}) × ReleasePointerStore L
audited identity (ok _, log) pointer = (ok tt, record { pointer = pointer; log = log })
audited identity (err message, log) pointer =
    (err (pointer_audit identity.subject message), record { pointer = pointer; log = log })

module _ {L : Type 0} (audit_log : PointerAuditLog L) where
  -- `_audit`
  unfoldable pub audit :
      WorkloadIdentity
      → Option String
      → String
      → String
      → Detail
      → Effect (ReleasePointerStore L) PointerError (Unit {0})
  unfolding audit_entry audited
  audit identity expected_current new_digest outcome detail s =
      audited identity
        (audit_log.append (audit_entry identity expected_current new_digest outcome detail) s.log)
        s.pointer

  move_pointer : ReleasePointer → Effect (ReleasePointerStore L) PointerError ReleasePointer
  move_pointer swapped s = (ok swapped, record s { pointer = swapped })

  unfoldable pub swap :
      WorkloadIdentity
      → Option String
      → String
      → Effect (ReleasePointerStore L) PointerError ReleasePointer
  unfolding audit move_pointer
  swap identity expected_current new_digest s =
      let swapped : ReleasePointer = record {
        current_digest = some new_digest;
        version = s.pointer.version + 1;
      } in
      (do
        audit identity expected_current new_digest "allowed"
            (pointer_moved_to new_digest swapped.version)
        move_pointer swapped)
        s

  unfoldable pub conflict :
      WorkloadIdentity
      → Option String
      → String
      → Effect (ReleasePointerStore L) PointerError ReleasePointer
  unfolding audit
  conflict identity expected_current new_digest s =
      (do
        audit identity expected_current new_digest "conflict"
            (pointer_is_at s.pointer.current_digest expected_current)
        raise (cas_conflict expected_current s.pointer.current_digest))
        s

  unfoldable pub deny :
      WorkloadIdentity
      → Option String
      → String
      → PermissionDenied
      → Effect (ReleasePointerStore L) PointerError ReleasePointer
  unfolding audit
  deny identity expected_current new_digest e = do
    audit identity expected_current new_digest "denied" (refused_by e)
    raise (denied e)

  after_authority :
      Outcome PermissionDenied (Unit {0})
      → WorkloadIdentity
      → Option String
      → String
      → Effect (ReleasePointerStore L) PointerError ReleasePointer
  after_authority (err e) identity expected_current new_digest =
      deny identity expected_current new_digest e
  after_authority (ok _) identity expected_current new_digest = λ s.
      if not (opt_eq s.pointer.current_digest expected_current)
      then conflict identity expected_current new_digest s
      else swap identity expected_current new_digest s

  unfoldable pub compare_and_swap :
      WorkloadIdentity
      → Option String
      → String
      → Effect (ReleasePointerStore L) PointerError ReleasePointer
  unfolding after_authority swap conflict deny
  compare_and_swap identity expected_current new_digest =
      after_authority (require_release_swap_authority identity) identity expected_current new_digest
