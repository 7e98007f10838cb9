-- ===== src/Release/Controller.antt =====
-- The release controller: release/controller.py.
pub mod Moves
pub mod Undo
use recursive_self_improveme.Common.{
  String, Bool, true, false, not, Option, none, some, Outcome, ok, err, str_eq, if◌then◌else◌,
}
use recursive_self_improveme.Common.Effects.{Effect, raise, lift, ◌>>=◌, ◌>>◌}
use recursive_self_improveme.Security.{
  Crypto, WorkloadRole, WorkloadIdentity, permission_denied, release_controller, role_value,
}
use recursive_self_improveme.Selection.ReleasePointer.{
  ReleasePointer, PointerAuditLog, PointerError, ReleasePointerStore, compare_and_swap,
}
use recursive_self_improveme.Release.Manifest.{
  SignedReleaseManifest, ReleaseError, not_permitted, pointer_refused, rollback_unavailable,
  verify_release_manifest, assert_distinct_from_prior,
}

-- `ReleaseController`: the identity that its constructor accepted.
pub record ReleaseController : Type 0 where
  pub identity : WorkloadIdentity

unfoldable pub new_controller : WorkloadIdentity → Outcome ReleaseError ReleaseController
unfolding role_value
new_controller identity =
    if not (str_eq (role_value identity.role) (role_value release_controller))
    then err (not_permitted (permission_denied identity "operate the release controller"))
    else ok (record { identity = identity })

through :
    {L : Type 0}
    → Outcome PointerError ReleasePointer × ReleasePointerStore L
    → Outcome ReleaseError ReleasePointer × ReleasePointerStore L
through (ok p, s) = (ok p, s)
through (err e, s) = (err (pointer_refused e), s)

unfoldable pub active_digest : {L : Type 0} → ReleasePointerStore L → Option String
active_digest s = s.pointer.current_digest

module _ {L : Type 0} (crypto : Crypto) (audit_log : PointerAuditLog L)
    (controller : ReleaseController) where
  cas : Option String → String → Effect (ReleasePointerStore L) ReleaseError ReleasePointer
  unfolding through
  cas expected new s = through (compare_and_swap audit_log controller.identity expected new s)

  unfoldable pub activate :
      SignedReleaseManifest → Effect (ReleasePointerStore L) ReleaseError ReleasePointer
  unfolding cas
  activate m = do
    lift (verify_release_manifest crypto m)
    lift (assert_distinct_from_prior m)
    λ s. cas s.pointer.current_digest m.manifest_digest s

  unfoldable pub rollback :
      SignedReleaseManifest → Effect (ReleasePointerStore L) ReleaseError ReleasePointer
  unfolding cas
  rollback m = do
    lift (verify_release_manifest crypto m)
    elim m.prior_release_digest [
      | none ↦ raise (rollback_unavailable m.manifest_digest)
      | some prior ↦ cas (some m.manifest_digest) prior
    ]
