-- ===== src/Release/Invalidation.antt =====
-- The invalidation policy and its executor: release/invalidation.py.
pub mod Policies
pub mod Handling
mod Examples
use recursive_self_improveme.Common.{
  ℕ, zero, suc, ◌+◌, ◌-◌, ◌*◌, ◌/◌, ◌%◌, ◌≤◌, ◌<◌, min, max, String, ◌≡◌, refl, sym, ap, ◌∙◌, subst,
  ◌≢◌, ◌↔◌, ◌⊎◌, inl, inr, Bool, true, false, ◌&&◌, ◌||◌, not, Option, none, some, List, [], ◌∷◌,
  ◌++◌, map, arith, str_eq, str_eq_iff, ltb, leb, ◌==◌, if◌then◌else◌, ltb→lt, lt→ltb, leb→le,
  ==_iff, Bool-cases, Option-cases, opt_eq, opt_eq→eq, opt_eq_refl, length, length-append,
  replicate, All, All-append, Outcome, ok, err, Outcome-cases,
}
use recursive_self_improveme.Common.Effects.{Effect}
use recursive_self_improveme.Security.{Crypto}
use recursive_self_improveme.Selection.ReleasePointer.{
  ReleasePointer, PointerAuditLog, ReleasePointerStore,
}
use recursive_self_improveme.Release.Manifest.{SignedReleaseManifest, ReleaseError}
use recursive_self_improveme.Release.Controller.{ReleaseController, rollback}
use recursive_self_improveme.Release.Fleet.{Fleet, invalidate_caches}

pub data InvalidationTrigger : Type 0 where
  model_alias_drift tool_api_change dependency_cve : InvalidationTrigger
  evaluator_change expiry environment_drift : InvalidationTrigger

unfoldable pub trigger_value : InvalidationTrigger → String
trigger_value model_alias_drift = "model_alias_drift"
trigger_value tool_api_change = "tool_api_change"
trigger_value dependency_cve = "dependency_cve"
trigger_value evaluator_change = "evaluator_change"
trigger_value expiry = "expiry"
trigger_value environment_drift = "environment_drift"

pub data InvalidationAction : Type 0 where
  re_evaluate quarantine roll_back : InvalidationAction

abbrev pub InvalidationPolicy : Type 0
InvalidationPolicy = List (InvalidationTrigger × InvalidationAction)

abbrev pub default_invalidation_policy : InvalidationPolicy
default_invalidation_policy =
    (model_alias_drift, re_evaluate)
    ∷ (tool_api_change, quarantine)
    ∷ (dependency_cve, roll_back)
    ∷ (evaluator_change, re_evaluate)
    ∷ (expiry, quarantine)
    ∷ (environment_drift, roll_back)
    ∷ []

pub record InvalidationSignal : Type 0 where
  pub trigger : InvalidationTrigger
  pub observed_at : String
  pub detail : String

pub record InvalidationDecision : Type 0 where
  pub manifest_digest : String
  pub trigger : InvalidationTrigger
  pub action : InvalidationAction
  pub detail : String

-- The `KeyError` of a trigger that the policy lacks, and what the controller raises.
pub data InvalidationError : Type 0 where
  no_policy_for : InvalidationTrigger → InvalidationError
  rollback_refused : ReleaseError → InvalidationError

-- `_ACTION_SEVERITY`
unfoldable pub severity : InvalidationAction → ℕ
severity re_evaluate = 0
severity quarantine = 1
severity roll_back = 2

-- `policy[trigger]`
unfoldable pub action_for : InvalidationPolicy → InvalidationTrigger → Option InvalidationAction
unfolding trigger_value
action_for [] trigger = none
action_for ((t, a) ∷ rest) trigger =
    if str_eq (trigger_value t) (trigger_value trigger) then some a else action_for rest trigger

unfoldable pub decide :
    Option InvalidationAction
    → SignedReleaseManifest
    → InvalidationSignal
    → Outcome InvalidationError InvalidationDecision
decide none manifest signal = err (no_policy_for signal.trigger)
decide (some action) manifest signal = ok (record {
  manifest_digest = manifest.manifest_digest;
  trigger = signal.trigger;
  action = action;
  detail = signal.detail;
})

unfoldable pub prepend :
    Outcome InvalidationError InvalidationDecision
    → Outcome InvalidationError (List InvalidationDecision)
    → Outcome InvalidationError (List InvalidationDecision)
prepend (err e) rest = err e
prepend (ok d) (err e) = err e
prepend (ok d) (ok ds) = ok (d ∷ ds)

unfoldable pub evaluate_invalidation :
    InvalidationPolicy
    → SignedReleaseManifest
    → List InvalidationSignal
    → Outcome InvalidationError (List InvalidationDecision)
unfolding action_for decide prepend
evaluate_invalidation policy manifest [] = ok []
evaluate_invalidation policy manifest (s ∷ ss) =
    prepend (decide (action_for policy s.trigger) manifest s)
      (evaluate_invalidation policy manifest ss)

unfoldable pub stronger : InvalidationAction → InvalidationAction → InvalidationAction
unfolding severity
stronger best action = if ltb (severity best) (severity action) then action else best

-- `max` with the severity as its key, behind the best so far.
unfoldable pub strongest_from : InvalidationAction → List InvalidationDecision → InvalidationAction
unfolding stronger
strongest_from best [] = best
strongest_from best (d ∷ ds) = strongest_from (stronger best d.action) ds

unfoldable pub strongest_action : List InvalidationDecision → Option InvalidationAction
unfolding strongest_from
strongest_action [] = none
strongest_action (d ∷ ds) = some (strongest_from d.action ds)

-- `policy or DEFAULT_INVALIDATION_POLICY`
unfoldable pub policy_or_default : Option InvalidationPolicy → InvalidationPolicy
policy_or_default none = default_invalidation_policy
policy_or_default (some []) = default_invalidation_policy
policy_or_default (some (p ∷ ps)) = p ∷ ps

unfoldable pub is_rollback : Option InvalidationAction → Bool
is_rollback (some roll_back) = true
is_rollback _ = false

module _ {L : Type 0} (crypto : Crypto) (audit_log : PointerAuditLog L)
    (controller : ReleaseController) where
  -- What a release is invalidated on.
  abbrev pub Plane : Type 0
  Plane = ReleasePointerStore L × Fleet

  unfoldable pub converge : Option String → ℕ → Fleet → Fleet
  converge none now fleet = fleet
  converge (some prior) now fleet = invalidate_caches prior now fleet

  unfoldable pub after_rollback :
      Outcome ReleaseError ReleasePointer × ReleasePointerStore L
      → SignedReleaseManifest
      → List InvalidationDecision
      → ℕ
      → Fleet
      → Outcome InvalidationError (List InvalidationDecision) × Plane
  unfolding converge
  after_rollback (err e, store) manifest decisions now fleet =
      (err (rollback_refused e), (store, fleet))
  after_rollback (ok p, store) manifest decisions now fleet =
      (ok decisions, (store, converge manifest.prior_release_digest now fleet))

  unfoldable pub apply_decisions :
      Outcome InvalidationError (List InvalidationDecision)
      → SignedReleaseManifest
      → ℕ
      → Effect Plane InvalidationError (List InvalidationDecision)
  unfolding strongest_action is_rollback after_rollback
  apply_decisions (err e) manifest now plane = (err e, plane)
  apply_decisions (ok decisions) manifest now (store, fleet) =
      if is_rollback (strongest_action decisions)
      then after_rollback (rollback crypto audit_log controller manifest store) manifest decisions
          now fleet
      else (ok decisions, (store, fleet))

  -- `ReleaseInvalidator.handle`; `now` is what the fleet's clock returns.
  unfoldable pub handle :
      SignedReleaseManifest
      → List InvalidationSignal
      → Option InvalidationPolicy
      → ℕ
      → Effect Plane InvalidationError (List InvalidationDecision)
  unfolding apply_decisions evaluate_invalidation policy_or_default
  handle manifest signals policy now =
      apply_decisions (evaluate_invalidation (policy_or_default policy) manifest signals) manifest
        now
