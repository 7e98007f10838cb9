-- ===== src/Release/Invalidation/Policies.antt =====
-- The action that release/invalidation.py has for a trigger, and what dropping the fleet's caches does.
use recursive_self_improveme.Common.{
  ℕ, ◌+◌, String, ◌≡◌, refl, sym, ap, subst, ◌≢◌, ◌⊎◌, inl, inr, true, Option, none, some, List, [],
  ◌∷◌, map, arith, str_eq, str_eq_iff, Bool-cases, some_eq, some_ne,
}
use recursive_self_improveme.Release.Fleet.{Worker, Fleet, drop_cache, invalidate_caches}
use recursive_self_improveme.Release.Invalidation.{
  InvalidationTrigger, model_alias_drift, tool_api_change, dependency_cve, evaluator_change, expiry,
  environment_drift, InvalidationAction, re_evaluate, quarantine, roll_back, InvalidationPolicy,
  trigger_value, action_for, policy_or_default,
}

-- The default policy.
pub data DefaultAction : InvalidationTrigger → InvalidationAction → Type 0 where
  for_drift : DefaultAction model_alias_drift re_evaluate
  for_api : DefaultAction tool_api_change quarantine
  for_cve : DefaultAction dependency_cve roll_back
  for_evaluator : DefaultAction evaluator_change re_evaluate
  for_expiry : DefaultAction expiry quarantine
  for_environment : DefaultAction environment_drift roll_back

-- The first entry for the trigger.
abbrev pub Listed : InvalidationPolicy → InvalidationTrigger → InvalidationAction → Type 0
Listed [] t a = ⊥
Listed ((u, b) ∷ rest) t a = ((u ≡ t) × (b ≡ a)) ⊎ ((u ≢ t) × Listed rest t a)

-- The action in force: the given policy's, and the default one's if none or an empty one is given.
abbrev pub InForce : Option InvalidationPolicy → InvalidationTrigger → InvalidationAction → Type 0
InForce none t a = DefaultAction t a
InForce (some []) t a = DefaultAction t a
InForce (some (p ∷ ps)) t a = Listed (p ∷ ps) t a

same_trigger :
    (t u : InvalidationTrigger) → str_eq (trigger_value t) (trigger_value u) ≡ true → t ≡ u
unfolding trigger_value
same_trigger model_alias_drift model_alias_drift h = refl
same_trigger tool_api_change tool_api_change h = refl
same_trigger dependency_cve dependency_cve h = refl
same_trigger evaluator_change evaluator_change h = refl
same_trigger expiry expiry h = refl
same_trigger environment_drift environment_drift h = refl
same_trigger _ _ h = cc

action_for-Listed :
    (policy : InvalidationPolicy) (t : InvalidationTrigger) (a : InvalidationAction)
    → action_for policy t ≡ some a
    → Listed policy t a
unfolding action_for
action_for-Listed [] t a h = elim (some_ne (sym h)) [ ]
action_for-Listed ((u, b) ∷ rest) t a h =
    elim (Bool-cases (str_eq (trigger_value u) (trigger_value t))) [
      | inl e ↦ inl (same_trigger u t e, some_eq (rw (e, action_for) at h))
      | inr e ↦ inr (
        λ k. ground (arith, (str_eq_iff _ _).1 (ap trigger_value k)),
        action_for-Listed rest t a (rw (e, action_for) at h),
      )
    ]

default_action :
    (t : InvalidationTrigger) (a : InvalidationAction)
    → action_for (policy_or_default none) t ≡ some a
    → DefaultAction t a
unfolding action_for policy_or_default trigger_value
default_action model_alias_drift a h = subst (DefaultAction model_alias_drift) (some_eq h) for_drift
default_action tool_api_change a h = subst (DefaultAction tool_api_change) (some_eq h) for_api
default_action dependency_cve a h = subst (DefaultAction dependency_cve) (some_eq h) for_cve
default_action evaluator_change a h =
    subst (DefaultAction evaluator_change) (some_eq h) for_evaluator
default_action expiry a h = subst (DefaultAction expiry) (some_eq h) for_expiry
default_action environment_drift a h =
    subst (DefaultAction environment_drift) (some_eq h) for_environment

pub policy-InForce :
    (given : Option InvalidationPolicy) (t : InvalidationTrigger) (a : InvalidationAction)
    → action_for (policy_or_default given) t ≡ some a
    → InForce given t a
unfolding policy_or_default
policy-InForce none t a h = default_action t a h
policy-InForce (some []) t a h = default_action t a h
policy-InForce (some (p ∷ ps)) t a h = action_for-Listed (p ∷ ps) t a h

-- Each worker has lost its cached digest and resolves again after its own latency.
abbrev pub Dropped : ℕ → List Worker → List Worker → Type 0
Dropped now [] [] = Unit {0}
Dropped now [] (v ∷ vs) = ⊥
Dropped now (w ∷ ws) [] = ⊥
Dropped now (w ∷ ws) (v ∷ vs) =
    (v.worker_id ≡ w.worker_id)
    × (v.convergence_latency ≡ w.convergence_latency)
    × (v.cached_digest ≡ none)
    × (v.resolves_at ≡ some (now + w.convergence_latency))
    × Dropped now ws vs

-- The fleet is to resolve the digest from now on; sessions, reports and memory are untouched.
pub record Redirected (digest : String) (now : ℕ) (f f' : Fleet) : Type 0 where
  pub active : f'.active_digest ≡ some digest
  pub since : f'.invalidated_at ≡ some now
  pub dropped : Dropped now f.workers f'.workers
  pub same_sessions : f'.sessions ≡ f.sessions
  pub same_reports : f'.reports ≡ f.reports
  pub same_memory : f'.memory ≡ f.memory

drop_cache-Dropped : (now : ℕ) (ws : List Worker) → Dropped now ws (map (drop_cache now) ws)
unfolding drop_cache
drop_cache-Dropped now [] = tt
drop_cache-Dropped now (w ∷ ws) = (refl, refl, refl, refl, drop_cache-Dropped now ws)

pub invalidate_caches-Redirected :
    (digest : String) (now : ℕ) (f : Fleet)
    → Redirected digest now f (invalidate_caches digest now f)
unfolding invalidate_caches
invalidate_caches-Redirected digest now f = record {
  active = refl;
  since = refl;
  dropped = drop_cache-Dropped now f.workers;
  same_sessions = refl;
  same_reports = refl;
  same_memory = refl;
}
