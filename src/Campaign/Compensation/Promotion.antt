-- ===== src/Campaign/Compensation/Promotion.antt =====
-- When campaign/compensation.py allows a promotion.
use recursive_self_improveme.Common.{
  ℕ, suc, ◌≡◌, refl, ◌↔◌, ◌⊎◌, inl, inr, true, String, str_eq_iff, List, [], ◌∷◌, ok, arith, Any,
}
use recursive_self_improveme.Security.{Crypto}
use recursive_self_improveme.Campaign.Compensation.{
  CompensationAction, CompensationExecutionRecord, SignedCompensationPlan, cas_mode, plan_verifies,
}
use recursive_self_improveme.Campaign.Compensation.Execution.{
  is_cas, was_executed, check_from, assert_promotion_allowed,
}

-- The sink has a record of the plan for the action at this position.
abbrev pub HasRecord : String → List CompensationExecutionRecord → ℕ → Type 0
HasRecord plan_id sink index = Any (λ r. (r.plan_id ≡ plan_id) × (r.action_index ≡ index)) sink

-- Each action, from this position on, is a compare-and-swap or has its record.
abbrev pub Discharged :
    String → List CompensationExecutionRecord → ℕ → List CompensationAction → Type 0
Discharged plan_id sink index [] = Unit {0}
Discharged plan_id sink index (a ∷ rest) =
    ((a.mode ≡ cas_mode) ⊎ HasRecord plan_id sink index) × Discharged plan_id sink (suc index) rest

was_executed→HasRecord :
    (plan_id : String) (sink : List CompensationExecutionRecord) (index : ℕ)
    → was_executed plan_id sink index ≡ true
    → HasRecord plan_id sink index
unfolding was_executed
was_executed→HasRecord plan_id [] index h = cc
was_executed→HasRecord plan_id (r ∷ rs) index h =
    ground (arith, str_eq_iff r.plan_id plan_id, was_executed→HasRecord plan_id rs index)

HasRecord→was_executed :
    (plan_id : String) (sink : List CompensationExecutionRecord) (index : ℕ)
    → HasRecord plan_id sink index
    → was_executed plan_id sink index ≡ true
unfolding was_executed
HasRecord→was_executed plan_id [] index h = elim h [ ]
HasRecord→was_executed plan_id (r ∷ rs) index (inl h) = ground (arith, str_eq_iff r.plan_id plan_id)
HasRecord→was_executed plan_id (r ∷ rs) index (inr h) =
    ground (arith, HasRecord→was_executed plan_id rs index h)

check_from-Discharged :
    (plan_id : String) (sink : List CompensationExecutionRecord) (index : ℕ)
    (actions : List CompensationAction)
    → check_from plan_id sink index actions ≡ ok tt
    → Discharged plan_id sink index actions
unfolding check_from is_cas
check_from-Discharged plan_id sink index [] h = tt
check_from-Discharged plan_id sink index (a ∷ rest) h = ground (
  arith,
  str_eq_iff a.mode cas_mode,
  was_executed→HasRecord plan_id sink index,
  check_from-Discharged plan_id sink (suc index) rest,
)

Discharged-check_from :
    (plan_id : String) (sink : List CompensationExecutionRecord) (index : ℕ)
    (actions : List CompensationAction)
    → Discharged plan_id sink index actions
    → check_from plan_id sink index actions ≡ ok tt
unfolding check_from is_cas
Discharged-check_from plan_id sink index [] h = refl
Discharged-check_from plan_id sink index (a ∷ rest) h = ground (
  arith,
  str_eq_iff a.mode cas_mode,
  HasRecord→was_executed plan_id sink index,
  Discharged-check_from plan_id sink (suc index) rest h.1,
)

module _ (crypto : Crypto) (plan : SignedCompensationPlan)
    (sink : List CompensationExecutionRecord) where
  -- A promotion is allowed exactly when the plan verifies and each of its actions is a
  -- compare-and-swap or has an execution record of this plan.
  pub assert_promotion_allowed_iff :
      (assert_promotion_allowed crypto plan sink ≡ ok tt)
      ↔ ((plan_verifies crypto plan ≡ true) × Discharged plan.plan_id sink 0 plan.actions)
  unfolding assert_promotion_allowed
  assert_promotion_allowed_iff = (
    λ h. ground (arith, check_from-Discharged plan.plan_id sink 0 plan.actions),
    λ h. rw h.0 (Discharged-check_from plan.plan_id sink 0 plan.actions h.1),
  )
