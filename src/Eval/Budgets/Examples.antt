-- ===== src/Eval/Budgets/Examples.antt =====
-- The meter at concrete budgets.
use recursive_self_improveme.Common.{◌≡◌, refl, ◌↔◌, true, List, [], ◌∷◌, ok, err}
use recursive_self_improveme.Eval.Budgets.{
  tool_calls, BudgetUsage, exceeded, BudgetMeter, nothing, new_meter, task_budget_v1, can_afford,
  charge,
}
use recursive_self_improveme.Eval.Budgets.Ceilings.{
  Charges, charge-Charges, can_afford_iff, Fits, Spending, charging, refunding, spend_all,
  spend_all-Fits,
}

abbrev big_step : BudgetUsage
big_step = record { input_tokens = 1000; output_tokens = 10000; tool_calls = 41; wall_clock_s = 5 }

abbrev small_step : BudgetUsage
small_step = record { input_tokens = 1000; output_tokens = 10000; tool_calls = 1; wall_clock_s = 5 }

abbrev meter : BudgetMeter
meter = record { budget = task_budget_v1; started_at = 100; charged = nothing }

big_step_refused : charge big_step 103 meter ≡ (err (exceeded tool_calls 40 41), meter)
unfolding charge
big_step_refused = refl

abbrev session : List Spending
session =
    charging small_step 101
    ∷ charging small_step 102
    ∷ refunding 9000
    ∷ charging small_step 103
    ∷ []

charge-Charges_example : Charges meter 103 big_step (charge big_step 103 meter)
charge-Charges_example = charge-Charges meter 103 big_step

can_afford_iff_at_test :
    (can_afford meter 103 small_step ≡ true) ↔ ((charge small_step 103 meter).0 ≡ ok tt)
can_afford_iff_at_test = can_afford_iff meter 103 small_step

spend_all-Fits_example :
    (let m = spend_all session (new_meter task_budget_v1 100) in
      Fits task_budget_v1 m.charged × (m.budget ≡ task_budget_v1))
spend_all-Fits_example = spend_all-Fits session task_budget_v1 100
