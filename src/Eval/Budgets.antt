-- ===== src/Eval/Budgets.antt =====
-- The task budget and its meter: eval/budgets.py. Seconds are whole numbers of the clock's unit;
-- `now` is what `clock.now()` returns.
pub mod Ceilings
mod Examples
use recursive_self_improveme.Common.{
  ℕ, zero, suc, ◌+◌, ◌-◌, ◌*◌, ◌/◌, ◌%◌, ◌≤◌, ◌<◌, min, max, String, ◌≡◌, refl, sym, ap, ◌∙◌, subst,
  ◌≢◌, ◌↔◌, ◌⊎◌, inl, inr, Bool, true, false, ◌&&◌, ◌||◌, not, Option, none, some, List, [], ◌∷◌,
  ◌++◌, map, arith, str_eq, str_eq_iff, ltb, leb, ◌==◌, if◌then◌else◌, ltb→lt, lt→ltb, leb→le,
  ==_iff, Bool-cases, Option-cases, opt_eq, opt_eq→eq, opt_eq_refl, length, length-append,
  replicate, All, All-append, Outcome, ok, err, Outcome-cases,
}
use recursive_self_improveme.Common.Effects.{Effect}

pub data BudgetDimension : Type 0 where
  input_tokens output_tokens tool_calls wall_clock : BudgetDimension

pub record TaskBudget : Type 0 where
  pub max_input_tokens : ℕ
  pub max_output_tokens : ℕ
  pub max_tool_calls : ℕ
  pub max_wall_clock_s : ℕ

-- `BudgetUsage`, and the arguments of a charge.
pub record BudgetUsage : Type 0 where
  pub input_tokens : ℕ
  pub output_tokens : ℕ
  pub tool_calls : ℕ
  pub wall_clock_s : ℕ

pub data BudgetError : Type 0 where
  not_positive : String → BudgetError
  exceeded : BudgetDimension → ℕ → ℕ → BudgetError
  unknown_profile : String → BudgetError

unfoldable pub new_task_budget : ℕ → ℕ → ℕ → ℕ → Outcome BudgetError TaskBudget
new_task_budget inputs outputs calls seconds =
    if inputs == 0
    then err (not_positive "max_input_tokens")
    else if outputs == 0
    then err (not_positive "max_output_tokens")
    else if calls == 0
    then err (not_positive "max_tool_calls")
    else if seconds == 0
    then err (not_positive "max_wall_clock_s")
    else ok (record {
      max_input_tokens = inputs;
      max_output_tokens = outputs;
      max_tool_calls = calls;
      max_wall_clock_s = seconds;
    })

unfoldable pub limit : TaskBudget → BudgetDimension → ℕ
limit budget input_tokens = budget.max_input_tokens
limit budget output_tokens = budget.max_output_tokens
limit budget tool_calls = budget.max_tool_calls
limit budget wall_clock = budget.max_wall_clock_s

unfoldable pub within : BudgetUsage → TaskBudget → Bool
within usage budget =
    leb usage.input_tokens budget.max_input_tokens
    && leb usage.output_tokens budget.max_output_tokens
    && leb usage.tool_calls budget.max_tool_calls
    && leb usage.wall_clock_s budget.max_wall_clock_s

abbrev pub task_budget_v1 : TaskBudget
task_budget_v1 = record {
  max_input_tokens = 120000;
  max_output_tokens = 16000;
  max_tool_calls = 40;
  max_wall_clock_s = 600;
}

abbrev pub task_budget_v2_executable : TaskBudget
task_budget_v2_executable = record {
  max_input_tokens = 120000;
  max_output_tokens = 16000;
  max_tool_calls = 120;
  max_wall_clock_s = 1800;
}

unfoldable pub resolve_budget_profile : String → Outcome BudgetError TaskBudget
resolve_budget_profile name =
    if str_eq name "task-budget-v1"
    then ok task_budget_v1
    else if str_eq name "task-budget-v2-executable"
    then ok task_budget_v2_executable
    else err (unknown_profile name)

-- `BudgetMeter`
pub record BudgetMeter : Type 0 where
  pub budget : TaskBudget
  pub started_at : ℕ
  pub charged : BudgetUsage

abbrev pub nothing : BudgetUsage
nothing = record { input_tokens = 0; output_tokens = 0; tool_calls = 0; wall_clock_s = 0 }

unfoldable pub new_meter : TaskBudget → ℕ → BudgetMeter
new_meter budget now = record { budget = budget; started_at = now; charged = nothing }

unfoldable pub elapsed_s : BudgetMeter → ℕ → ℕ
elapsed_s m now = (now - m.started_at) + m.charged.wall_clock_s

unfoldable pub usage : BudgetMeter → ℕ → BudgetUsage
unfolding elapsed_s
usage m now = record m.charged { wall_clock_s = elapsed_s m now }

-- `max(0, a - b)`
unfoldable pub remaining : BudgetMeter → ℕ → BudgetUsage
unfolding elapsed_s
remaining m now = record {
  input_tokens = m.budget.max_input_tokens - m.charged.input_tokens;
  output_tokens = m.budget.max_output_tokens - m.charged.output_tokens;
  tool_calls = m.budget.max_tool_calls - m.charged.tool_calls;
  wall_clock_s = m.budget.max_wall_clock_s - elapsed_s m now;
}

unfoldable pub first_above : TaskBudget → List (BudgetDimension × ℕ) → Option (BudgetDimension × ℕ)
unfolding limit
first_above budget [] = none
first_above budget ((dimension, total) ∷ rest) =
    if ltb (limit budget dimension) total then some (dimension, total) else first_above budget rest

-- `_first_violation`
unfoldable pub first_violation : BudgetMeter → ℕ → BudgetUsage → Option (BudgetDimension × ℕ)
unfolding first_above elapsed_s
first_violation m now cost = first_above m.budget (
    (input_tokens, m.charged.input_tokens + cost.input_tokens)
    ∷ (output_tokens, m.charged.output_tokens + cost.output_tokens)
    ∷ (tool_calls, m.charged.tool_calls + cost.tool_calls)
    ∷ (wall_clock, elapsed_s m now + cost.wall_clock_s)
    ∷ [])

unfoldable pub can_afford : BudgetMeter → ℕ → BudgetUsage → Bool
unfolding first_violation
can_afford m now cost = elim (first_violation m now cost) [ none ↦ true | some v ↦ false ]

unfoldable pub add_usage : BudgetUsage → BudgetUsage → BudgetUsage
add_usage u v = record {
  input_tokens = u.input_tokens + v.input_tokens;
  output_tokens = u.output_tokens + v.output_tokens;
  tool_calls = u.tool_calls + v.tool_calls;
  wall_clock_s = u.wall_clock_s + v.wall_clock_s;
}

unfoldable pub charge_unless :
    Option (BudgetDimension × ℕ) → BudgetUsage → Effect BudgetMeter BudgetError (Unit {0})
unfolding add_usage
charge_unless (some (dimension, attempted)) cost m =
    (err (exceeded dimension (limit m.budget dimension) attempted), m)
charge_unless none cost m = (ok tt, record m { charged = add_usage m.charged cost })

-- The arguments are natural numbers, so the `ValueError` on a negative one does not arise.
unfoldable pub charge : BudgetUsage → ℕ → Effect BudgetMeter BudgetError (Unit {0})
unfolding first_violation charge_unless
charge cost now m = charge_unless (first_violation m now cost) cost m

unfoldable pub refund_output_tokens : ℕ → BudgetMeter → BudgetMeter
refund_output_tokens tokens m = record m {
  charged = record m.charged { output_tokens = m.charged.output_tokens - tokens };
}

unfoldable pub checkpoint : ℕ → Effect BudgetMeter BudgetError (Unit {0})
unfolding charge
checkpoint now = charge nothing now
