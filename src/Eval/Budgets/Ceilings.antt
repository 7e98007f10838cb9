-- ===== src/Eval/Budgets/Ceilings.antt =====
-- The meter of eval/budgets.py stops a charge at the ceiling, and records nothing of it.
use recursive_self_improveme.Common.{
  ℕ, ◌≤◌, ◌<◌, ◌≡◌, refl, sym, ap, ◌∙◌, subst, ◌↔◌, inl, inr, Bool, true, false, Option, none, some,
  List, [], ◌∷◌, arith, ltb, ltb→lt, Bool-cases, Outcome, ok, err,
}
use recursive_self_improveme.Eval.Budgets.{
  BudgetDimension, input_tokens, output_tokens, tool_calls, wall_clock, TaskBudget, BudgetUsage,
  BudgetError, exceeded, limit, BudgetMeter, new_meter, elapsed_s, usage, first_above,
  first_violation, can_afford, add_usage, charge_unless, charge, refund_output_tokens,
}

-- What the meter would report with the cost added.
abbrev pub prospective : BudgetMeter → ℕ → BudgetUsage → BudgetUsage
prospective m now cost = add_usage (usage m now) cost

-- Every dimension is at or below its ceiling.
pub record Fits (budget : TaskBudget) (u : BudgetUsage) : Type 0 where
  pub input_fits : u.input_tokens ≤ budget.max_input_tokens
  pub output_fits : u.output_tokens ≤ budget.max_output_tokens
  pub calls_fit : u.tool_calls ≤ budget.max_tool_calls
  pub clock_fits : u.wall_clock_s ≤ budget.max_wall_clock_s

-- The first dimension, in the fixed order, that is above its ceiling, with its total.
abbrev pub FirstAbove : TaskBudget → BudgetUsage → BudgetDimension → ℕ → Type 0
FirstAbove b u input_tokens total = (total ≡ u.input_tokens) × (b.max_input_tokens < total)
FirstAbove b u output_tokens total =
    (u.input_tokens ≤ b.max_input_tokens)
    × (total ≡ u.output_tokens)
    × (b.max_output_tokens < total)
FirstAbove b u tool_calls total =
    (u.input_tokens ≤ b.max_input_tokens)
    × (u.output_tokens ≤ b.max_output_tokens)
    × (total ≡ u.tool_calls)
    × (b.max_tool_calls < total)
FirstAbove b u wall_clock total =
    (u.input_tokens ≤ b.max_input_tokens)
    × (u.output_tokens ≤ b.max_output_tokens)
    × (u.tool_calls ≤ b.max_tool_calls)
    × (total ≡ u.wall_clock_s)
    × (b.max_wall_clock_s < total)

abbrev scan : TaskBudget → BudgetUsage → Option (BudgetDimension × ℕ)
scan b u = first_above b (
    (input_tokens, u.input_tokens)
    ∷ (output_tokens, u.output_tokens)
    ∷ (tool_calls, u.tool_calls)
    ∷ (wall_clock, u.wall_clock_s)
    ∷ [])

-- Nothing is above its ceiling, or the first that is is found.
abbrev pub Scanned : TaskBudget → BudgetUsage → Option (BudgetDimension × ℕ) → Type 0
Scanned b u none = Fits b u
Scanned b u (some (d, total)) = FirstAbove b u d total

not_above : (a b : ℕ) → ltb a b ≡ false → b ≤ a
not_above a b h = ground arith

scan-Scanned : (b : TaskBudget) (u : BudgetUsage) → Scanned b u (scan b u)
unfolding first_above limit
scan-Scanned b u = elim (Bool-cases (ltb b.max_input_tokens u.input_tokens)) [
  | inl h ↦ rw h (refl, ltb→lt _ _ h)
  | inr i ↦ elim (Bool-cases (ltb b.max_output_tokens u.output_tokens)) [
    | inl h ↦ rw (i, h) (not_above _ _ i, refl, ltb→lt _ _ h)
    | inr o ↦ elim (Bool-cases (ltb b.max_tool_calls u.tool_calls)) [
      | inl h ↦ rw (i, o, h) (not_above _ _ i, not_above _ _ o, refl, ltb→lt _ _ h)
      | inr c ↦ elim (Bool-cases (ltb b.max_wall_clock_s u.wall_clock_s)) [
        | inl h ↦
            rw (i, o, c, h) (not_above _ _ i, not_above _ _ o, not_above _ _ c, refl, ltb→lt _ _ h)
        | inr w ↦
            rw (i, o, c, w)
              (record {
                input_fits = not_above _ _ i;
                output_fits = not_above _ _ o;
                calls_fit = not_above _ _ c;
                clock_fits = not_above _ _ w;
              })
      ]
    ]
  ]
]

-- A charge that returns fits every ceiling at that time and is added in all four dimensions; one
-- that is refused names the first dimension above its ceiling, with the ceiling and the total that
-- it attempted, and leaves the meter as it was.
abbrev pub Charges :
    BudgetMeter → ℕ → BudgetUsage → Outcome BudgetError (Unit {0}) × BudgetMeter → Type 0
Charges m now cost (ok _, m') =
    Fits m.budget (usage m' now) × (m' ≡ record m { charged = add_usage m.charged cost })
Charges m now cost (err e, m') =
    (m' ≡ m)
    × ((d : BudgetDimension) × (total : ℕ) × (e ≡ exceeded d (limit m.budget d) total)
        × FirstAbove m.budget (prospective m now cost) d total)

Fits-clock :
    (m : BudgetMeter) (now : ℕ) (cost : BudgetUsage)
    → Fits m.budget (prospective m now cost)
    → Fits m.budget (usage (record m { charged = add_usage m.charged cost }) now)
unfolding add_usage usage elapsed_s
Fits-clock m now cost h = record {
  input_fits = h.input_fits;
  output_fits = h.output_fits;
  calls_fit = h.calls_fit;
  clock_fits = omega (arith, h.clock_fits);
}

charge_unless-Charges :
    (m : BudgetMeter) (now : ℕ) (cost : BudgetUsage) (v : Option (BudgetDimension × ℕ))
    → Scanned m.budget (prospective m now cost) v
    → Charges m now cost (charge_unless v cost m)
unfolding charge_unless
charge_unless-Charges m now cost none h = (Fits-clock m now cost h, refl)
charge_unless-Charges m now cost (some (d, total)) h = (refl, (d, total, refl, h))

first_violation-Scanned :
    (m : BudgetMeter) (now : ℕ) (cost : BudgetUsage)
    → Scanned m.budget (prospective m now cost) (first_violation m now cost)
unfolding first_violation usage add_usage
first_violation-Scanned m now cost = scan-Scanned m.budget (prospective m now cost)

-- A charge that returns leaves every dimension at or below its ceiling, with the cost added to what
-- was charged and nothing else changed; one that raises leaves the meter as it was, and names the
-- first dimension in the fixed order that the charge would put above its ceiling, with the ceiling
-- and that total.
pub charge-Charges :
    (m : BudgetMeter) (now : ℕ) (cost : BudgetUsage) → Charges m now cost (charge cost now m)
unfolding charge
charge-Charges m now cost =
    charge_unless-Charges m now cost (first_violation m now cost)
      (first_violation-Scanned m now cost)

-- The check that does not raise says yes exactly when the charge would return.
pub can_afford_iff :
    (m : BudgetMeter) (now : ℕ) (cost : BudgetUsage)
    → (can_afford m now cost ≡ true) ↔ ((charge cost now m).0 ≡ ok tt)
unfolding can_afford charge
can_afford_iff m now cost = by_violation (first_violation m now cost)
  where
    by_violation :
        (v : Option (BudgetDimension × ℕ))
        → ◌≡◌ {A = Bool} (elim v [ none ↦ true | some x ↦ false ]) true
          ↔ ((charge_unless v cost m).0 ≡ ok tt)
    by_violation none = (λ h. refl, λ h. refl)
    by_violation (some (d, total)) = (λ h. cc, λ h. ground arith)

-- What an arm does with its meter: a charge at a time, or a refund.
pub data Spending : Type 0 where
  charging : BudgetUsage → ℕ → Spending
  refunding : ℕ → Spending

unfoldable pub spend : Spending → BudgetMeter → BudgetMeter
spend (charging cost now) m = (charge cost now m).1
spend (refunding tokens) m = refund_output_tokens tokens m

unfoldable pub spend_all : List Spending → BudgetMeter → BudgetMeter
unfolding spend
spend_all [] m = m
spend_all (x ∷ xs) m = spend_all xs (spend x m)

usage-Fits : (b : TaskBudget) (m : BudgetMeter) (now : ℕ) → Fits b (usage m now) → Fits b m.charged
unfolding usage elapsed_s
usage-Fits b m now h = record {
  input_fits = h.input_fits;
  output_fits = h.output_fits;
  calls_fit = h.calls_fit;
  clock_fits = omega (arith, h.clock_fits);
}

abbrev Solvent : TaskBudget → BudgetMeter → Type 0
Solvent b m = Fits b m.charged × (m.budget ≡ b)

Charges-Solvent :
    (m : BudgetMeter) (now : ℕ) (cost : BudgetUsage)
    (r : Outcome BudgetError (Unit {0}) × BudgetMeter)
    → Fits m.budget m.charged
    → Charges m now cost r
    → Solvent m.budget r.1
Charges-Solvent m now cost (ok _, m') h (f, e) =
    (usage-Fits m.budget m' now f, ap (λ (x : BudgetMeter). x.budget) e)
Charges-Solvent m now cost (err _, m') h (e, _) = (
  subst (λ (x : BudgetMeter). Fits m.budget x.charged) (sym e) h,
  ap (λ (x : BudgetMeter). x.budget) e,
)

refund-Fits :
    (b : TaskBudget) (tokens : ℕ) (m : BudgetMeter)
    → Fits b m.charged
    → Fits b (refund_output_tokens tokens m).charged
unfolding refund_output_tokens
refund-Fits b tokens m h = record {
  input_fits = h.input_fits;
  output_fits = omega (arith, h.output_fits);
  calls_fit = h.calls_fit;
  clock_fits = h.clock_fits;
}

spend-Solvent :
    (x : Spending) (b : TaskBudget) (m : BudgetMeter) → Solvent b m → Solvent b (spend x m)
unfolding spend refund_output_tokens
spend-Solvent (charging cost now) b m (h, e) =
    let (f, kept) =
      Charges-Solvent m now cost _ (subst (λ b'. Fits b' m.charged) (sym e) h)
        (charge-Charges m now cost) in
    (subst (λ b'. Fits b' (charge cost now m).1.charged) e f, kept ∙ e)
spend-Solvent (refunding tokens) b m (h, e) = (refund-Fits b tokens m h, e)

spend_all-Solvent :
    (xs : List Spending) (b : TaskBudget) (m : BudgetMeter)
    → Solvent b m
    → Solvent b (spend_all xs m)
unfolding spend_all
spend_all-Solvent [] b m h = h
spend_all-Solvent (x ∷ xs) b m h = spend_all-Solvent xs b (spend x m) (spend-Solvent x b m h)

new-Solvent : (b : TaskBudget) (now : ℕ) → Solvent b (new_meter b now)
unfolding new_meter
new-Solvent b now = (
  record {
    input_fits = omega arith;
    output_fits = omega arith;
    calls_fit = omega arith;
    clock_fits = omega arith;
  },
  refl,
)

-- After any charges and refunds on a new meter, whether they returned or raised, what is charged is
-- at or below the ceiling in every dimension, and the budget is the one that it was made with.
pub spend_all-Fits :
    (xs : List Spending) (b : TaskBudget) (now : ℕ)
    → (let m = spend_all xs (new_meter b now) in Fits b m.charged × (m.budget ≡ b))
spend_all-Fits xs b now = spend_all-Solvent xs b (new_meter b now) (new-Solvent b now)
