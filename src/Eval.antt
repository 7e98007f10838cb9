-- ===== src/Eval.antt =====
-- The evaluation plane: src/evoruntime/eval.
pub mod Budgets
pub mod Cascade
