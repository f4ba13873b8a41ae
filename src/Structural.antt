-- ===== src/Structural.antt =====
-- rules/structural: the options of its rules, and the budget of orchestration functions.
pub mod Options
pub mod LogicBudget
