-- ===== src/Core.antt =====
-- The package `core`: the rule interface, the architecture description and the runner.
pub mod Violation
pub mod Architecture
pub mod Validate
pub mod Paths
pub mod Context
pub mod RuleSet
pub mod Options
pub mod Catalog
pub mod Runner
