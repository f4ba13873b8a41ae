-- ===== src/Examples.antt =====
-- A small project, and the claims of the other files at it.
pub mod Project
mod Runs
mod Rules
mod Catalogs
mod Hotspots
mod Budgets
mod Names
mod Purity
