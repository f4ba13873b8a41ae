-- ===== src/Dependency.antt =====
-- The package `rules/dependency`: rules over the import graph.
pub mod Classify
pub mod Isolation
pub mod LayerDirection
pub mod BlastRadius
pub mod Options
pub mod SideEffects
