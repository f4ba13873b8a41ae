-- ===== src/Analysis.antt =====
-- The package `core/analysisutil`: what the rules share.
pub mod Packages
pub mod Sublayer
pub mod Case
