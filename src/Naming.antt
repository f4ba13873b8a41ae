-- ===== src/Naming.antt =====
-- rules/naming: its options and the rules on file names and on the names of types.
pub mod Files
pub mod SnakeCaseFiles
pub mod NoLayerSuffix
pub mod Types
