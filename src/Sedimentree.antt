-- ===== src/Sedimentree.antt =====
-- src/sedimentree.rs and its modules.
pub mod Types
pub mod Codec
pub mod Strata
pub mod Equality
pub mod Diff
pub mod CommitDag
pub mod Bundles
pub mod Storage
