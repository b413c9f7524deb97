-- ===== src/Riblt.antt =====
-- src/riblt.rs: rateless set reconciliation.
pub mod Symbols
