-- ===== src/Schemes.antt =====
-- The threshold schemes: packages/schemes/src.
pub mod Sessions
