-- ===== src/Chains.antt =====
-- Chains: packages/chains/src.
pub mod Nonces
