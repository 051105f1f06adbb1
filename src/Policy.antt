-- ===== src/Policy.antt =====
-- The policy subsystem of the server: packages/core/src/types/rules.ts and
-- packages/server/src/policies.
pub mod Types
pub mod Numerals
pub mod Criteria
pub mod Engine
pub mod AlwaysOn
pub mod Backtest
pub mod Document
