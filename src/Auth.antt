-- ===== src/Auth.antt =====
-- Authentication: packages/server/src/auth and packages/auth/src/server. Database is the interface of the tables.
pub mod Database
pub mod Transfers
pub mod Tokens
pub mod Challenges
pub mod RateLimit
