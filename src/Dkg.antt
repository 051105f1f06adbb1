-- ===== src/Dkg.antt =====
-- Key generation on the server: packages/server/src/dkg.
pub mod Pool
pub mod Service
