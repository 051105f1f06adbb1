-- ===== src/Signing.antt =====
-- Interactive signing: packages/server/src/signing/interactive-sign.service.ts.
pub mod Types
pub mod Populate
pub mod Sessions
pub mod Opening
pub mod Checks
pub mod Create
pub mod Rounds
pub mod Access
pub mod Buffers
pub mod Invariant
pub mod Admission
pub mod Redaction
pub mod System
pub mod Progress
pub mod Endings
pub mod Completion
