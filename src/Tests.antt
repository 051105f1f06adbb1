-- ===== src/Tests.antt =====
-- Concrete inputs, and the theorems applied to them.
pub mod Samples
pub mod Policies
pub mod Criteria
pub mod Sessions
pub mod Stores
pub mod Prices
pub mod Documents
pub mod Forms
pub mod Keys
pub mod Rounds
pub mod Tables
pub mod Devices
pub mod Logins
pub mod Refusals
