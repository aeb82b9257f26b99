-- ===== src/Tests.antt =====
-- Concrete inputs: a small deployment on the database in memory, and the theorems at it.
pub mod Fixtures
pub mod Refreshing
pub mod Accounts
mod Onboarding
pub mod Logins
mod Registering
mod Http
mod Scopes
mod Settings
mod Sequences
mod Races
mod Updates
mod Scans
mod Identity
mod Shutdown
mod Lookups
