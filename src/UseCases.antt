-- ===== src/UseCases.antt =====
-- The use cases of src/fastapi_template/core: each is one `execute` inside one unit of work.
pub mod Tokens
pub mod Refresh
pub mod Replay
pub mod Accounts
pub mod Registration
pub mod Login
pub mod Onboarding
pub mod Revocation
pub mod Preservation
