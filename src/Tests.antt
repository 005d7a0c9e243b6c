-- ===== src/Tests.antt =====
-- Examples on concrete inputs.
mod Fixtures
mod Requests
mod Applies
mod Policies
mod Schemas
mod Targets
mod Accounts
mod Runs
