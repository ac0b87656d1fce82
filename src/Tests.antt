-- ===== src/Tests.antt =====
-- Runs of the models on concrete inputs, and their fixtures.
pub mod Fixtures
mod Context
mod Policy
mod Engine
mod Lifecycle
mod Executor
