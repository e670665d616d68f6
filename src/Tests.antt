-- ===== src/Tests.antt =====
-- The theorems at concrete inputs.
mod Fixtures
mod Gateway
pub mod Chat
mod Orchestrator
mod Review
mod AgentCore
mod Index
mod Forgejo
mod Bench
