-- ===== src/Tests/Orchestrator.antt =====
-- crates/ar-orchestrator: its theorems at concrete inputs.
mod Job
mod Queue
