-- ===== src/Orchestrator.antt =====
-- crates/ar-orchestrator: the review history, the run states and the review job.
pub mod History
pub mod State
pub mod Jobs
pub mod Report
pub mod Dispatcher
pub mod Queue
