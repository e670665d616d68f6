-- ===== src/Review.antt =====
-- crates/ar-review: from a diff and a list of changed files to the review that is posted.
pub mod Types
pub mod Diff
pub mod Ignored
pub mod Triage
pub mod Marker
pub mod Filters
pub mod Mapping
pub mod Metadata
pub mod Heal
pub mod Verify
pub mod Agentic
pub mod Host
pub mod WorkspaceTools
pub mod Args
pub mod Pipeline
pub mod Context
