-- ===== src/Index.antt =====
-- crates/ar-index: what the bot has learned, and which files change together.
pub mod Learnings
pub mod CoChange
pub mod Embed
