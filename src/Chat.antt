-- ===== src/Chat.antt =====
-- crates/ar-chat: the commands that a comment can give.
pub mod Command
pub mod Caveat
pub mod State
pub mod Override
pub mod Fence
pub mod DiffPaths
pub mod Suggest
pub mod Handler
