-- ===== src/SmartContext.antt =====
-- agent/extensions/smart-context/history.ts and checkpoint.ts: the archive of a session's active
-- branch, and the checkpoint that a reset of the context needs.
pub mod Session
pub mod Archive
pub mod History
pub mod Checkpoint
pub mod Recovery
mod Tests
