-- ===== src/Models.antt =====
-- agent/extensions/herdr-subagent/model-resolver.ts: which model a written reference names.
pub mod Resolve
pub mod Best
mod Tests
