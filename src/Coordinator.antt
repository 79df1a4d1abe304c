-- ===== src/Coordinator.antt =====
-- agent/extensions/herdr-subagent/completion.ts: an action of the tool and the watcher of its result.
pub mod Arms
pub mod Types
pub mod Input
pub mod Execute
pub mod Release
pub mod Spawn
pub mod Send
mod Tests
