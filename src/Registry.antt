-- ===== src/Registry.antt =====
-- The registry of subagents: agent/extensions/herdr-subagent/store.ts, pane.ts, subagent-name.ts and
-- overview.ts.
pub mod Types
pub mod Lookup
pub mod Match
pub mod Overview
pub mod Directory
pub mod Reserve
pub mod Store
mod Tests
