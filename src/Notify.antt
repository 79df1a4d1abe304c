-- ===== src/Notify.antt =====
-- agent/extensions/herdr-subagent/notifications.ts: the manager that watches subagents, batches
-- their completions into groups and reports each of them to the parent session.
pub mod Types
pub mod Xml
pub mod Envelope
pub mod State
pub mod Groups
pub mod Report
pub mod Watchers
pub mod Inspection
pub mod Manager
pub mod Poll
pub mod Memory
pub mod Stable
pub mod Bounds
pub mod Once
pub mod Delivery
pub mod Members
pub mod Waiting
mod Tests
