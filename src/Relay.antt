-- ===== src/Relay.antt =====
-- agent/extensions/web-herdr-relay/normalization.ts: what of a session the relay shows a browser.
pub mod Text
pub mod Data
pub mod Extract
pub mod Collapse
pub mod Message
pub mod Collect
pub mod Branch
pub mod Bounds
pub mod Retain
mod Tests
