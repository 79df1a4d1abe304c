-- ===== src/Statusline.antt =====
-- agent/extensions/statusline/core: the layout of the status line and the store of its state.
pub mod Layout
pub mod State
pub mod Features
mod Tests
