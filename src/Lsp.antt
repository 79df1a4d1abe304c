-- ===== src/Lsp.antt =====
-- agent/extensions/lsp: what the language server tool remembers and decides.
pub mod Permissions
