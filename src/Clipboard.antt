-- ===== src/Clipboard.antt =====
-- crates/drift-clipboard: the clipboard of a session.
pub mod Text
pub mod Formats
pub mod Sync
