-- ===== src/Input.antt =====
-- crates/drift-input: the pure translation of AppKit input into wire events.
pub mod Keymap
pub mod Modifiers
pub mod Unicode
pub mod Keyboard
