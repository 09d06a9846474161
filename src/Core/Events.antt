-- ===== src/Core/Events.antt =====
-- crates/drift-core/src/input.rs: the wire-level input events; and the keyboard preferences of
-- crates/drift-core/src/profile.rs. Numbers are u8 (`scancode`), u16 (`ch`, `x`, `y`), i16 (`units`).
use drift.Base.{ℕ, Bool}
use drift.Base.Int.{ℤ}

pub data MouseButton : Type 0 where
  left right middle x1 x2 : MouseButton

pub data InputEvent : Type 0 where
  key : ℕ → Bool → Bool → InputEvent
  unicode : ℕ → Bool → InputEvent
  mouse_move : ℕ → ℕ → InputEvent
  mouse_button : MouseButton → Bool → ℕ → ℕ → InputEvent
  wheel : Bool → ℤ → InputEvent
  sync_toggles : Bool → Bool → InputEvent
  release_all : InputEvent

pub data CmdAs : Type 0 where
  super ctrl : CmdAs

pub record KeyboardPrefs : Type 0 where
  pub cmd_as : CmdAs
  pub type_with_mac_layout : Bool
