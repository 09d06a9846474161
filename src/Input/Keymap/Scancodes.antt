-- ===== src/Input/Keymap/Scancodes.antt =====
-- crates/drift-input/src/keymap.rs, `Scancode`: a make code (u8) and the `0xE0` prefix.
use drift.Base.{ℕ, ◌+◌, ◌*◌, ◌≡◌, Bool, true, false, arith}
use drift.Base.Maps.{Key}
use drift.Core.Events.{InputEvent, key}

pub record Scancode : Type 0 where
  pub code : ℕ
  pub extended : Bool

-- `Scancode::new`, `Scancode::ext`.
abbrev pub new : ℕ → Scancode
new code = record { code = code; extended = false }

abbrev pub ext : ℕ → Scancode
ext code = record { code = code; extended = true }

-- `Scancode::event`.
abbrev pub event : Scancode → Bool → InputEvent
event s down = key s.code s.extended down

-- The place of a scancode in the derived order: by code, then the plain key first.
abbrev pub rank : Scancode → ℕ
rank s = elim s.extended [ true ↦ s.code * 2 + 1 | false ↦ s.code * 2 ]

pub rank-injective : (a b : Scancode) → rank a ≡ rank b → a ≡ b
rank-injective a b h = ground arith

instance abbrev pub scancode_key : Key Scancode
scancode_key = record { rank = rank; injective = rank-injective }
