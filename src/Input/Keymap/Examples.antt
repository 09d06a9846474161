-- ===== src/Input/Keymap/Examples.antt =====
-- A witness of the key table.
use drift.Base.{ℕ, ◌≡◌, refl, some}
use drift.Core.Events.{super}
use drift.Input.Keymap.{iso, scancode_for, base_scancode}
use drift.Input.Keymap.Scancodes.{new}
use drift.Input.Keymap.Unique.{scancode_for-injective}

-- The section key of an ISO keyboard.
abbrev section_code : ℕ
section_code = 0x0A

section_key : scancode_for section_code iso super ≡ some (new 0x29)
unfolding scancode_for base_scancode
section_key = refl

scancode_for-injective_example : section_code ≡ section_code
scancode_for-injective_example =
    scancode_for-injective section_code section_code iso (new 0x29) section_key section_key
