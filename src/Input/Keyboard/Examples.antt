-- ===== src/Input/Keyboard/Examples.antt =====
-- Witnesses of the keyboard: a history with a shortcut, a typed word and a lost focus.
use drift.Base.{◌≡◌, refl, true, false, some, List, [], ◌∷◌, ◌++◌, ◌^◌, ◌+◌, arith}
use drift.Core.Events.{KeyboardPrefs, super}
use drift.Input.Keymap.{ansi, scancode_for}
use drift.Input.Keymap.Scancodes.{new, ext}
use drift.Input.Modifiers.{left_command, kvk}
use drift.Input.Keyboard.{Keyboard, new_keyboard, focus_lost}
use drift.Input.Keyboard.Wire.{replay, none_pressed, wired, IsValid}
use drift.Input.Keyboard.Calls.{
  Call, flags_change, key_goes_down, scancode_goes_down, key_goes_up, inserts, run, replay-run,
  replay-run-focus_lost,
}

abbrev prefs : KeyboardPrefs
prefs = record { cmd_as = super; type_with_mac_layout = true }

abbrev fresh : Keyboard
fresh = new_keyboard prefs ansi

-- Shift and then A go down, a word is typed, Command and C go down, and A goes up.
abbrev history : List Call
history =
    flags_change 0x38 (2 ^ 17 + 2)
    ∷ scancode_goes_down 0x00 (2 ^ 17 + 2)
    ∷ inserts (104 ∷ 105 ∷ [])
    ∷ flags_change 0x37 (2 ^ 20 + 2 ^ 17 + 10)
    ∷ key_goes_down 0x08 (2 ^ 20 + 2 ^ 17 + 10) false false
    ∷ key_goes_up 0x00
    ∷ []

abbrev after_history : Keyboard
after_history = (run history fresh).0

replay-run_example : replay (run history fresh).1 none_pressed ≡ some (wired after_history.pressed)
replay-run_example = replay-run prefs ansi history

replay-run-focus_lost_example :
    replay ((run history fresh).1 ++ (focus_lost after_history).1) none_pressed ≡ some none_pressed
replay-run-focus_lost_example = replay-run-focus_lost prefs ansi history

-- A keyboard that holds A and the right Control key, twice.
abbrev holding : Keyboard
holding = record fresh { pressed = (ext 0x1D, 2) ∷ (new 0x1E, 1) ∷ [] }

holding-IsValid : IsValid holding.pressed
holding-IsValid = record { sorted = omega arith; counted = omega arith }

command_scancode : scancode_for (kvk left_command) ansi super ≡ some (ext 0x5B)
unfolding scancode_for kvk
command_scancode = refl
