-- ===== src/Rdp/Fastpath/Examples.antt =====
-- Witness of the input encoder.
use drift.Base.{◌≡◌, true, false, is_some, List, [], ◌∷◌}
use drift.Base.Maps.{get}
use drift.Core.Events.{InputEvent, key, mouse_button, left, release_all}
use drift.Input.Keymap.Scancodes.{Scancode, scancode_key}
use drift.Rdp.Fastpath.{fresh, encode}
use drift.Rdp.Fastpath.Held.{replay, none_pressed, run, replay-run_encoder}

-- Two presses and one release, with a button held.
abbrev inputs : List InputEvent
inputs = key 28 false true ∷ mouse_button left true 3 4 ∷ key 91 true true ∷ key 28 false false ∷ []

abbrev windows_key : Scancode
windows_key = record { code = 91; extended = true }

replay-run_encoder_example :
    (replay none_pressed (run fresh inputs).1 windows_key
      ≡ is_some (get windows_key (run fresh inputs).0.keys))
    × (replay
          (replay none_pressed (run fresh inputs).1)
          (encode (run fresh inputs).0 release_all).1
          windows_key
        ≡ false)
replay-run_encoder_example = replay-run_encoder inputs windows_key
