-- ===== src/Input/Unicode.antt =====
-- crates/drift-input/src/unicode.rs: routing of key presses and Unicode events for typed text. A
-- text is the list of its scalar values (`char`s).
use drift.Base.{
  ℕ, ◌+◌, ◌-◌, ◌/◌, ◌%◌, Bool, true, false, not, ◌&&◌, ◌||◌, List, [], ◌∷◌, ◌++◌, leb, ltb,
  if◌then◌else◌,
}
use drift.Core.Events.{InputEvent, unicode, KeyboardPrefs}
use drift.Input.Keymap.{is_text_key}
use drift.Input.Modifiers.{ModifierFlags, has_flags, flag_command, flag_control}

pub data KeyRoute : Type 0 where
  scancode text : KeyRoute

-- `route_key_down`.
unfoldable pub route_key_down : KeyboardPrefs → ℕ → ModifierFlags → Bool → KeyRoute
route_key_down prefs kvk flags composing =
    if not prefs.type_with_mac_layout
      || has_flags flags flag_command
      || has_flags flags flag_control
    then scancode
    else if composing || is_text_key kvk
    then text
    else scancode

abbrev pub Text : Type 0
Text = List ℕ

-- `char::is_control`: the general category Cc.
abbrev is_control : ℕ → Bool
is_control c = leb c 0x1F || (leb 0x7F c && leb c 0x9F)

-- The filter of `text_to_events`.
abbrev pub is_typed : ℕ → Bool
is_typed c = not (is_control c) && not (leb 0xF700 c && leb c 0xF8FF)

-- `char::encode_utf16`.
abbrev pub encode_utf16 : ℕ → List ℕ
encode_utf16 c =
    if ltb c 0x10000
    then c ∷ []
    else (0xD800 + (c - 0x10000) / 1024) ∷ (0xDC00 + (c - 0x10000) % 1024) ∷ []

-- Each unit is pressed and released at once.
abbrev pub unit_events : List ℕ → List InputEvent
unit_events [] = []
unit_events (u ∷ us) = unicode u true ∷ unicode u false ∷ unit_events us

-- `text_to_events`.
unfoldable pub text_to_events : Text → List InputEvent
text_to_events [] = []
text_to_events (c ∷ cs) =
    if is_typed c then unit_events (encode_utf16 c) ++ text_to_events cs else text_to_events cs
