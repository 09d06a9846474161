-- ===== src/Input/Keyboard/Command.antt =====
-- The deferred Command key: taken by the menu, or released alone.
use drift.Base.{◌≡◌, refl, true, false, none, some, [], ◌∷◌, arith}
use drift.Base.Maps
use drift.Input.Keymap.Scancodes.{Scancode, event, scancode_key}
use drift.Input.Modifiers.{ModifierKey, ModifierSet, contains, insert, remove, is_command}
use drift.Input.Modifiers.Sets.{IsSet8, contains-insert, contains-remove, insert-IsSet8}
use drift.Input.Keyboard.{
  Keyboard, ◌>>◌, state, press, release, tap, press_modifier, release_modifier, menu_shortcut_taken,
  scancode_of,
}

-- The sets of deferred Command keys are u8s.
pub record HasSets (k : Keyboard) : Type 0 where
  pub pending : IsSet8 k.cmd_pending
  pub consumed : IsSet8 k.cmd_consumed

-- Set laws at one key.
contains-insert_self :
    (s : ModifierSet) (key : ModifierKey) → IsSet8 s → contains (insert s key) key ≡ true
contains-insert_self s key h = ground (arith, contains-insert s key key h)

contains-remove_self :
    (s : ModifierSet) (key : ModifierKey) → IsSet8 s → contains (remove s key) key ≡ false
contains-remove_self s key h = ground (arith, contains-remove s key key h)

-- A Command key that goes down, is used for a menu shortcut and goes up again sends nothing, and
-- leaves the reference counts as they were.
menu_shortcut_silent :
    (k : Keyboard) (key : ModifierKey)
    → is_command key ≡ true
    → HasSets k
    → let (k', es) = (press_modifier key >> state menu_shortcut_taken >> release_modifier key) k in
      (es ≡ []) × (k'.pressed ≡ k.pressed) × (contains k'.cmd_pending key ≡ false)
unfolding press_modifier release_modifier ◌>>◌
menu_shortcut_silent k key c v =
    let up = contains-insert_self k.cmd_pending key v.pending in
    let gone =
      contains-remove_self (insert k.cmd_pending key) key
        (insert-IsSet8 k.cmd_pending key key v.pending) in
    rw (c, up) (refl, refl, gone)

tap_events :
    (k : Keyboard) (sc : Scancode)
    → Maps.get sc k.pressed ≡ none
    → (tap (some sc) k).1 ≡ event sc true ∷ event sc false ∷ []
unfolding tap press release ◌>>◌
tap_events k sc e =
    let got : Maps.get sc (Maps.insert sc 1 k.pressed) ≡ some 1 =
      ground (arith, Maps.get-insert sc sc 1 k.pressed) in
    rw (e, release) (rw got)

-- A Command key that goes down and up alone is sent as one tap: its press and its release.
pub command_tap :
    (k : Keyboard) (key : ModifierKey) (sc : Scancode)
    → is_command key ≡ true
    → HasSets k
    → scancode_of k key ≡ some sc
    → Maps.get sc k.pressed ≡ none
    → ((press_modifier key >> release_modifier key) k).1 ≡ event sc true ∷ event sc false ∷ []
unfolding press_modifier release_modifier ◌>>◌
command_tap k key sc c v s e =
    let up = contains-insert_self k.cmd_pending key v.pending in
    let down = contains-remove_self k.cmd_consumed key v.consumed in
    rw (c, up, down, s) (tap_events _ sc e)
