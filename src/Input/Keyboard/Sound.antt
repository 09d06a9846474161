-- ===== src/Input/Keyboard/Sound.antt =====
-- The operations of the keyboard, the remote's keys and the reference counts.
use drift.Base.{ℕ, refl, Bool, true, false, Option, none, some, reverse, arith}
use drift.Base.Maps.{nat_key}
use drift.Base.Maps
use drift.Input.Keymap.Scancodes.{Scancode}
use drift.Input.Modifiers.{ModifierFlags, ModifierKey, contains, index, held_modifiers}
use drift.Input.Keyboard.{
  nothing, ◌>>◌, for_each, state, press, release, press_sent, tap, release_sent, press_modifier,
  release_modifier, flush_key, flush_command, sync_caps, apply_modifiers, flags_changed, key_press,
  press_key, key_down_scancode, key_up, release_held, focus_gained, ctrl_alt_del, iter, released,
  added, set_sent, scancode_of, forget_commands, set_mods, hold, unhold, is_modifier, scancode_for,
  is_command, caps_lock, del_sequence, ◌||◌, ◌==◌,
}
use drift.Input.Keyboard.Wire.{
  Sound, replay, >>-Sound, nothing-Sound, if-Lands, if-Sound, for_each-Sound, state-Sound,
}
use drift.Input.Keyboard.Press.{press-Sound, release-Sound}

press_sent-Sound : (key : ModifierKey) (o : Option Scancode) → Sound (press_sent key o)
unfolding press_sent
press_sent-Sound key none = nothing-Sound
press_sent-Sound key (some sc) =
    >>-Sound (press sc) (state (set_sent key (some sc))) (press-Sound sc)
      (state-Sound (set_sent key (some sc)) (λ k. refl))

press_modifier-Sound : (key : ModifierKey) → Sound (press_modifier key)
unfolding press_modifier
press_modifier-Sound key k v =
    if-Lands k (is_command key) _ _ (v, unfold replay in refl)
      (press_sent-Sound key (scancode_of k key) k v)

tap-Sound : (o : Option Scancode) → Sound (tap o)
unfolding tap
tap-Sound none = nothing-Sound
tap-Sound (some sc) = >>-Sound (press sc) (release sc) (press-Sound sc) (release-Sound sc)

release_sent-Sound : (o : Option Scancode) → Sound (release_sent o)
unfolding release_sent
release_sent-Sound none = nothing-Sound
release_sent-Sound (some sc) = release-Sound sc

release_modifier-Sound : (key : ModifierKey) → Sound (release_modifier key)
unfolding release_modifier
release_modifier-Sound key k v =
    if-Lands k (contains k.cmd_pending key) _ _
      (if-Sound (contains k.cmd_consumed key) nothing (tap (scancode_of k key)) nothing-Sound
        (tap-Sound (scancode_of k key)) _ v)
      (release_sent-Sound (k.mod_sent (index key)) _ v)

flush_key-Sound : (key : ModifierKey) → Sound (flush_key key)
unfolding flush_key
flush_key-Sound key k v = press_sent-Sound key (scancode_of k key) k v

pub flush_command-Sound : Sound flush_command
unfolding flush_command
flush_command-Sound k v =
    >>-Sound (for_each (iter k.cmd_pending) flush_key) (state forget_commands)
      (for_each-Sound (iter k.cmd_pending) flush_key flush_key-Sound)
      (state-Sound forget_commands (λ k'. refl)) k v

sync_caps-Sound : (flags : ModifierFlags) (force : Bool) → Sound (sync_caps flags force)
unfolding sync_caps replay
sync_caps-Sound flags force k v = (v, ground arith)

apply_modifiers-Sound :
    (flags : ModifierFlags) (changed : Option ℕ) → Sound (apply_modifiers flags changed)
unfolding apply_modifiers
apply_modifiers-Sound flags changed k v =
    let new' = held_modifiers flags changed k.mods in
    let drop = for_each (released k.mods new') release_modifier in
    let add = for_each (added k.mods new') press_modifier in
    >>-Sound (drop >> add) (state (set_mods new'))
      (>>-Sound drop add
        (for_each-Sound (released k.mods new') release_modifier release_modifier-Sound)
        (for_each-Sound (added k.mods new') press_modifier press_modifier-Sound))
      (state-Sound (set_mods new') (λ k'. refl)) k v

press_key-Sound : (code : ℕ) (o : Option Scancode) → Sound (press_key code o)
unfolding press_key
press_key-Sound code none = nothing-Sound
press_key-Sound code (some sc) =
    >>-Sound (flush_command >> press sc) (state (hold code sc))
      (>>-Sound flush_command (press sc) flush_command-Sound (press-Sound sc))
      (state-Sound (hold code sc) (λ k. refl))

key_press-Sound : (code : ℕ) → Sound (key_press code)
unfolding key_press
key_press-Sound code k v =
    if-Lands k (is_modifier code || Maps.contains_key code k.held_keys) _ _
      (v, unfold replay in refl)
      (press_key-Sound code (scancode_for code k.keyboard k.prefs.cmd_as) k v)

pub key_down_scancode-Sound :
    (code : ℕ) (flags : ModifierFlags) → Sound (key_down_scancode code flags)
unfolding key_down_scancode
key_down_scancode-Sound code flags =
    >>-Sound (sync_caps flags false >> apply_modifiers flags none) (key_press code)
      (>>-Sound (sync_caps flags false) (apply_modifiers flags none) (sync_caps-Sound flags false)
        (apply_modifiers-Sound flags none))
      (key_press-Sound code)

release_held-Sound : (code : ℕ) (o : Option Scancode) → Sound (release_held code o)
unfolding release_held
release_held-Sound code none = nothing-Sound
release_held-Sound code (some sc) =
    >>-Sound (state (unhold code)) (release sc) (state-Sound (unhold code) (λ k. refl))
      (release-Sound sc)

pub key_up-Sound : (code : ℕ) → Sound (key_up code)
unfolding key_up
key_up-Sound code k v = release_held-Sound code (Maps.get code k.held_keys) k v

pub flags_changed-Sound : (code : ℕ) (flags : ModifierFlags) → Sound (flags_changed code flags)
unfolding flags_changed
flags_changed-Sound code flags =
    >>-Sound (sync_caps flags (code == caps_lock)) (apply_modifiers flags (some code))
      (sync_caps-Sound flags (code == caps_lock)) (apply_modifiers-Sound flags (some code))

pub focus_gained-Sound : (flags : ModifierFlags) → Sound (focus_gained flags)
unfolding focus_gained
focus_gained-Sound flags =
    >>-Sound (sync_caps flags true) (apply_modifiers flags none) (sync_caps-Sound flags true)
      (apply_modifiers-Sound flags none)

pub ctrl_alt_del-Sound : Sound ctrl_alt_del
unfolding ctrl_alt_del
ctrl_alt_del-Sound =
    >>-Sound (for_each del_sequence press) (for_each (reverse del_sequence) release)
      (for_each-Sound del_sequence press press-Sound)
      (for_each-Sound (reverse del_sequence) release release-Sound)
