-- ===== src/Input/Keyboard/Calls.antt =====
-- Any history of calls on one `Keyboard`.
use drift.Base.{ℕ, ◌≡◌, refl, ◌∙◌, Bool, true, false, some, List, [], ◌∷◌, ◌++◌, if◌then◌else◌}
use drift.Base.Maps
use drift.Core.Events.{InputEvent, KeyboardPrefs}
use drift.Input.Unicode.{Text, KeyRoute, scancode, text, route_key_down}
use drift.Input.Keymap.{KeyboardType}
use drift.Input.Modifiers.{ModifierFlags}
use drift.Input.Keyboard.{
  Keyboard, KeyDown, send, interpret_text, Op, state, new_keyboard, flags_changed, key_down,
  key_down_scancode, key_up, insert_text, focus_lost, focus_gained, ctrl_alt_del, set_prefs,
  set_keyboard_type, menu_shortcut_taken, prepare_pointer_button,
}
use drift.Input.Keyboard.Wire.{
  Sound, Lands, IsValid, replay, wired, none_pressed, state-Sound, replay-append,
}
use drift.Input.Keyboard.Batch.{replay-focus_lost, focus_lost-Sound}
use drift.Input.Keyboard.Typed.{insert_text-Sound}
use drift.Input.Keyboard.Sound.{
  flags_changed-Sound, key_down_scancode-Sound, key_up-Sound, focus_gained-Sound,
  ctrl_alt_del-Sound, flush_command-Sound,
}

-- A call of `drift-macos` on the keyboard.
pub data Call : Type 0 where
  flags_change : ℕ → ModifierFlags → Call
  key_goes_down : ℕ → ModifierFlags → Bool → Bool → Call
  scancode_goes_down : ℕ → ModifierFlags → Call
  key_goes_up : ℕ → Call
  inserts : Text → Call
  loses_focus : Call
  gains_focus : ModifierFlags → Call
  takes_shortcut : Call
  prepares_button : Call
  sends_ctrl_alt_del : Call
  edits_prefs : KeyboardPrefs → Call
  switches_keyboard : KeyboardType → Call

-- The events of `KeyDown`.
abbrev sent : KeyDown → List InputEvent
sent (send es) = es
sent interpret_text = []

-- `Keyboard::key_down` as an operation.
abbrev key_down_op : ℕ → ModifierFlags → Bool → Bool → Op
key_down_op code flags is_repeat composing k =
    let (k', d) = key_down k code flags is_repeat composing in (k', sent d)

abbrev pub call : Call → Op
call (flags_change code flags) = flags_changed code flags
call (key_goes_down code flags is_repeat composing) = key_down_op code flags is_repeat composing
call (scancode_goes_down code flags) = key_down_scancode code flags
call (key_goes_up code) = key_up code
call (inserts t) = insert_text t
call loses_focus = focus_lost
call (gains_focus flags) = focus_gained flags
call takes_shortcut = state menu_shortcut_taken
call prepares_button = prepare_pointer_button
call sends_ctrl_alt_del = ctrl_alt_del
call (edits_prefs prefs) = state (λ k. set_prefs k prefs)
call (switches_keyboard keyboard) = state (λ k. set_keyboard_type k keyboard)

-- The state after the calls, and all that they sent.
unfoldable pub run : List Call → Op
run [] k = (k, [])
run (c ∷ cs) k = let (k', es) = call c k in let (k'', es') = run cs k' in (k'', es ++ es')

key_down_op-Lands :
    (k : Keyboard) (code : ℕ) (flags : ModifierFlags) (is_repeat composing : Bool)
    → IsValid k.pressed
    → Lands k (key_down_op code flags is_repeat composing k)
unfolding key_down
key_down_op-Lands k code flags is_repeat composing v =
    routed (route_key_down k.prefs code flags composing) is_repeat
  where
    routed :
        (r : KeyRoute) (b : Bool)
        → let (k', d) : Keyboard × KeyDown = elim r [
          | text ↦ (k, interpret_text)
          | scancode ↦
              if b
              then (k, send [])
              else ((key_down_scancode code flags k).0, send (key_down_scancode code flags k).1)
        ] in
          Lands k (k', sent d)
    routed text b = (v, unfold replay in refl)
    routed scancode true = (v, unfold replay in refl)
    routed scancode false = key_down_scancode-Sound code flags k v

call-Sound : (c : Call) → Sound (call c)
call-Sound (flags_change code flags) = flags_changed-Sound code flags
call-Sound (key_goes_down code flags is_repeat composing) =
    λ k v. key_down_op-Lands k code flags is_repeat composing v
call-Sound (scancode_goes_down code flags) = key_down_scancode-Sound code flags
call-Sound (key_goes_up code) = key_up-Sound code
call-Sound (inserts t) = insert_text-Sound t
call-Sound loses_focus = focus_lost-Sound
call-Sound (gains_focus flags) = focus_gained-Sound flags
call-Sound takes_shortcut = state-Sound menu_shortcut_taken (λ k. refl)
call-Sound prepares_button = flush_command-Sound
call-Sound sends_ctrl_alt_del = ctrl_alt_del-Sound
call-Sound (edits_prefs prefs) = state-Sound (λ k. set_prefs k prefs) (λ k. refl)
call-Sound (switches_keyboard keyboard) =
    state-Sound (λ k. set_keyboard_type k keyboard) (λ k. refl)

run-Sound : (cs : List Call) → Sound (run cs)
unfolding run
run-Sound [] k v = (v, unfold replay in refl)
run-Sound (c ∷ cs) k v =
    let (v', e) = call-Sound c k v in
    let (v'', e') = run-Sound cs (call c k).0 v' in
    (v'', replay-append (call c k).1 (run cs (call c k).0).1 _ _ e ∙ e')

-- Whatever is called on a new keyboard, and in whatever order, the remote accepts every event: a
-- key is pressed only while it is up and released only while it is down; and the keys that it then
-- considers pressed are exactly those that the keyboard reports.
pub replay-run :
    (prefs : KeyboardPrefs) (keyboard : KeyboardType) (cs : List Call)
    → let (k, es) = run cs (new_keyboard prefs keyboard) in
      replay es none_pressed ≡ some (wired k.pressed)
unfolding Maps.get
replay-run prefs keyboard cs =
    (run-Sound cs (new_keyboard prefs keyboard) (record { sorted = tt; counted = tt })).1

-- After any history of calls on a new keyboard, losing the focus leaves no key pressed on the
-- remote, and the remote accepts every event up to then.
pub replay-run-focus_lost :
    (prefs : KeyboardPrefs) (keyboard : KeyboardType) (cs : List Call)
    → let (k, es) = run cs (new_keyboard prefs keyboard) in
      replay (es ++ (focus_lost k).1) none_pressed ≡ some none_pressed
unfolding Maps.get
replay-run-focus_lost prefs keyboard cs =
    let k = new_keyboard prefs keyboard in
    let (v, e) = run-Sound cs k (record { sorted = tt; counted = tt }) in
    replay-append (run cs k).1 (focus_lost (run cs k).0).1 none_pressed _ e
    ∙ replay-focus_lost (run cs k).0 v
