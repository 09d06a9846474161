-- ===== src/Input/Keyboard.antt =====
-- crates/drift-input/src/keyboard.rs: the stateful keyboard translation. A method that appends to
-- `out` is an operation: it returns the new state and the events that it appends.
pub mod Wire
pub mod Press
pub mod Batch
pub mod Typed
pub mod Sound
pub mod Calls
pub mod Command
mod Examples
use drift.Base.{
  ℕ, ◌+◌, ◌-◌, min, Bool, true, false, not, ◌&&◌, ◌||◌, Option, none, some, List, [], ◌∷◌, ◌++◌,
  map, reverse, ◌==◌, is_some, if◌then◌else◌,
}
use drift.Base.Maps.{BTreeMap, nat_key}
use drift.Base.Maps
use drift.Core.Events.{InputEvent, sync_toggles, KeyboardPrefs}
use drift.Input.Keymap.{KeyboardType, scancode_for, is_modifier}
use drift.Input.Keymap.Codes.{caps_lock}
use drift.Input.Keymap.Scancodes.{Scancode, new, ext, event, scancode_key}
use drift.Input.Modifiers.{
  ModifierFlags, ModifierKey, ModifierSet, all_keys, index, kvk, is_command, empty, contains,
  insert, remove, caps_lock_on, held_modifiers,
}
use drift.Input.Unicode.{KeyRoute, text, scancode, route_key_down, text_to_events, Text}

-- `Keyboard`. `mod_sent` is the array indexed by `ModifierKey as usize`.
pub record Keyboard : Type 0 where
  pub prefs : KeyboardPrefs
  pub keyboard : KeyboardType
  pub mods : ModifierSet
  pub mod_sent : ℕ → Option Scancode
  pub cmd_pending : ModifierSet
  pub cmd_consumed : ModifierSet
  pub held_keys : BTreeMap ℕ Scancode
  pub pressed : BTreeMap Scancode ℕ
  pub caps : Option Bool

pub data KeyDown : Type 0 where
  send : List InputEvent → KeyDown
  interpret_text : KeyDown

-- A method with `out`.
abbrev pub Op : Type 0
Op = Keyboard → Keyboard × List InputEvent

abbrev pub nothing : Op
nothing k = (k, [])

infixl 5 ◌>>◌
unfoldable pub ◌>>◌ : Op → Op → Op
◌>>◌ f g k = let (k', es) = f k in let (k'', es') = g k' in (k'', es ++ es')

-- A `for` loop over keys.
unfoldable pub for_each : {A : Type 0} → List A → (A → Op) → Op
for_each [] f = nothing
for_each (a ∷ as') f = f a >> for_each as' f

-- `Keyboard::new`.
abbrev pub new_keyboard : KeyboardPrefs → KeyboardType → Keyboard
new_keyboard prefs keyboard = record {
  prefs = prefs;
  keyboard = keyboard;
  mods = empty;
  mod_sent = λ i. none;
  cmd_pending = empty;
  cmd_consumed = empty;
  held_keys = [];
  pressed = [];
  caps = none;
}

-- `Keyboard::set_prefs`, `Keyboard::set_keyboard_type`.
abbrev pub set_prefs : Keyboard → KeyboardPrefs → Keyboard
set_prefs k prefs = record k { prefs = prefs }

abbrev pub set_keyboard_type : Keyboard → KeyboardType → Keyboard
set_keyboard_type k keyboard = record k { keyboard = keyboard }

-- `u8::saturating_add`.
abbrev saturating_add_u8 : ℕ → ℕ → ℕ
saturating_add_u8 a b = min (a + b) 255

-- `entry(sc).or_insert(0)`.
abbrev or_zero : Option ℕ → ℕ
or_zero none = 0
or_zero (some n) = n

-- `Keyboard::press`.
unfoldable pub press : Scancode → Op
press sc k =
    let count = or_zero (Maps.get sc k.pressed) in
    (
      record k { pressed = Maps.insert sc (saturating_add_u8 count 1) k.pressed },
      if count == 0 then event sc true ∷ [] else [],
    )

abbrev release_counted : Scancode → Option ℕ → Op
release_counted sc none k = (k, [])
release_counted sc (some count) k =
    if (count - 1) == 0
    then (record k { pressed = Maps.remove sc k.pressed }, event sc false ∷ [])
    else (record k { pressed = Maps.insert sc (count - 1) k.pressed }, [])

-- `Keyboard::release`.
unfoldable pub release : Scancode → Op
release sc k = release_counted sc (Maps.get sc k.pressed) k

-- The scancode of a modifier key under the current preferences.
abbrev pub scancode_of : Keyboard → ModifierKey → Option Scancode
scancode_of k key = scancode_for (kvk key) k.keyboard k.prefs.cmd_as

-- `self.mod_sent[key as usize] = value`.
abbrev pub set_sent : ModifierKey → Option Scancode → Keyboard → Keyboard
set_sent key value k = record k { mod_sent = λ i. if i == index key then value else k.mod_sent i }

abbrev pub state : (Keyboard → Keyboard) → Op
state f k = (f k, [])

abbrev forget_commands : Keyboard → Keyboard
forget_commands k = record k { cmd_pending = empty; cmd_consumed = empty }

abbrev set_mods : ModifierSet → Keyboard → Keyboard
set_mods mods k = record k { mods = mods }

abbrev hold : ℕ → Scancode → Keyboard → Keyboard
hold code sc k = record k { held_keys = Maps.insert code sc k.held_keys }

abbrev unhold : ℕ → Keyboard → Keyboard
unhold code k = record k { held_keys = Maps.remove code k.held_keys }

press_sent : ModifierKey → Option Scancode → Op
press_sent key none = nothing
press_sent key (some sc) = press sc >> state (set_sent key (some sc))

-- `Keyboard::press_modifier`.
unfoldable pub press_modifier : ModifierKey → Op
unfolding press_sent
press_modifier key k =
    if is_command key
    then (
      record k { cmd_pending = insert k.cmd_pending key; cmd_consumed = remove k.cmd_consumed key },
      [],
    )
    else press_sent key (scancode_of k key) k

tap : Option Scancode → Op
tap none = nothing
tap (some sc) = press sc >> release sc

release_sent : Option Scancode → Op
release_sent none = nothing
release_sent (some sc) = release sc

-- `Keyboard::release_modifier`.
unfoldable pub release_modifier : ModifierKey → Op
unfolding tap release_sent
release_modifier key k =
    let consumed = contains k.cmd_consumed key in
    let dropped = record k {
      cmd_pending = remove k.cmd_pending key;
      cmd_consumed = remove k.cmd_consumed key;
    } in
    if contains k.cmd_pending key
    then (if consumed then nothing else tap (scancode_of k key)) dropped
    else release_sent (k.mod_sent (index key)) (set_sent key none k)

flush_key : ModifierKey → Op
unfolding press_sent
flush_key key k = press_sent key (scancode_of k key) k

-- `ModifierSet::iter`.
abbrev pub filter_keys : (ModifierKey → Bool) → List ModifierKey → List ModifierKey
filter_keys p [] = []
filter_keys p (key ∷ keys) = if p key then key ∷ filter_keys p keys else filter_keys p keys

abbrev pub iter : ModifierSet → List ModifierKey
iter s = filter_keys (contains s) all_keys

-- `Keyboard::flush_command`.
unfoldable pub flush_command : Op
unfolding flush_key
flush_command k = (for_each (iter k.cmd_pending) flush_key >> state forget_commands) k

-- `caps.is_some_and(|c| c != caps)`.
abbrev caps_changed : Option Bool → Bool → Bool
caps_changed none caps = false
caps_changed (some true) caps = not caps
caps_changed (some false) caps = caps

-- `Keyboard::sync_caps`.
unfoldable pub sync_caps : ModifierFlags → Bool → Op
sync_caps flags force k =
    let caps = caps_lock_on flags in
    (
      record k { caps = some caps },
      if force || caps_changed k.caps caps then sync_toggles caps true ∷ [] else [],
    )

-- The first loop of `apply_modifiers`: keys of the old set that are not in the new one.
abbrev pub released : ModifierSet → ModifierSet → List ModifierKey
released old new' =
    filter_keys (λ key. contains old key && not (contains new' key)) (reverse all_keys)

-- The second loop: keys of the new set that are not in the old one.
abbrev pub added : ModifierSet → ModifierSet → List ModifierKey
added old new' = filter_keys (λ key. not (contains old key) && contains new' key) all_keys

-- `Keyboard::apply_modifiers`; `mods` is written after both loops.
unfoldable pub apply_modifiers : ModifierFlags → Option ℕ → Op
apply_modifiers flags changed k =
    let new' = held_modifiers flags changed k.mods in
    (for_each (released k.mods new') release_modifier
        >> for_each (added k.mods new') press_modifier
        >> state (set_mods new'))
      k

-- `Keyboard::flags_changed`.
unfoldable pub flags_changed : ℕ → ModifierFlags → Op
flags_changed code flags = sync_caps flags (code == caps_lock) >> apply_modifiers flags (some code)

press_key : ℕ → Option Scancode → Op
press_key code none = nothing
press_key code (some sc) = flush_command >> press sc >> state (hold code sc)

-- The tail of `key_down_scancode`, after the modifiers were applied.
unfoldable pub key_press : ℕ → Op
unfolding press_key
key_press code k =
    if is_modifier code || Maps.contains_key code k.held_keys
    then (k, [])
    else press_key code (scancode_for code k.keyboard k.prefs.cmd_as) k

-- `Keyboard::key_down_scancode`.
unfoldable pub key_down_scancode : ℕ → ModifierFlags → Op
key_down_scancode code flags = sync_caps flags false >> apply_modifiers flags none >> key_press code

-- `Keyboard::key_down`.
unfoldable pub key_down : Keyboard → ℕ → ModifierFlags → Bool → Bool → Keyboard × KeyDown
key_down k code flags is_repeat composing =
    let (k', es) = key_down_scancode code flags k in
    elim (route_key_down k.prefs code flags composing) [
      | text ↦ (k, interpret_text)
      | scancode ↦ if is_repeat then (k, send []) else (k', send es)
    ]

release_held : ℕ → Option Scancode → Op
release_held code none = nothing
release_held code (some sc) = state (unhold code) >> release sc

-- `Keyboard::key_up`.
unfoldable pub key_up : ℕ → Op
unfolding release_held
key_up code k = release_held code (Maps.get code k.held_keys) k

-- `TEXT_LEVEL_MODIFIERS`.
abbrev pub text_level_modifiers : List Scancode
text_level_modifiers = new 0x2A ∷ new 0x36 ∷ new 0x38 ∷ ext 0x38 ∷ []

abbrev pub lifted : BTreeMap Scancode ℕ → List Scancode → List Scancode
lifted m [] = []
lifted m (sc ∷ scs) = if Maps.contains_key sc m then sc ∷ lifted m scs else lifted m scs

abbrev pub events : Bool → List Scancode → List InputEvent
events down [] = []
events down (sc ∷ scs) = event sc down ∷ events down scs

abbrev around : List Scancode → List InputEvent → List InputEvent
around scs [] = []
around scs (e ∷ es) = events false scs ++ ((e ∷ es) ++ events true scs)

-- `Keyboard::insert_text`.
unfoldable pub insert_text : Text → Op
insert_text t k = (k, around (lifted k.pressed text_level_modifiers) (text_to_events t))

-- `Keyboard::menu_shortcut_taken`.
abbrev pub menu_shortcut_taken : Keyboard → Keyboard
menu_shortcut_taken k = record k { cmd_consumed = k.cmd_pending }

-- `Keyboard::prepare_pointer_button`.
abbrev pub prepare_pointer_button : Op
prepare_pointer_button = flush_command

-- `Keyboard::focus_lost`.
unfoldable pub focus_lost : Op
focus_lost k = (
  record k {
    mods = empty;
    mod_sent = λ i. none;
    cmd_pending = empty;
    cmd_consumed = empty;
    held_keys = [];
    pressed = [];
  },
  events false (Maps.keys k.pressed),
)

-- `Keyboard::focus_gained`.
unfoldable pub focus_gained : ModifierFlags → Op
focus_gained flags = sync_caps flags true >> apply_modifiers flags none

abbrev del_sequence : List Scancode
del_sequence = new 0x1D ∷ new 0x38 ∷ ext 0x53 ∷ []

-- `Keyboard::ctrl_alt_del`.
unfoldable pub ctrl_alt_del : Op
ctrl_alt_del = for_each del_sequence press >> for_each (reverse del_sequence) release

-- `Keyboard::remote_pressed`.
abbrev pub remote_pressed : Keyboard → List Scancode
remote_pressed k = Maps.keys k.pressed
