-- ===== src/Rdp/Fastpath.antt =====
-- crates/drift-rdp/src/fastpath.rs: input events as fast-path events, and what is held. The flag words
-- of IronRDP are records of their flags; a set is a map to the unit type.
pub mod Held
mod Examples
use drift.Base.{ℕ, min, ◌≡◌, Bool, true, false, not, List, [], ◌∷◌, ◌++◌, arith, if◌then◌else◌}
use drift.Base.Int.{ℤ, pos, negsuc}
use drift.Base.Maps.{BTreeMap, Key, insert, remove}
use drift.Core.Events.{
  InputEvent, key, unicode, mouse_move, mouse_button, wheel, sync_toggles, release_all, MouseButton,
  left, right, middle, x1, x2,
}
use drift.Input.Keymap.Scancodes.{Scancode, scancode_key}

pub record KeyboardFlags : Type 0 where
  pub release : Bool
  pub extended : Bool

-- What the pointer flags name, and `DOWN`.
pub data Pointer : Type 0 where
  move vertical_wheel horizontal_wheel left_button right_button middle_button_or_wheel : Pointer

pub record PointerFlags : Type 0 where
  pub what : Pointer
  pub down : Bool

pub data PointerX : Type 0 where
  button1 button2 : PointerX

pub record PointerXFlags : Type 0 where
  pub what : PointerX
  pub down : Bool

pub record SynchronizeFlags : Type 0 where
  pub caps_lock : Bool
  pub num_lock : Bool

-- `FastPathInputEvent`, of the kinds that are sent.
pub data FastPath : Type 0 where
  keyboard_event : KeyboardFlags → ℕ → FastPath
  unicode_event : KeyboardFlags → ℕ → FastPath
  mouse_event : PointerFlags → ℤ → ℕ → ℕ → FastPath
  mouse_event_ex : PointerXFlags → ℕ → ℕ → FastPath
  sync_event : SynchronizeFlags → FastPath

-- `ButtonId` is the enumeration `MouseButton`, in the same order.
abbrev button_rank : MouseButton → ℕ
button_rank left = 0
button_rank right = 1
button_rank middle = 2
button_rank x1 = 3
button_rank x2 = 4

pub button_rank-injective : (a b : MouseButton) → button_rank a ≡ button_rank b → a ≡ b
button_rank-injective a b h = ground arith

instance abbrev pub button_key : Key MouseButton
button_key = record { rank = button_rank; injective = button_rank-injective }

pub record InputEncoder : Type 0 where
  pub keys : BTreeMap Scancode (Unit {0})
  pub buttons : BTreeMap MouseButton (Unit {0})
  pub x : ℕ
  pub y : ℕ
  pub caps : Bool
  pub num : Bool

-- `InputEncoder::default`.
abbrev pub fresh : InputEncoder
fresh = record { keys = []; buttons = []; x = 0; y = 0; caps = false; num = false }

-- `key`.
abbrev pub key_event : Scancode → Bool → FastPath
key_event sc down = keyboard_event (record { release = not down; extended = sc.extended }) sc.code

abbrev mouse : Pointer → Bool → ℤ → ℕ → ℕ → FastPath
mouse what down units x y = mouse_event (record { what = what; down = down }) units x y

-- `button`.
abbrev pub button_event : MouseButton → Bool → ℕ → ℕ → FastPath
button_event left down x y = mouse left_button down (pos 0) x y
button_event right down x y = mouse right_button down (pos 0) x y
button_event middle down x y = mouse middle_button_or_wheel down (pos 0) x y
button_event x1 down x y = mouse_event_ex (record { what = button1; down = down }) x y
button_event x2 down x y = mouse_event_ex (record { what = button2; down = down }) x y

-- `units.clamp(-255, 255)`.
abbrev clamp_units : ℤ → ℤ
clamp_units (pos n) = pos (min n 255)
clamp_units (negsuc n) = negsuc (min n 254)

abbrev pub set_key : InputEncoder → Scancode → Bool → InputEncoder
set_key e sc true = record e { keys = insert sc tt e.keys }
set_key e sc false = record e { keys = remove sc e.keys }

abbrev pub set_button : InputEncoder → MouseButton → Bool → InputEncoder
set_button e b true = record e { buttons = insert b tt e.buttons }
set_button e b false = record e { buttons = remove b e.buttons }

abbrev pub key_releases : BTreeMap Scancode (Unit {0}) → List FastPath
key_releases [] = []
key_releases ((sc, u) ∷ m) = key_event sc false ∷ key_releases m

abbrev pub button_releases : ℕ → ℕ → BTreeMap MouseButton (Unit {0}) → List FastPath
button_releases x y [] = []
button_releases x y ((b, u) ∷ m) = button_event b false x y ∷ button_releases x y m

-- `InputEncoder::encode`.
unfoldable pub encode : InputEncoder → InputEvent → InputEncoder × List FastPath
encode e (key code extended down) =
    let sc : Scancode = record { code = code; extended = extended } in
    (set_key e sc down, key_event sc down ∷ [])
encode e (unicode ch down) =
    (e, unicode_event (record { release = not down; extended = false }) ch ∷ [])
encode e (mouse_move x y) = (record e { x = x; y = y }, mouse move false (pos 0) x y ∷ [])
encode e (mouse_button b down x y) =
    (set_button (record e { x = x; y = y }) b down, button_event b down x y ∷ [])
encode e (wheel horizontal units) = (
  e,
  mouse (if horizontal then horizontal_wheel else vertical_wheel) false (clamp_units units) e.x e.y
      ∷ [],
)
encode e (sync_toggles caps num) = (
  record e { caps = caps; num = num },
  sync_event (record { caps_lock = caps; num_lock = num }) ∷ [],
)
encode e release_all =
    (record e { keys = []; buttons = [] }, key_releases e.keys ++ button_releases e.x e.y e.buttons)

-- `InputEncoder::toggles`.
abbrev pub toggles : InputEncoder → InputEvent
toggles e = sync_toggles e.caps e.num
