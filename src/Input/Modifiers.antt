-- ===== src/Input/Modifiers.antt =====
-- crates/drift-input/src/modifiers.rs: modifier flags, side-specific modifier keys and sets of them.
-- A flags word is a u64; a set is a u8 with one bit for each key.
pub mod Sets
pub mod Held
use drift.Base.{
  ℕ, ◌-◌, ◌^◌, Bool, true, false, not, ◌&&◌, ◌||◌, Option, none, some, List, [], ◌∷◌, bit_and,
  bit_or, ◌==◌, if◌then◌else◌,
}
use drift.Input.Keymap.Codes.{
  shift, right_shift, control, right_control, option, right_option, command, right_command,
}

-- `ModifierFlags`.
abbrev pub ModifierFlags : Type 0
ModifierFlags = ℕ

abbrev pub flag_caps_lock : ℕ
flag_caps_lock = 2 ^ 16

abbrev pub flag_shift : ℕ
flag_shift = 2 ^ 17

abbrev pub flag_control : ℕ
flag_control = 2 ^ 18

abbrev pub flag_option : ℕ
flag_option = 2 ^ 19

abbrev pub flag_command : ℕ
flag_command = 2 ^ 20

abbrev pub device_left_control : ℕ
device_left_control = 0x0001

abbrev pub device_left_shift : ℕ
device_left_shift = 0x0002

abbrev pub device_right_shift : ℕ
device_right_shift = 0x0004

abbrev pub device_left_command : ℕ
device_left_command = 0x0008

abbrev pub device_right_command : ℕ
device_right_command = 0x0010

abbrev pub device_left_option : ℕ
device_left_option = 0x0020

abbrev pub device_right_option : ℕ
device_right_option = 0x0040

abbrev pub device_right_control : ℕ
device_right_control = 0x2000

-- `ModifierFlags::contains`.
unfoldable pub has_flags : ModifierFlags → ℕ → Bool
has_flags flags mask = bit_and flags mask == mask

-- `ModifierFlags::caps_lock`.
abbrev pub caps_lock_on : ModifierFlags → Bool
caps_lock_on flags = has_flags flags flag_caps_lock

pub data ModifierKey : Type 0 where
  left_shift right_shift_key left_control right_control_key : ModifierKey
  left_option right_option_key left_command right_command_key : ModifierKey

-- `ModifierKey::ALL`.
abbrev pub all_keys : List ModifierKey
all_keys =
    left_shift ∷ right_shift_key ∷ left_control ∷ right_control_key ∷ left_option ∷ right_option_key
    ∷ left_command ∷ right_command_key ∷ []

-- The discriminant, `key as usize`.
abbrev pub index : ModifierKey → ℕ
index left_shift = 0
index right_shift_key = 1
index left_control = 2
index right_control_key = 3
index left_option = 4
index right_option_key = 5
index left_command = 6
index right_command_key = 7

-- `==` on keys.
abbrev pub same_key : ModifierKey → ModifierKey → Bool
same_key a b = index a == index b

-- `ModifierKey::kvk`.
unfoldable pub kvk : ModifierKey → ℕ
kvk left_shift = shift
kvk right_shift_key = right_shift
kvk left_control = control
kvk right_control_key = right_control
kvk left_option = option
kvk right_option_key = right_option
kvk left_command = command
kvk right_command_key = right_command

find_kvk : ℕ → List ModifierKey → Option ModifierKey
unfolding kvk
find_kvk code [] = none
find_kvk code (k ∷ ks) = if kvk k == code then some k else find_kvk code ks

-- `ModifierKey::from_kvk`.
unfoldable pub from_kvk : ℕ → Option ModifierKey
unfolding find_kvk
from_kvk code = find_kvk code all_keys

-- `ModifierKey::is_command`.
abbrev pub is_command : ModifierKey → Bool
is_command left_command = true
is_command right_command_key = true
is_command _ = false

-- `ModifierKey::bit`.
abbrev pub bit : ModifierKey → ℕ
bit key = 2 ^ index key

pub record ModifierSet : Type 0 where
  pub bits : ℕ

-- `ModifierSet::EMPTY`.
abbrev pub empty : ModifierSet
empty = record { bits = 0 }

-- `ModifierSet::contains`.
unfoldable pub contains : ModifierSet → ModifierKey → Bool
contains s key = not (bit_and s.bits (bit key) == 0)

-- `ModifierSet::insert`.
unfoldable pub insert : ModifierSet → ModifierKey → ModifierSet
insert s key = record { bits = bit_or s.bits (bit key) }

-- `ModifierSet::remove`; `!bit` on u8 is 255 - bit.
unfoldable pub remove : ModifierSet → ModifierKey → ModifierSet
remove s key = record { bits = bit_and s.bits (255 - bit key) }

-- A row of `CLASSES`.
pub record Class : Type 0 where
  pub flag : ℕ
  pub left : ModifierKey
  pub left_bit : ℕ
  pub right : ModifierKey
  pub right_bit : ℕ

abbrev class : ℕ → ModifierKey → ℕ → ModifierKey → ℕ → Class
class flag left left_bit right right_bit = record {
  flag = flag;
  left = left;
  left_bit = left_bit;
  right = right;
  right_bit = right_bit;
}

-- `CLASSES` of `held_modifiers`.
abbrev pub classes : List Class
classes =
    class flag_shift left_shift device_left_shift right_shift_key device_right_shift
    ∷ class flag_control left_control device_left_control right_control_key device_right_control
    ∷ class flag_option left_option device_left_option right_option_key device_right_option
    ∷ class flag_command left_command device_left_command right_command_key device_right_command
    ∷ []

abbrev insert_if : Bool → ModifierKey → ModifierSet → ModifierSet
insert_if true key s = insert s key
insert_if false key s = s

-- `changed.filter(|k| *k == left || *k == right)`.
abbrev pub of_class : Option ModifierKey → Class → Option ModifierKey
of_class none c = none
of_class (some k) c = if same_key k c.left || same_key k c.right then some k else none

-- The last two branches of the loop body: no device bits.
unfoldable pub hold_synthetic : Class → Option ModifierKey → ModifierSet → ModifierSet → ModifierSet
hold_synthetic c (some key) previous held = insert held key
hold_synthetic c none previous held =
    if contains previous c.left || contains previous c.right
    then insert_if (contains previous c.right) c.right
        (insert_if (contains previous c.left) c.left held)
    else insert held c.left

-- The body of the loop over the classes.
unfoldable pub hold_class :
    ModifierFlags → Option ModifierKey → ModifierSet → Class → ModifierSet → ModifierSet
hold_class flags changed previous c held =
    let l = has_flags flags c.left_bit in
    let r = has_flags flags c.right_bit in
    if not (has_flags flags c.flag)
    then held
    else if l || r
    then insert_if r c.right (insert_if l c.left held)
    else hold_synthetic c (of_class changed c) previous held

hold_classes :
    ModifierFlags → Option ModifierKey → ModifierSet → List Class → ModifierSet → ModifierSet
hold_classes flags changed previous [] held = held
hold_classes flags changed previous (c ∷ cs) held =
    hold_classes flags changed previous cs (hold_class flags changed previous c held)

-- `changed_kvk.and_then(ModifierKey::from_kvk)`.
abbrev pub changed_key : Option ℕ → Option ModifierKey
changed_key none = none
changed_key (some code) = from_kvk code

-- `held_modifiers`.
unfoldable pub held_modifiers : ModifierFlags → Option ℕ → ModifierSet → ModifierSet
unfolding hold_classes
held_modifiers flags changed_kvk previous =
    hold_classes flags (changed_key changed_kvk) previous classes empty
