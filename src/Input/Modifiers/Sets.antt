-- ===== src/Input/Modifiers/Sets.antt =====
-- The laws of `ModifierSet`, read off the table of its 256 values.
use drift.Base.{
  if◌then◌else◌, ℕ, zero, suc, ◌<◌, ◌≡◌, refl, Bool, true, false, not, ◌&&◌, ◌||◌, ltb, arith,
}
use drift.Input.Modifiers.{
  ModifierKey, ModifierSet, contains, insert, remove, same_key, left_shift, right_shift_key,
  left_control, right_control_key, left_option, right_option_key, left_command, right_command_key,
}

-- The test holds of the numbers under the bound.
holds_under : (ℕ → Bool) → ℕ → Bool
holds_under test zero = true
holds_under test (suc bound) = if test bound then holds_under test bound else false

under_bound :
    (test : ℕ → Bool) (bound i : ℕ) → i < bound → holds_under test bound ≡ true → test i ≡ true
unfolding holds_under
under_bound test zero i smaller holds = absurd (omega arith)
under_bound test (suc bound) i smaller holds = ground (arith, under_bound test bound i)

-- A u8.
abbrev pub IsSet8 : ModifierSet → Type 0
IsSet8 s = s.bits < 256

-- All eight keys.
all_eight : (ModifierKey → Bool) → Bool
all_eight p =
    p left_shift
    && p right_shift_key
    && p left_control
    && p right_control_key
    && p left_option
    && p right_option_key
    && p left_command
    && p right_command_key

all_eight_sound : (p : ModifierKey → Bool) (key : ModifierKey) → all_eight p ≡ true → p key ≡ true
unfolding all_eight
all_eight_sound p left_shift h = ground arith
all_eight_sound p right_shift_key h = ground arith
all_eight_sound p left_control h = ground arith
all_eight_sound p right_control_key h = ground arith
all_eight_sound p left_option h = ground arith
all_eight_sound p right_option_key h = ground arith
all_eight_sound p left_command h = ground arith
all_eight_sound p right_command_key h = ground arith

abbrev iff : Bool → Bool → Bool
iff true b = b
iff false b = not b

iff_sound : (a b : Bool) → iff a b ≡ true → a ≡ b
iff_sound a b h = ground arith

abbrev set8 : ℕ → ModifierSet
set8 bits = record { bits = bits }

-- The laws of `insert` and `remove` at one set and two keys.
abbrev laws : ℕ → ModifierKey → ModifierKey → Bool
laws bits k j =
    iff (contains (insert (set8 bits) k) j) (same_key j k || contains (set8 bits) j)
    && iff (contains (remove (set8 bits) k) j) (not (same_key j k) && contains (set8 bits) j)
    && ltb (insert (set8 bits) k).bits 256
    && ltb (remove (set8 bits) k).bits 256

table : holds_under (λ bits. all_eight (λ k. all_eight (λ j. laws bits k j))) 256 ≡ true
unfolding holds_under all_eight contains insert remove
table = refl

laws_hold : (s : ModifierSet) (k j : ModifierKey) → IsSet8 s → laws s.bits k j ≡ true
laws_hold s k j h =
    all_eight_sound (λ j'. laws s.bits k j') j
      (all_eight_sound (λ k'. all_eight (λ j'. laws s.bits k' j')) k
        (under_bound (λ b. all_eight (λ k'. all_eight (λ j'. laws b k' j'))) 256 s.bits h table))

module _ (s : ModifierSet) (k j : ModifierKey) (h : IsSet8 s) where
  -- The key is in a set of eight bits after an insertion just if it was inserted or was there.
  pub contains-insert : contains (insert s k) j ≡ (same_key j k || contains s j)
  contains-insert = iff_sound _ _ (ground (arith, laws_hold s k j h))

  -- The key is in a set of eight bits after a removal just if it was there and was not removed.
  pub contains-remove : contains (remove s k) j ≡ (not (same_key j k) && contains s j)
  contains-remove = iff_sound _ _ (ground (arith, laws_hold s k j h))

  pub insert-IsSet8 : IsSet8 (insert s k)
  insert-IsSet8 = ground (arith, laws_hold s k j h)

  pub remove-IsSet8 : IsSet8 (remove s k)
  remove-IsSet8 = ground (arith, laws_hold s k j h)
