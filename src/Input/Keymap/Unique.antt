-- ===== src/Input/Keymap/Unique.antt =====
-- Which keys share a scancode.
use drift.Base.{
  ℕ, zero, suc, ◌<◌, ◌≤◌, ◌≡◌, refl, inl, inr, Bool, true, false, not, ◌&&◌, Option, none, some, [],
  ◌∷◌, ltb, ◌==◌, arith, Bool-cases, dec_lt, ==_iff, subst,
}
use drift.Core.Events.{CmdAs, super, ctrl}
use drift.Input.Keymap.Scancodes.{Scancode, rank}
use drift.Input.Keymap.Table.{BaseTable, base_table, find}
use drift.Input.Keymap.{KeyboardType, ansi, iso, jis, scancode_for, base_scancode}

-- Both are the same scancode.
abbrev same_some : Option Scancode → Option Scancode → Bool
same_some (some a) (some b) = rank a == rank b
same_some (some a) none = false
same_some none o = false

-- No argument below `m` has the value `o`.
avoids : ℕ → (ℕ → Option Scancode) → Option Scancode → Bool
avoids zero f o = true
avoids (suc m) f o = not (same_some (f m) o) && avoids m f o

unique : ℕ → (ℕ → Option Scancode) → Bool
unfolding avoids
unique zero f = true
unique (suc n) f = avoids n f (f n) && unique n f

avoids_sound :
    (m : ℕ) (f : ℕ → Option Scancode) (s : Scancode) (x : ℕ)
    → avoids m f (some s) ≡ true
    → x < m
    → f x ≡ some s
    → ⊥
unfolding avoids
avoids_sound zero f s x h lt e = absurd (omega arith)
avoids_sound (suc m) f s x h lt e = elim (Bool-cases (x == m)) [
  | inl eq ↦ let p : f m ≡ some s = subst (λ k. f k ≡ some s) ((==_iff x m).0 eq) e in ground arith
  | inr ne ↦ avoids_sound m f s x (ground arith) (ground arith) e
]

unique_sound :
    (n : ℕ) (f : ℕ → Option Scancode) (s : Scancode) (x y : ℕ)
    → unique n f ≡ true
    → x < n
    → y < n
    → f x ≡ some s
    → f y ≡ some s
    → x ≡ y
unfolding unique
unique_sound zero f s x y h l m p q = absurd (omega arith)
unique_sound (suc n) f s x y h l m p q = elim (Bool-cases (x == n)) [
  | inl ex ↦ elim (Bool-cases (y == n)) [
    | inl ey ↦ ground arith
    | inr ny ↦ absurd (clash x ((==_iff x n).0 ex) p y ny m q)
  ]
  | inr nx ↦ elim (Bool-cases (y == n)) [
    | inl ey ↦ absurd (clash y ((==_iff y n).0 ey) q x nx l p)
    | inr ny ↦ unique_sound n f s x y (ground arith) (ground arith) (ground arith) p q
  ]
]
  where
    clash :
        (a : ℕ) → a ≡ n → f a ≡ some s → (b : ℕ) → (b == n) ≡ false → b < suc n → f b ≡ some s → ⊥
    clash a ea fa b nb lb fb =
        let top : f n ≡ some s = subst (λ k. f k ≡ some s) ea fa in
        let free : avoids n f (f n) ≡ true = ground arith in
        avoids_sound n f s b (subst (λ o. avoids n f o ≡ true) top free) (ground arith) fb

codes_below : ℕ → BaseTable → Bool
codes_below n [] = true
codes_below n ((k, s) ∷ rows) = ltb k n && codes_below n rows

find_above : (n : ℕ) (t : BaseTable) (x : ℕ) → codes_below n t ≡ true → n ≤ x → find x t ≡ none
unfolding codes_below find
find_above n [] x h l = refl
find_above n ((k, s) ∷ rows) x h l = ground (arith, find_above n rows x)

base_above : (x : ℕ) → 128 ≤ x → base_scancode x ≡ none
unfolding base_scancode
base_above x h = find_above 128 base_table x (unfold codes_below in refl) h

scancode_for_above : (x : ℕ) (k : KeyboardType) (c : CmdAs) → 128 ≤ x → scancode_for x k c ≡ none
unfolding scancode_for
scancode_for_above x ansi super h = ground (arith, base_above x h)
scancode_for_above x iso super h = ground (arith, base_above x h)
scancode_for_above x jis super h = ground (arith, base_above x h)
scancode_for_above x ansi ctrl h = ground (arith, base_above x h)
scancode_for_above x iso ctrl h = ground (arith, base_above x h)
scancode_for_above x jis ctrl h = ground (arith, base_above x h)

below_128 : (x : ℕ) (k : KeyboardType) {s : Scancode} → scancode_for x k super ≡ some s → x < 128
below_128 x k e = elim (dec_lt x 128) [
  | yes h ↦ h
  | no h ↦ cc (scancode_for_above x k super (omega arith))
]

unique_for : (k : KeyboardType) → unique 128 (λ x. scancode_for x k super) ≡ true
unfolding unique scancode_for base_scancode
unique_for ansi = refl
unique_for iso = refl
unique_for jis = refl

-- With the Command keys sent as Super, two keys of one keyboard never send the same scancode: on
-- the wire a press names the key that was pressed.
pub scancode_for-injective :
    (x y : ℕ) (k : KeyboardType) (s : Scancode)
    → scancode_for x k super ≡ some s
    → scancode_for y k super ≡ some s
    → x ≡ y
scancode_for-injective x y k s p q =
    unique_sound 128 (λ x. scancode_for x k super) s x y (unique_for k) (below_128 x k p)
      (below_128 y k q) p q
