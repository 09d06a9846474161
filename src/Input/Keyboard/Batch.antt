-- ===== src/Input/Keyboard/Batch.antt =====
-- Rows of releases and presses of distinct keys: focus loss and typed text.
use drift.Base.{
  ℕ, suc, ◌≤◌, ◌<◌, ◌≡◌, refl, ap, ◌∙◌, fun_ext, Bool, true, false, not, ◌||◌, some, List, [], ◌∷◌,
  if◌then◌else◌, arith,
}
use drift.Base.Maps.{BTreeMap, same, same-eq, IsSorted, get_below}
use drift.Base.Maps
use drift.Input.Keymap.Scancodes.{Scancode, scancode_key, rank}
use drift.Input.Keyboard.{Keyboard, events, focus_lost}
use drift.Input.Keyboard.Wire.{Pressed, put, none_pressed, replay, wired, IsValid, Sound}

abbrev pub IsAscending : ℕ → List Scancode → Type 0
IsAscending n [] = Unit {0}
IsAscending n (x ∷ xs) = (n ≤ rank x) × IsAscending (suc (rank x)) xs

abbrev pub AllAre : Bool → Pressed → List Scancode → Type 0
AllAre b r [] = Unit {0}
AllAre b r (x ∷ xs) = (r x ≡ b) × AllAre b r xs

abbrev pub put_all : Pressed → List Scancode → Bool → Pressed
put_all r [] b = r
put_all r (x ∷ xs) b = put_all (put r x b) xs b

abbrev pub elem : Scancode → List Scancode → Bool
elem j [] = false
elem j (x ∷ xs) = same j x || elem j xs

AllAre-put :
    (c b : Bool) (r : Pressed) (x : Scancode) (n : ℕ) (xs : List Scancode)
    → rank x < n
    → IsAscending n xs
    → AllAre c r xs
    → AllAre c (put r x b) xs
AllAre-put c b r x n [] h a k = tt
AllAre-put c b r x n (y ∷ ys) h a k =
    (ground arith, AllAre-put c b r x (suc (rank y)) ys (omega arith) a.1 k.1)

pub put_all-at :
    (r : Pressed) (xs : List Scancode) (b : Bool) (j : Scancode)
    → put_all r xs b j ≡ (if elem j xs then b else r j)
put_all-at r [] b j = refl
put_all-at r (x ∷ xs) b j = ground (arith, put_all-at (put r x b) xs b j)

pub replay-events :
    (b : Bool) (r : Pressed) (n : ℕ) (xs : List Scancode)
    → IsAscending n xs
    → AllAre (not b) r xs
    → replay (events b xs) r ≡ some (put_all r xs b)
unfolding replay
replay-events b r n [] a k = refl
replay-events true r n (x ∷ xs) a k = rw (k.0) (
    replay-events true (put r x true) (suc (rank x)) xs a.1
      (AllAre-put false true r x (suc (rank x)) xs (omega arith) a.1 k.1))
replay-events false r n (x ∷ xs) a k = rw (k.0) (
    replay-events false (put r x false) (suc (rank x)) xs a.1
      (AllAre-put true false r x (suc (rank x)) xs (omega arith) a.1 k.1))

-- Focus loss.
keys-IsAscending : (n : ℕ) (m : BTreeMap Scancode ℕ) → IsSorted n m → IsAscending n (Maps.keys m)
unfolding Maps.keys
keys-IsAscending n [] s = tt
keys-IsAscending n ((k, v) ∷ m) s = (s.0, keys-IsAscending (suc (rank k)) m s.1)

AllAre-mono :
    (r r' : Pressed) (xs : List Scancode)
    → ((j : Scancode) → r j ≡ true → r' j ≡ true)
    → AllAre true r xs
    → AllAre true r' xs
AllAre-mono r r' [] h k = tt
AllAre-mono r r' (x ∷ xs) h k = (h x k.0, AllAre-mono r r' xs h k.1)

keys-AllAre : (m : BTreeMap Scancode ℕ) → AllAre true (wired m) (Maps.keys m)
unfolding Maps.keys Maps.get
keys-AllAre [] = tt
keys-AllAre ((k, v) ∷ m) = (
  ground arith,
  AllAre-mono (wired m) (wired ((k, v) ∷ m)) (Maps.keys m) (λ j h. ground arith) (keys-AllAre m),
)

drop_first :
    (k : Scancode) (v n : ℕ) (m : BTreeMap Scancode ℕ)
    → IsSorted n ((k, v) ∷ m)
    → put (wired ((k, v) ∷ m)) k false ≡ wired m
unfolding Maps.get
drop_first k v n m s = fun_ext λ j. ground (arith, get_below (suc (rank k)) j m)

keys_cleared :
    (n : ℕ) (m : BTreeMap Scancode ℕ)
    → IsSorted n m
    → put_all (wired m) (Maps.keys m) false ≡ none_pressed
unfolding Maps.keys
keys_cleared n [] s = unfold Maps.get in refl
keys_cleared n ((k, v) ∷ m) s =
    ap (λ r. put_all r (Maps.keys m) false) (drop_first k v n m s)
    ∙ keys_cleared (suc (rank k)) m s.1

-- Losing the focus releases exactly the keys that the remote considers pressed: it accepts every
-- release, and then considers no key pressed.
pub replay-focus_lost :
    (k : Keyboard)
    → IsValid k.pressed
    → replay (focus_lost k).1 (wired k.pressed) ≡ some none_pressed
unfolding focus_lost
replay-focus_lost k v =
    replay-events false (wired k.pressed) 0 (Maps.keys k.pressed)
      (keys-IsAscending 0 k.pressed v.sorted) (keys-AllAre k.pressed)
    ∙ ap some (keys_cleared 0 k.pressed v.sorted)

pub focus_lost-Sound : Sound focus_lost
unfolding focus_lost
focus_lost-Sound k v =
    (record { sorted = tt; counted = tt }, replay-focus_lost k v ∙ (unfold Maps.get in refl))
