-- ===== src/Input/Keyboard/Typed.antt =====
-- Typed text: the held text-level modifiers are lifted around the Unicode events.
use drift.Base.{
  subst, ℕ, suc, ◌≤◌, ◌≡◌, refl, sym, ap, ◌∙◌, fun_ext, Bool, true, false, some, List, [], ◌∷◌,
  ◌++◌, arith, Bool-cases, inl, inr,
}
use drift.Base.Maps.{BTreeMap, same, same-eq}
use drift.Base.Maps
use drift.Core.Events.{InputEvent}
use drift.Input.Keymap.Scancodes.{Scancode, scancode_key, rank}
use drift.Input.Unicode.{Text, text_to_events, unit_events, encode_utf16, is_typed}
use drift.Input.Keyboard.{events, lifted, around, text_level_modifiers, insert_text}
use drift.Input.Keyboard.Wire.{Pressed, replay, replay-append, wired, Sound}
use drift.Input.Keyboard.Batch.{IsAscending, AllAre, elem, put_all, put_all-at, replay-events}

IsAscending-mono : {n n' : ℕ} (xs : List Scancode) → n ≤ n' → IsAscending n' xs → IsAscending n xs
IsAscending-mono [] h a = tt
IsAscending-mono (x ∷ xs) h a = (omega arith, a.1)

lifted-IsAscending :
    (n : ℕ) (m : BTreeMap Scancode ℕ) (xs : List Scancode)
    → IsAscending n xs
    → IsAscending n (lifted m xs)
lifted-IsAscending n m [] a = tt
lifted-IsAscending n m (x ∷ xs) a = ground (
  arith,
  lifted-IsAscending (suc (rank x)) m xs a.1,
  IsAscending-mono {n = n} {n' = suc (rank x)} (lifted m xs),
)

lifted-AllAre : (m : BTreeMap Scancode ℕ) (xs : List Scancode) → AllAre true (wired m) (lifted m xs)
unfolding Maps.contains_key
lifted-AllAre m [] = tt
lifted-AllAre m (x ∷ xs) = ground (arith, lifted-AllAre m xs)

AllAre-elem :
    (b : Bool) (r : Pressed) (xs : List Scancode) (j : Scancode)
    → AllAre b r xs
    → elem j xs ≡ true
    → r j ≡ b
AllAre-elem b r [] j k h = cc
AllAre-elem b r (x ∷ xs) j k h = elim (Bool-cases (same j x)) [
  | inl e ↦ subst (λ y. r y ≡ b) (sym (same-eq j x e)) k.0
  | inr e ↦ AllAre-elem b r xs j k.1 (ground arith)
]

AllAre-of_elem :
    (b : Bool) (r : Pressed) (xs : List Scancode)
    → ((j : Scancode) → elem j xs ≡ true → r j ≡ b)
    → AllAre b r xs
AllAre-of_elem b r [] h = tt
AllAre-of_elem b r (x ∷ xs) h =
    (h x (ground arith), AllAre-of_elem b r xs (λ j e. h j (ground arith)))

put_all-AllAre : (r : Pressed) (xs : List Scancode) (b : Bool) → AllAre b (put_all r xs b) xs
put_all-AllAre r xs b = AllAre-of_elem b (put_all r xs b) xs λ j e. rw (put_all-at r xs b j, e)

-- Putting keys down again restores the set.
restore :
    (r : Pressed) (xs : List Scancode) → AllAre true r xs → put_all (put_all r xs false) xs true ≡ r
restore r xs k = fun_ext λ j. elim (Bool-cases (elem j xs)) [
  | inl e ↦ rw (put_all-at (put_all r xs false) xs true j, e) (sym (AllAre-elem true r xs j k e))
  | inr e ↦ rw (put_all-at (put_all r xs false) xs true j, e, put_all-at r xs false j, e)
]

-- Unicode events change no key.
unit_events-silent :
    (us : List ℕ) (es : List InputEvent) (r : Pressed)
    → replay (unit_events us ++ es) r ≡ replay es r
unfolding replay
unit_events-silent [] es r = refl
unit_events-silent (u ∷ us) es r = unit_events-silent us es r

text_to_events-silent : (t : Text) (r : Pressed) → replay (text_to_events t) r ≡ some r
unfolding text_to_events
text_to_events-silent [] r = unfold replay in refl
text_to_events-silent (c ∷ cs) r = elim (Bool-cases (is_typed c)) [
  | inl e ↦
      rw e (unit_events-silent (encode_utf16 c) (text_to_events cs) r ∙ text_to_events-silent cs r)
  | inr e ↦ rw e (text_to_events-silent cs r)
]

around-silent :
    (r : Pressed) (xs : List Scancode) (es : List InputEvent)
    → IsAscending 0 xs
    → AllAre true r xs
    → ((s : Pressed) → replay es s ≡ some s)
    → replay (around xs es) r ≡ some r
unfolding replay
around-silent r xs [] a k h = refl
around-silent r xs (e ∷ es) a k h =
    let up = put_all r xs false in
    replay-append (events false xs) ((e ∷ es) ++ events true xs) r up
      (replay-events false r 0 xs a k)
    ∙ replay-append (e ∷ es) (events true xs) up up (h up)
    ∙ replay-events true up 0 xs a (put_all-AllAre r xs false)
    ∙ ap some (restore r xs k)

-- Typed text leaves every key as it was, and lifts only keys that are down.
pub insert_text-Sound : (t : Text) → Sound (insert_text t)
unfolding insert_text
insert_text-Sound t k v = (
  v,
  around-silent (wired k.pressed) (lifted k.pressed text_level_modifiers) (text_to_events t)
      (lifted-IsAscending 0 k.pressed text_level_modifiers (omega arith))
      (lifted-AllAre k.pressed text_level_modifiers) (text_to_events-silent t),
)
