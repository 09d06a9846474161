-- ===== src/Input/Keyboard/Press.antt =====
-- A press and a release, and the reference counts.
use drift.Base.{
  ℕ, ◌-◌, ◌<◌, ◌≡◌, refl, sym, ap, ◌∙◌, fun_ext, inl, inr, Bool, true, false, Option, none, some,
  [], ◌∷◌, is_some, ◌==◌, arith, Option-cases, Bool-cases,
}
use drift.Base.Maps.{
  BTreeMap, same, same-eq, IsSorted, Values, get-insert, get-remove, insert-IsSorted,
  remove-IsSorted, insert-Values, remove-Values, get-Values,
}
use drift.Base.Maps
use drift.Input.Keymap.Scancodes.{Scancode, scancode_key, event}
use drift.Input.Keyboard.{Keyboard, press, release, release_counted}
use drift.Input.Keyboard.Wire.{Pressed, put, replay, wired, IsValid, Sound}

insert-IsValid :
    (sc : Scancode) (n : ℕ) (m : BTreeMap Scancode ℕ)
    → 0 < n
    → IsValid m
    → IsValid (Maps.insert sc n m)
insert-IsValid sc n m h v = record {
  sorted = insert-IsSorted 0 sc n m (omega arith) v.sorted;
  counted = insert-Values (λ i. 0 < i) sc n m h v.counted;
}

remove-IsValid : (sc : Scancode) (m : BTreeMap Scancode ℕ) → IsValid m → IsValid (Maps.remove sc m)
remove-IsValid sc m v = record {
  sorted = remove-IsSorted 0 sc m v.sorted;
  counted = remove-Values (λ i. 0 < i) sc m v.counted;
}

wired-insert :
    (sc : Scancode) (n : ℕ) (m : BTreeMap Scancode ℕ)
    → wired (Maps.insert sc n m) ≡ put (wired m) sc true
wired-insert sc n m = fun_ext λ j. ground (arith, get-insert j sc n m)

wired-remove :
    (sc : Scancode) (m : BTreeMap Scancode ℕ) → wired (Maps.remove sc m) ≡ put (wired m) sc false
wired-remove sc m = fun_ext λ j. ground (arith, get-remove j sc m)

-- Setting a key to the state that it has changes nothing.
put_same : (r : Pressed) (sc : Scancode) (b : Bool) → r sc ≡ b → put r sc b ≡ r
put_same r sc b h =
    fun_ext λ j. elim (Bool-cases (same j sc)) [
      | inl e ↦ rw e (rw (same-eq j sc e) (sym h))
      | inr e ↦ rw e
    ]

replay-press :
    (r : Pressed) (sc : Scancode)
    → r sc ≡ false
    → replay (event sc true ∷ []) r ≡ some (put r sc true)
unfolding replay
replay-press r sc h = rw h

replay-release :
    (r : Pressed) (sc : Scancode)
    → r sc ≡ true
    → replay (event sc false ∷ []) r ≡ some (put r sc false)
unfolding replay
replay-release r sc h = rw h

not_zero : (n : ℕ) → 0 < n → (n == 0) ≡ false
not_zero n h = ground arith

pub press-Sound : (sc : Scancode) → Sound (press sc)
unfolding press replay
press-Sound sc k v = (insert-IsValid sc _ k.pressed (omega arith) v, sent)
  where
    m : BTreeMap Scancode ℕ
    m = k.pressed

    sent : replay (press sc k).1 (wired m) ≡ some (wired (press sc k).0.pressed)
    sent = elim (Option-cases (Maps.get sc m)) [
      | inl e ↦
          rw e (replay-press (wired m) sc (ap is_some e) ∙ ap some (sym (wired-insert sc _ m)))
      | inr (n, e) ↦
          rw (e, not_zero n (get-Values (λ i. 0 < i) sc n m v.counted e))
            (ap some (sym (wired-insert sc _ m ∙ put_same (wired m) sc true (ap is_some e))))
    ]

release_counted-Sound :
    (sc : Scancode) (k : Keyboard) (o : Option ℕ)
    → Maps.get sc k.pressed ≡ o
    → IsValid k.pressed
    → let (k', es) = release_counted sc o k in
      IsValid k'.pressed × (replay es (wired k.pressed) ≡ some (wired k'.pressed))
unfolding replay
release_counted-Sound sc k none e v = (v, refl)
release_counted-Sound sc k (some n) e v = elim (Bool-cases ((n - 1) == 0)) [
  | inl last ↦ rw last (
    remove-IsValid sc k.pressed v,
    replay-release (wired k.pressed) sc (ap is_some e) ∙ ap some (sym (wired-remove sc k.pressed)),
  )
  | inr more ↦ rw more (
    insert-IsValid sc (n - 1) k.pressed (ground arith) v,
    ap some (sym (wired-insert sc _ k.pressed ∙ put_same (wired k.pressed) sc true (ap is_some e))),
  )
]

pub release-Sound : (sc : Scancode) → Sound (release sc)
unfolding release
release-Sound sc k v = release_counted-Sound sc k (Maps.get sc k.pressed) refl v
