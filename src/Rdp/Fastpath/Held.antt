-- ===== src/Rdp/Fastpath/Held.antt =====
-- What the server holds pressed after the fast-path events of any input.
use drift.Base.{
  ℕ, ◌≡◌, refl, ap, ◌∙◌, Bool, true, false, not, is_some, List, [], ◌∷◌, ◌++◌, arith, if◌then◌else◌,
}
use drift.Base.Maps.{BTreeMap, same, get, get-insert, get-remove}
use drift.Core.Events.{
  InputEvent, key, unicode, mouse_move, mouse_button, wheel, sync_toggles, release_all, MouseButton,
  left, right, middle, x1, x2,
}
use drift.Input.Keymap.Scancodes.{Scancode, scancode_key}
use drift.Rdp.Fastpath.{
  FastPath, keyboard_event, button_key, InputEncoder, fresh, key_event, button_event, key_releases,
  button_releases, encode,
}

-- The keys that the server holds: a press adds one, a release takes it away.
abbrev pub Pressed : Type 0
Pressed = Scancode → Bool

abbrev pub on_event : Pressed → FastPath → Pressed
on_event r (keyboard_event flags code) sc =
    if same sc (record { code = code; extended = flags.extended }) then not flags.release else r sc
on_event r _ sc = r sc

abbrev pub replay : Pressed → List FastPath → Pressed
replay r [] = r
replay r (e ∷ es) = replay (on_event r e) es

abbrev pub run : InputEncoder → List InputEvent → InputEncoder × List FastPath
run e [] = (e, [])
run e (i ∷ is) = let (e', out) = encode e i in let (e'', rest) = run e' is in (e'', out ++ rest)

replay-append :
    (r : Pressed) (xs ys : List FastPath) (sc : Scancode)
    → replay r (xs ++ ys) sc ≡ replay (replay r xs) ys sc
replay-append r [] ys sc = refl
replay-append r (x ∷ xs) ys sc = replay-append (on_event r x) xs ys sc

button_unheard :
    (r : Pressed) (b : MouseButton) (down : Bool) (x y : ℕ) (es : List FastPath)
    → replay r (button_event b down x y ∷ es) ≡ replay r es
button_unheard r left down x y es = refl
button_unheard r right down x y es = refl
button_unheard r middle down x y es = refl
button_unheard r x1 down x y es = refl
button_unheard r x2 down x y es = refl

buttons_unheard :
    (r : Pressed) (x y : ℕ) (m : BTreeMap MouseButton (Unit {0})) (sc : Scancode)
    → replay r (button_releases x y m) sc ≡ r sc
buttons_unheard r x y [] sc = refl
buttons_unheard r x y ((b, u) ∷ m) sc =
    ap (λ f. f sc) (button_unheard r b false x y (button_releases x y m))
    ∙ buttons_unheard r x y m sc

keys_released :
    (r : Pressed) (m : BTreeMap Scancode (Unit {0})) (sc : Scancode)
    → replay r (key_releases m) sc ≡ (if is_some (get sc m) then false else r sc)
unfolding get
keys_released r [] sc = refl
keys_released r ((k, u) ∷ m) sc = keys_released (on_event r (key_event k false)) m sc ∙ ground arith

-- The encoder's set is what the server holds.
abbrev Agrees : InputEncoder → Pressed → Type 0
Agrees e r = (sc : Scancode) → r sc ≡ is_some (get sc e.keys)

encode-Agrees :
    (e : InputEncoder) (i : InputEvent) (r : Pressed)
    → Agrees e r
    → Agrees (encode e i).0 (replay r (encode e i).1)
unfolding encode get
encode-Agrees e (key code extended true) r h sc =
    let k : Scancode = record { code = code; extended = extended } in
    ground (arith, h sc, get-insert sc k tt e.keys)
encode-Agrees e (key code extended false) r h sc =
    let k : Scancode = record { code = code; extended = extended } in
    ground (arith, h sc, get-remove sc k e.keys)
encode-Agrees e (unicode ch down) r h sc = h sc
encode-Agrees e (mouse_move x y) r h sc = h sc
encode-Agrees e (mouse_button b true x y) r h sc =
    ap (λ f. f sc) (button_unheard r b true x y []) ∙ h sc
encode-Agrees e (mouse_button b false x y) r h sc =
    ap (λ f. f sc) (button_unheard r b false x y []) ∙ h sc
encode-Agrees e (wheel horizontal units) r h sc = h sc
encode-Agrees e (sync_toggles caps num) r h sc = h sc
encode-Agrees e release_all r h sc =
    replay-append r (key_releases e.keys) (button_releases e.x e.y e.buttons) sc
    ∙ buttons_unheard (replay r (key_releases e.keys)) e.x e.y e.buttons sc
    ∙ keys_released r e.keys sc
    ∙ ground (arith, h sc)

run-Agrees :
    (e : InputEncoder) (is : List InputEvent) (r : Pressed)
    → Agrees e r
    → Agrees (run e is).0 (replay r (run e is).1)
run-Agrees e [] r h sc = h sc
run-Agrees e (i ∷ is) r h sc =
    replay-append r (encode e i).1 (run (encode e i).0 is).1 sc
    ∙ run-Agrees (encode e i).0 is (replay r (encode e i).1) (encode-Agrees e i r h) sc

abbrev pub none_pressed : Pressed
none_pressed sc = false

-- After any input events through a new encoder, the keys that the server holds are those in the
-- encoder's set; and after a `ReleaseAll` that follows, it holds none.
pub replay-run_encoder :
    (is : List InputEvent) (sc : Scancode)
    → (replay none_pressed (run fresh is).1 sc ≡ is_some (get sc (run fresh is).0.keys))
      × (replay (replay none_pressed (run fresh is).1) (encode (run fresh is).0 release_all).1 sc
          ≡ false)
unfolding get encode
replay-run_encoder is sc =
    let held = run-Agrees fresh is none_pressed (λ k. refl) in
    (
      held sc,
      encode-Agrees (run fresh is).0 release_all (replay none_pressed (run fresh is).1) held sc,
    )
