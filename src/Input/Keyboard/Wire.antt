-- ===== src/Input/Keyboard/Wire.antt =====
-- What the remote makes of the events: the set of scancodes that it considers pressed. It accepts a
-- press only of a key that is up, and a release only of a key that is down.
use mathlib.Core.Option.{some-injective}
use drift.Base.{
  subst, ℕ, ◌<◌, ◌≡◌, refl, sym, ap, ◌∙◌, Bool, true, false, Option, none, some, List, [], ◌∷◌,
  ◌++◌, is_some, if◌then◌else◌,
}
use drift.Base.Maps.{BTreeMap, same, IsSorted, Values}
use drift.Base.Maps
use drift.Core.Events.{
  InputEvent, key, unicode, mouse_move, mouse_button, wheel, sync_toggles, release_all,
}
use drift.Input.Keymap.Scancodes.{Scancode, scancode_key}
use drift.Input.Keyboard.{Keyboard, Op, nothing, ◌>>◌, for_each, state}

abbrev pub Pressed : Type 0
Pressed = Scancode → Bool

abbrev pub none_pressed : Pressed
none_pressed sc = false

abbrev pub put : Pressed → Scancode → Bool → Pressed
put r sc b j = if same j sc then b else r j

abbrev pub on_event : InputEvent → Pressed → Option Pressed
on_event (key code extended true) r =
    let sc : Scancode = record { code = code; extended = extended } in
    if r sc then none else some (put r sc true)
on_event (key code extended false) r =
    let sc : Scancode = record { code = code; extended = extended } in
    if r sc then some (put r sc false) else none
on_event (unicode ch down) r = some r
on_event (mouse_move x y) r = some r
on_event (mouse_button b down x y) r = some r
on_event (wheel h u) r = some r
on_event (sync_toggles c n) r = some r
on_event release_all r = some none_pressed

abbrev and_then : Option Pressed → (Pressed → Option Pressed) → Option Pressed
and_then none f = none
and_then (some r) f = f r

-- `none` if an event presses a key that is down or releases one that is up.
unfoldable pub replay : List InputEvent → Pressed → Option Pressed
replay [] r = some r
replay (e ∷ es) r = and_then (on_event e r) (replay es)

bind_append :
    (o : Option Pressed) (es es' : List InputEvent) (s : Pressed)
    → ((r : Pressed) → replay es r ≡ some s → replay (es ++ es') r ≡ replay es' s)
    → and_then o (replay es) ≡ some s
    → and_then o (replay (es ++ es')) ≡ replay es' s
bind_append none es es' s ih h = cc
bind_append (some r) es es' s ih h = ih r h

pub replay-append :
    (es es' : List InputEvent) (r s : Pressed)
    → replay es r ≡ some s
    → replay (es ++ es') r ≡ replay es' s
unfolding replay
replay-append [] es' r s h = ap (replay es') (some-injective r s h)
replay-append (e ∷ es) es' r s h =
    bind_append (on_event e r) es es' s (λ r'. replay-append es es' r' s) h

-- The scancodes of the reference counts.
abbrev pub wired : BTreeMap Scancode ℕ → Pressed
wired m sc = is_some (Maps.get sc m)

-- The counts stand in order, and a key that is counted is counted at least once.
pub record IsValid (m : BTreeMap Scancode ℕ) : Type 0 where
  pub sorted : IsSorted 0 m
  pub counted : Values (λ n. 0 < n) m

-- What an operation has to do: keep the counts valid, and send the remote from the keys counted
-- before to the keys counted after.
abbrev pub Sound : Op → Type 0
Sound f =
    (k : Keyboard)
    → IsValid k.pressed
    → IsValid (f k).0.pressed × (replay (f k).1 (wired k.pressed) ≡ some (wired (f k).0.pressed))

pub >>-Sound : (f g : Op) → Sound f → Sound g → Sound (f >> g)
unfolding ◌>>◌
>>-Sound f g sf sg k v =
    let (v', e) = sf k v in
    let (v'', e') = sg (f k).0 v' in (v'', replay-append (f k).1 (g (f k).0).1 _ _ e ∙ e')

pub nothing-Sound : Sound nothing
unfolding replay
nothing-Sound k v = (v, refl)

pub for_each-Sound :
    {A : Type 0} (as' : List A) (f : A → Op) → ((a : A) → Sound (f a)) → Sound (for_each as' f)
unfolding for_each
for_each-Sound [] f h = nothing-Sound
for_each-Sound (a ∷ as') f h = >>-Sound (f a) (for_each as' f) (h a) (for_each-Sound as' f h)

pub state-Sound :
    (f : Keyboard → Keyboard) → ((k : Keyboard) → (f k).pressed ≡ k.pressed) → Sound (state f)
unfolding replay
state-Sound f e k v = (subst IsValid (sym (e k)) v, ap (λ m. some (wired m)) (sym (e k)))

-- What `Sound` says of one run.
abbrev pub Lands : Keyboard → Keyboard × List InputEvent → Type 0
Lands k r = IsValid r.0.pressed × (replay r.1 (wired k.pressed) ≡ some (wired r.0.pressed))

pub if-Lands :
    (k : Keyboard) (b : Bool) (x y : Keyboard × List InputEvent)
    → Lands k x
    → Lands k y
    → Lands k (if b then x else y)
if-Lands k true x y p q = p
if-Lands k false x y p q = q

pub if-Sound : (b : Bool) (f g : Op) → Sound f → Sound g → Sound (if b then f else g)
if-Sound true f g p q = p
if-Sound false f g p q = q
