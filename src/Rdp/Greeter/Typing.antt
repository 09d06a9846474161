-- ===== src/Rdp/Greeter/Typing.antt =====
-- When the greeter typist types, over the calls of the session actor at one greeter.
use drift.Base.{
  ℕ, ◌+◌, ◌≡◌, refl, ap, Bool, true, false, Option, none, some, List, [], ◌∷◌, Bool-cases, inl, inr,
  ltb, if◌then◌else◌,
}
use drift.Core.Reconnect.{Instant}
use drift.Core.Events.{InputEvent}
use drift.Rdp.Greeter.{type_delay, GreeterTypist, clicked, on_input, poll, on_greeter}

-- What the actor does with the typist between two activations.
pub data Call : Type 0 where
  input : InputEvent → Instant → Call
  tick : Instant → Call

abbrev pub step : List ℕ → GreeterTypist → Call → GreeterTypist × Option (List InputEvent)
step password t (input event now) = (on_input t event now, none)
step password t (tick now) = poll t now password

abbrev instant_of : Call → Instant
instant_of (input event now) = now
instant_of (tick now) = now

abbrev noted : Instant → Option (List InputEvent) → List Instant → List Instant
noted now none rest = rest
noted now (some es) rest = now ∷ rest

-- The instants at which the password is typed.
abbrev pub typed_at : List ℕ → GreeterTypist → List Call → List Instant
typed_at password t [] = []
typed_at password t (c ∷ cs) =
    noted (instant_of c) (step password t c).1 (typed_at password (step password t c).0 cs)

-- The first tick that is at least the delay after the first release of the left button, if any.
abbrev pub first_tick_from : Instant → List Call → List Instant
first_tick_from due [] = []
first_tick_from due (input event now ∷ cs) = first_tick_from due cs
first_tick_from due (tick now ∷ cs) =
    let rest = first_tick_from due cs in if ltb now due then rest else now ∷ []

abbrev pub tick_after_click : List Call → List Instant
tick_after_click [] = []
tick_after_click (input event now ∷ cs) =
    let rest = tick_after_click cs in
    if clicked event then first_tick_from (now + type_delay) cs else rest
tick_after_click (tick now ∷ cs) = tick_after_click cs

abbrev typist : Bool → Option Instant → GreeterTypist
typist armed due = record { armed = armed; due = due }

disarmed_silent :
    (password : List ℕ) (due : Option Instant) (cs : List Call)
    → typed_at password (typist false due) cs ≡ []
unfolding on_input poll
disarmed_silent password due [] = refl
disarmed_silent password due (input event now ∷ cs) = disarmed_silent password due cs
disarmed_silent password due (tick now ∷ cs) = disarmed_silent password due cs

due_types :
    (password : List ℕ) (due : Instant) (cs : List Call)
    → typed_at password (typist true (some due)) cs ≡ first_tick_from due cs
unfolding on_input poll
due_types password due [] = refl
due_types password due (input event now ∷ cs) = due_types password due cs
due_types password due (tick now ∷ cs) = elim (Bool-cases (ltb now due)) [
  | inl e ↦ rw (e, typed_at) (due_types password due cs)
  | inr e ↦ rw (e, typed_at) (ap (λ l. now ∷ l) (disarmed_silent password none cs))
]

armed_types :
    (password : List ℕ) (cs : List Call)
    → typed_at password (typist true none) cs ≡ tick_after_click cs
unfolding on_input poll
armed_types password [] = refl
armed_types password (input event now ∷ cs) = elim (Bool-cases (clicked event)) [
  | inl e ↦ rw e (due_types password (now + type_delay) cs)
  | inr e ↦ rw e (armed_types password cs)
]
armed_types password (tick now ∷ cs) = armed_types password cs

-- At one greeter the password is typed only when one is stored, and then exactly once: at the first
-- tick that is at least 1.5 s after the first release of the left button, and never if there is no
-- such tick.
pub typed_at_greeter :
    (t : GreeterTypist) (has_password : Bool) (password : List ℕ) (cs : List Call)
    → typed_at password (on_greeter t has_password) cs
      ≡ (if has_password then tick_after_click cs else [])
typed_at_greeter t true password cs = armed_types password cs
typed_at_greeter t false password cs = disarmed_silent password none cs
