-- ===== src/Core/State/Paths.antt =====
-- Paths of the session state machine: what holds after any sequence of accepted transitions.
use drift.Base.{
  ◌≤◌, ◌≡◌, refl, inl, inr, Bool, true, false, ◌||◌, arith, List, [], ◌∷◌, leb, ◌==◌, ok,
  Bool-cases,
}
use drift.Core.State.{
  max_leg, is_retryable, SessionState, idle, connecting, awaiting_greeter_login, reconnecting,
  disconnected, failed, transition,
}

-- The legs are in 1..=MAX_LEG, and a session that waits to reconnect has a retryable reason and
-- counts its attempts from 1.
abbrev pub IsWellFormed : SessionState → Type 0
IsWellFormed (connecting leg stage) = (1 ≤ leg) × (leg ≤ max_leg)
IsWellFormed (reconnecting attempt next_in reason) = (1 ≤ attempt) × (is_retryable reason ≡ true)
IsWellFormed _ = Unit {0}

-- The states that a sequence of accepted transitions leads through, the first state left out.
pub data PathOf : SessionState → List SessionState → SessionState → Type 0 where
  stay : {s : SessionState} → PathOf s [] s
  move :
      {s t u : SessionState} {ts : List SessionState}
      → transition s t ≡ ok t
      → PathOf t ts u
      → PathOf s (t ∷ ts) u

abbrev pub any : (SessionState → Bool) → List SessionState → Bool
any p [] = false
any p (s ∷ ss) = p s || any p ss

-- A connection attempt runs, a screen is live, or a retry is pending.
abbrev pub in_session : SessionState → Bool
in_session idle = false
in_session (disconnected r) = false
in_session (failed r) = false
in_session _ = true

abbrev pub is_first_leg : SessionState → Bool
is_first_leg (connecting leg stage) = leg == 1
is_first_leg _ = false

abbrev pub is_redirected_leg : SessionState → Bool
is_redirected_leg (connecting leg stage) = leb 2 leg
is_redirected_leg _ = false

abbrev pub is_greeter : SessionState → Bool
is_greeter awaiting_greeter_login = true
is_greeter _ = false

accepted-IsWellFormed : (s t : SessionState) → transition s t ≡ ok t → IsWellFormed t
unfolding transition
accepted-IsWellFormed s (connecting leg c) h = ground arith
accepted-IsWellFormed s (reconnecting a n r) h = ground arith
accepted-IsWellFormed s _ h = tt

-- Every path of accepted transitions from a well-formed state ends in a well-formed state.
pub PathOf-IsWellFormed :
    {s u : SessionState} {ts : List SessionState} → PathOf s ts u → IsWellFormed s → IsWellFormed u
PathOf-IsWellFormed stay w = w
PathOf-IsWellFormed (move {s = s} {t = t} h p) w =
    PathOf-IsWellFormed p (accepted-IsWellFormed s t h)

-- Where every accepted step into `G` touches `K`, a path into `G` passes through `K`.
enter_through :
    (G K : SessionState → Bool)
    → ((s t : SessionState)
        → G s ≡ false
        → transition s t ≡ ok t
        → G t ≡ true
        → (K s || K t) ≡ true)
    → {s u : SessionState} {ts : List SessionState} → PathOf s ts u
    → G s ≡ false
    → K s ≡ false
    → G u ≡ true
    → any K ts ≡ true
enter_through G K step stay g k e = ground arith
enter_through G K step (move {s = s} {t = t} h p) g k e = elim (Bool-cases (K t)) [
  | inl hit ↦ ground arith
  | inr miss ↦ elim (Bool-cases (G t)) [
    | inl inside ↦ ground (arith, step s t g h inside)
    | inr outside ↦ ground (arith, enter_through G K step p outside miss e)
  ]
]

session_step :
    (s t : SessionState)
    → in_session s ≡ false
    → transition s t ≡ ok t
    → in_session t ≡ true
    → (is_first_leg s || is_first_leg t) ≡ true
unfolding transition
session_step s t g h e = ground arith

-- On every path from idle to a session that is active or waits to reconnect, some state is a
-- connection on leg 1.
session_begins_at_leg_one :
    {u : SessionState} {ts : List SessionState}
    → PathOf idle ts u
    → in_session u ≡ true
    → any is_first_leg ts ≡ true
session_begins_at_leg_one p e = enter_through in_session is_first_leg session_step p refl refl e

greeter_step :
    (s t : SessionState)
    → is_greeter s ≡ false
    → transition s t ≡ ok t
    → is_greeter t ≡ true
    → (is_redirected_leg s || is_redirected_leg t) ≡ true
unfolding transition
greeter_step s t g h e = ground arith

-- The greeter is reached only through a redirected leg (2 or later), on every path from idle.
pub greeter_needs_redirect :
    {ts : List SessionState}
    → PathOf idle ts awaiting_greeter_login
    → any is_redirected_leg ts ≡ true
greeter_needs_redirect p = enter_through is_greeter is_redirected_leg greeter_step p refl refl refl
