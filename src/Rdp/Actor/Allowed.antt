-- ===== src/Rdp/Actor/Allowed.antt =====
-- Which state changes of the session actor pass the transition gate.
use drift.Base.{
  ℕ, ◌+◌, ◌≤◌, ◌≡◌, refl, Bool, true, false, some, List, [], ◌∷◌, arith, Bool-cases, inl, inr, leb,
  ◌==◌, ok,
}
use drift.Core.State.{
  max_leg, ConnectStage, DisconnectReason, user_closed, is_retryable, SessionState, connecting,
  awaiting_greeter_login, connected, reconnecting, disconnected, failed, InvalidTransition,
  is_active, transition,
}
use drift.Core.State.Same.{same_state, same_state-eq}
use drift.Core.Reconnect.{
  ReconnectPolicy, ReconnectDecision, retry, wait_for_network, give_up, Instant, next_decision,
  on_disconnect,
}
use drift.Core.Geometry.{DesktopSize}
use drift.Rdp.Redirect.{RedirectLoop, on_activated}
use drift.Rdp.Actor.Gate.{Io, set_state, terminal_state, is_connected}

abbrev pub is_terminal : SessionState → Bool
is_terminal (disconnected r) = true
is_terminal (failed r) = true
is_terminal _ = false

-- The states from which the actor connects a leg.
abbrev pub can_dial : SessionState → ℕ → Bool
can_dial (connecting from s) leg = leg == from + 1
can_dial awaiting_greeter_login leg = leb 2 leg
can_dial (connected d s) leg = leb 2 leg
can_dial _ leg = leg == 1

-- The states of a live leg.
abbrev pub is_live : SessionState → ℕ → Bool
is_live (connecting at s) leg = at == leg
is_live awaiting_greeter_login leg = true
is_live (connected d s) leg = true
is_live _ leg = false

-- A transition that was refused because the session is over and the user closes it.
abbrev pub IsLate : InvalidTransition → Type 0
IsLate e = (is_terminal e.from ≡ true) × (e.to ≡ disconnected user_closed)

abbrev pub AllLate : List InvalidTransition → Type 0
AllLate [] = Unit {0}
AllLate (e ∷ es) = IsLate e × AllLate es

-- The gate lets the actor through to `s`: nothing is rejected and the leg stays.
abbrev pub Passes : Io → Io → SessionState → Type 0
Passes io io' s = (io'.state ≡ s) × (io'.leg ≡ io.leg) × (io'.rejected ≡ io.rejected)

pub set_state-Passes :
    (io : Io) (s : SessionState) → transition io.state s ≡ ok s → Passes io (set_state io s) s
unfolding set_state
set_state-Passes io s h = elim (Bool-cases (same_state io.state s)) [
  | inl e ↦ rw e (same_state-eq io.state s e, refl, refl)
  | inr e ↦ rw (e, h) (refl, refl, refl)
]

pub dial_allowed :
    (s : SessionState) (leg : ℕ) (c : ConnectStage)
    → 1 ≤ leg
    → leg ≤ max_leg
    → can_dial s leg ≡ true
    → transition s (connecting leg c) ≡ ok (connecting leg c)
unfolding transition
dial_allowed s leg c h k e = ground arith

pub stage_allowed :
    (leg : ℕ) (c d : ConnectStage)
    → 1 ≤ leg
    → leg ≤ max_leg
    → transition (connecting leg c) (connecting leg d) ≡ ok (connecting leg d)
unfolding transition
stage_allowed leg c d h k = ground arith

pub end_allowed :
    (s : SessionState) (r : DisconnectReason)
    → is_active s ≡ true
    → transition s (terminal_state r) ≡ ok (terminal_state r)
unfolding transition is_active terminal_state
end_allowed s r h = ground arith

pub close_allowed :
    (s : SessionState) (r : DisconnectReason)
    → is_active s ≡ true
    → transition s (disconnected r) ≡ ok (disconnected r)
unfolding transition is_active
close_allowed s r h = ground arith

pub backoff_allowed :
    (s : SessionState) (attempt n : ℕ) (r : DisconnectReason)
    → is_active s ≡ true
    → 1 ≤ attempt
    → is_retryable r ≡ true
    → transition s (reconnecting attempt n r) ≡ ok (reconnecting attempt n r)
unfolding transition is_active
backoff_allowed s attempt n r h k e = ground arith

-- A decision to wait has a positive attempt and a retryable reason.
abbrev pub Waits : DisconnectReason → ReconnectDecision → Type 0
Waits r (retry attempt delay) = (1 ≤ attempt) × (is_retryable r ≡ true)
Waits r (wait_for_network attempt) = (1 ≤ attempt) × (is_retryable r ≡ true)
Waits r (give_up why) = Unit {0}

pub on_disconnect-Waits :
    (p : ReconnectPolicy) (r : DisconnectReason) (now : Instant) → Waits r (on_disconnect p r now).1
unfolding on_disconnect next_decision
on_disconnect-Waits p r now = ground arith

pub connected_allowed :
    (s : SessionState) (d : DesktopSize) (n : ℕ)
    → is_connected s ≡ true
    → transition s (connected d n) ≡ ok (connected d n)
unfolding transition
connected_allowed s d n h = ground arith

-- The state that an activated leg enters, if any.
pub activation_allowed :
    (l : RedirectLoop) (d : DesktopSize) (n : ℕ) (c : ConnectStage) (s : SessionState)
    → on_activated l d n ≡ some s
    → (transition (connecting l.leg c) s ≡ ok s) × (is_live s l.leg ≡ true)
unfolding transition on_activated
activation_allowed l d n c s h = ground arith
