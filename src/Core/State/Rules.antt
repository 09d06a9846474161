-- ===== src/Core/State/Rules.antt =====
-- The transition table of the documentation of `SessionState::transition`, as a relation.
use drift.Base.{ℕ, ◌+◌, ◌≤◌, ◌≡◌, refl, true, ◌↔◌, ◌⊎◌, inl, inr, arith, ok, err, subst}
use drift.Core.Geometry.{DesktopSize}
use drift.Core.State.{
  max_leg, ConnectStage, DisconnectReason, is_retryable, SessionState, idle, connecting,
  awaiting_greeter_login, connected, reconnecting, disconnected, failed, user_closed, allows,
  transition, is_active,
}

-- A state of the session that may (re)start a connection.
pub data IsStopped : SessionState → Type 0 where
  at_idle : IsStopped idle
  at_disconnected : (r : DisconnectReason) → IsStopped (disconnected r)
  at_failed : (r : DisconnectReason) → IsStopped (failed r)
  at_reconnecting : (a n : ℕ) (r : DisconnectReason) → IsStopped (reconnecting a n r)

-- A live screen: the greeter or a desktop.
pub data IsLive : SessionState → Type 0 where
  greeter : IsLive awaiting_greeter_login
  desktop : (d : DesktopSize) (s : ℕ) → IsLive (connected d s)

-- One line of the documented rules each.
pub data Step : SessionState → SessionState → Type 0 where
  start :
      {s : SessionState} (leg : ℕ) (c : ConnectStage)
      → IsStopped s
      → leg ≡ 1
      → Step s (connecting leg c)
  forget_disconnected : (r : DisconnectReason) → Step (disconnected r) idle
  forget_failed : (r : DisconnectReason) → Step (failed r) idle
  cancel : Step idle (disconnected user_closed)
  progress :
      (leg : ℕ) (c c' : ConnectStage)
      → 1 ≤ leg
      → leg ≤ max_leg
      → Step (connecting leg c) (connecting leg c')
  redirect :
      (leg leg' : ℕ) (c c' : ConnectStage)
      → leg' ≡ leg + 1
      → leg' ≤ max_leg
      → Step (connecting leg c) (connecting leg' c')
  greet : (leg : ℕ) (c : ConnectStage) → 2 ≤ leg → Step (connecting leg c) awaiting_greeter_login
  connect :
      (leg : ℕ) (c : ConnectStage) (d : DesktopSize) (s : ℕ)
      → Step (connecting leg c) (connected d s)
  hand_over :
      {s : SessionState} (leg : ℕ) (c : ConnectStage)
      → IsLive s
      → 2 ≤ leg
      → leg ≤ max_leg
      → Step s (connecting leg c)
  resize : (d d' : DesktopSize) (s s' : ℕ) → Step (connected d s) (connected d' s')
  retry :
      {s : SessionState} (a n : ℕ) (r : DisconnectReason)
      → is_active s ≡ true
      → 1 ≤ a
      → is_retryable r ≡ true
      → Step s (reconnecting a n r)
  drop : {s : SessionState} (r : DisconnectReason) → is_active s ≡ true → Step s (disconnected r)
  fail : {s : SessionState} (r : DisconnectReason) → is_active s ≡ true → Step s (failed r)
  again :
      (a a' n n' : ℕ) (r r' : DisconnectReason)
      → a ≤ a'
      → 1 ≤ a'
      → is_retryable r' ≡ true
      → Step (reconnecting a n r) (reconnecting a' n' r')
  give_up : (a n : ℕ) (r r' : DisconnectReason) → Step (reconnecting a n r) (disconnected r')
  break_off : (a n : ℕ) (r r' : DisconnectReason) → Step (reconnecting a n r) (failed r')

-- Every step of the relation is allowed.
Step-allows : {s t : SessionState} → Step s t → allows s t ≡ true
unfolding allows is_active
Step-allows (start leg c at_idle e) = ground arith
Step-allows (start leg c (at_disconnected r) e) = ground arith
Step-allows (start leg c (at_failed r) e) = ground arith
Step-allows (start leg c (at_reconnecting a n r) e) = ground arith
Step-allows (forget_disconnected r) = refl
Step-allows (forget_failed r) = refl
Step-allows cancel = refl
Step-allows (progress leg c c' h k) = ground arith
Step-allows (redirect leg leg' c c' e h) = ground arith
Step-allows (greet leg c h) = ground arith
Step-allows (connect leg c d s) = refl
Step-allows (hand_over leg c greeter h k) = ground arith
Step-allows (hand_over leg c (desktop d s) h k) = ground arith
Step-allows (resize d d' s s') = refl
Step-allows (retry {s = s} a n r h k e) = ground arith
Step-allows (drop {s = s} r h) = ground arith
Step-allows (fail {s = s} r h) = ground arith
Step-allows (again a a' n n' r r' h k e) = ground arith
Step-allows (give_up a n r r') = refl
Step-allows (break_off a n r r') = refl

start_allowed :
    (s : SessionState) (leg : ℕ) (c : ConnectStage)
    → IsStopped s
    → allows s (connecting leg c) ≡ true
    → Step s (connecting leg c)
unfolding allows
start_allowed s leg c at_idle h = start leg c at_idle (ground arith)
start_allowed s leg c (at_disconnected r) h = start leg c (at_disconnected r) (ground arith)
start_allowed s leg c (at_failed r) h = start leg c (at_failed r) (ground arith)
start_allowed s leg c (at_reconnecting a n r) h = start leg c (at_reconnecting a n r) (ground arith)

leg_allowed :
    (leg leg' : ℕ) (c c' : ConnectStage)
    → allows (connecting leg c) (connecting leg' c') ≡ true
    → (((leg' ≡ leg) × (1 ≤ leg') × (leg' ≤ max_leg)) ⊎ ((leg' ≡ leg + 1) × (leg' ≤ max_leg)))
unfolding allows
leg_allowed leg leg' c c' h = ground arith

leg-Step :
    (leg leg' : ℕ) (c c' : ConnectStage)
    → allows (connecting leg c) (connecting leg' c') ≡ true
    → Step (connecting leg c) (connecting leg' c')
leg-Step leg leg' c c' h = elim (leg_allowed leg leg' c c' h) [
  | inl (e, k, m) ↦ rw e (progress leg c c' (omega arith) (omega arith))
  | inr (e, m) ↦ redirect leg leg' c c' e m
]

user_closed_allowed : (r : DisconnectReason) → allows idle (disconnected r) ≡ true → user_closed ≡ r
unfolding allows
user_closed_allowed r h = ground arith

allows-Step : (s t : SessionState) → allows s t ≡ true → Step s t
unfolding allows is_active
allows-Step idle (connecting leg c) h = start_allowed idle leg c at_idle h
allows-Step idle (disconnected r) h =
    subst (λ x. Step idle (disconnected x)) (user_closed_allowed r h) cancel
allows-Step (disconnected r) (connecting leg c) h = start_allowed _ leg c (at_disconnected r) h
allows-Step (disconnected r) idle h = forget_disconnected r
allows-Step (failed r) (connecting leg c) h = start_allowed _ leg c (at_failed r) h
allows-Step (failed r) idle h = forget_failed r
allows-Step (connecting leg c) (connecting leg' c') h = leg-Step leg leg' c c' h
allows-Step (connecting leg c) awaiting_greeter_login h = greet leg c (ground arith)
allows-Step (connecting leg c) (connected d s) h = connect leg c d s
allows-Step (connecting leg c) (reconnecting a n r) h =
    retry a n r refl (ground arith) (ground arith)
allows-Step (connecting leg c) (disconnected r) h = drop r refl
allows-Step (connecting leg c) (failed r) h = fail r refl
allows-Step awaiting_greeter_login (connecting leg c) h =
    hand_over leg c greeter (ground arith) (ground arith)
allows-Step awaiting_greeter_login (reconnecting a n r) h =
    retry a n r refl (ground arith) (ground arith)
allows-Step awaiting_greeter_login (disconnected r) h = drop r refl
allows-Step awaiting_greeter_login (failed r) h = fail r refl
allows-Step (connected d s) (connecting leg c) h =
    hand_over leg c (desktop d s) (ground arith) (ground arith)
allows-Step (connected d s) (connected d' s') h = resize d d' s s'
allows-Step (connected d s) (reconnecting a n r) h = retry a n r refl (ground arith) (ground arith)
allows-Step (connected d s) (disconnected r) h = drop r refl
allows-Step (connected d s) (failed r) h = fail r refl
allows-Step (reconnecting a n r) (reconnecting a' n' r') h =
    again a a' n n' r r' (ground arith) (ground arith) (ground arith)
allows-Step (reconnecting a n r) (connecting leg c) h =
    start_allowed _ leg c (at_reconnecting a n r) h
allows-Step (reconnecting a n r) (disconnected r') h = give_up a n r r'
allows-Step (reconnecting a n r) (failed r') h = break_off a n r r'
allows-Step _ _ h = ground arith

-- The gate accepts a transition exactly when a line of the documented table allows it, and then
-- returns the target state; otherwise it returns the error that names both states.
pub transition-Step :
    (s t : SessionState)
    → ((transition s t ≡ ok t) ↔ Step s t)
      × ((transition s t ≡ ok t) ⊎ (transition s t ≡ err (record { from = s; to = t })))
unfolding transition
transition-Step s t = ((λ h. allows-Step s t (accepted h), λ st. rw (Step-allows st) refl), outcome)
  where
    accepted : transition s t ≡ ok t → allows s t ≡ true
    accepted h = ground arith

    outcome : (transition s t ≡ ok t) ⊎ (transition s t ≡ err (record { from = s; to = t }))
    outcome = ground arith
