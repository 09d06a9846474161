-- ===== src/Rdp/Actor/Sound.antt =====
-- What a session state owes to the phase of the actor, through the end of a leg and of a session.
use drift.Base.{
  ℕ, ◌+◌, ◌≤◌, ◌≡◌, refl, sym, ap, subst, ◌∙◌, Bool, true, false, arith, Bool-cases, inl, inr, ◌==◌,
  ok, err, ◌⊎◌,
}
use drift.Core.Floats.{Floats}
use drift.Core.State.{
  max_leg, ConnectStage, tcp, tls, DisconnectReason, user_closed, is_retryable, SessionState, idle,
  connecting, reconnecting, disconnected, is_active, transition,
}
use drift.Core.State.Same.{same_state}
use drift.Core.Reconnect.{
  Instant, ReconnectDecision, retry, wait_for_network, give_up, on_disconnect,
}
use drift.Rdp.Redirect.{RedirectLoop}
use drift.Rdp.Actor.Gate.{
  Io, set_state, stage, terminal_state, Reach, at_tcp, at_tls, at_auth, auth_stage, stages,
}
use drift.Rdp.Actor.Allowed.{
  is_terminal, can_dial, is_live, AllLate, Passes, set_state-Passes, dial_allowed, stage_allowed,
  end_allowed, close_allowed, backoff_allowed, Waits, on_disconnect-Waits,
}
use drift.Rdp.Actor.{
  Actor, Phase, starting, dialing, live, waiting, idling, exited, stop, after_disconnect, decided,
  wait_backoff, is_user_closed, duration_max,
}

-- The io is on the leg of the redirect loop.
abbrev pub OnLeg : Io → RedirectLoop → Type 0
OnLeg io l = (1 ≤ l.leg) × (l.leg ≤ max_leg) × (io.leg ≡ l.leg)

abbrev pub is_waiting : SessionState → Bool
is_waiting (reconnecting a n r) = true
is_waiting _ = false

-- The session state in each phase.
abbrev pub Fits : Io → Phase → Type 0
Fits io starting = io.state ≡ idle
Fits io (dialing l) = OnLeg io l × (can_dial io.state l.leg ≡ true)
Fits io (live l) = OnLeg io l × (is_live io.state l.leg ≡ true)
Fits io (waiting r d) = is_waiting io.state ≡ true
Fits io idling = is_terminal io.state ≡ true
Fits io exited = Unit {0}

-- A reached state keeps to its phase, and what was rejected until then came too late to matter.
abbrev pub Sound : Io → Phase → Type 0
Sound io p = Fits io p × AllLate io.rejected

-- The io shows a stage of its leg, with nothing rejected since `from`.
abbrev pub Shows : Io → Io → ConnectStage → Type 0
Shows from io c = Passes from io (connecting from.leg c)

pub stage-Shows :
    (from io : Io) (c d : ConnectStage)
    → 1 ≤ from.leg
    → from.leg ≤ max_leg
    → Shows from io c
    → Shows from (stage io d) d
stage-Shows from io c d h k (e, l, j) =
    let allowed : transition io.state (connecting io.leg d) ≡ ok (connecting io.leg d) =
      ground (arith, e, l, stage_allowed from.leg c d h k) in
    let (e', l', j') = set_state-Passes io (connecting io.leg d) allowed in
    (e' ∙ ap (λ n. connecting n d) l, l' ∙ l, j' ∙ j)

pub stages-Shows :
    (io : Io) (first : Bool) (r : Reach)
    → 1 ≤ io.leg
    → io.leg ≤ max_leg
    → can_dial io.state io.leg ≡ true
    → (c : ConnectStage) × Shows io (stages io first r) c
unfolding stages
stages-Shows io first r h k e =
    let one =
      set_state-Passes io (connecting io.leg tcp) (dial_allowed io.state io.leg tcp h k e) in
    let two = stage-Shows io (stage io tcp) tcp tls h k one in
    elim r as (λ x. (c : ConnectStage) × Shows io (stages io first x) c) [
      | at_tcp ↦ (tcp, one)
      | at_tls ↦ (tls, two)
      | at_auth ↦ (
        auth_stage first,
        stage-Shows io (stage (stage io tcp) tls) tls (auth_stage first) h k two,
      )
    ]

terminal_is : (r : DisconnectReason) → is_terminal (terminal_state r) ≡ true
unfolding terminal_state
terminal_is r = ground arith

pub live-is_active : (s : SessionState) (leg : ℕ) → is_live s leg ≡ true → is_active s ≡ true
unfolding is_active
live-is_active s leg h = ground arith

pub shown_active : (leg : ℕ) (c : ConnectStage) → is_active (connecting leg c) ≡ true
unfolding is_active
shown_active leg c = refl

pub live_dials :
    (s : SessionState) (leg : ℕ) → 1 ≤ leg → is_live s leg ≡ true → can_dial s (leg + 1) ≡ true
live_dials s leg h e = ground arith

-- A session that is closed goes to its end, or was over before.
late_close :
    (s : SessionState)
    → (transition s (disconnected user_closed) ≡ ok (disconnected user_closed))
      ⊎ ((is_terminal s ≡ true)
          × (transition s (disconnected user_closed)
              ≡ err (record { from = s; to = disconnected user_closed })))
unfolding transition
late_close s = ground arith

pub close_late :
    (io : Io) → AllLate io.rejected → AllLate (set_state io (disconnected user_closed)).rejected
unfolding set_state
close_late io w = elim (Bool-cases (same_state io.state (disconnected user_closed))) [
  | inl e ↦ rw e w
  | inr e ↦ elim (late_close io.state) [
    | inl h ↦ rw (e, h) w
    | inr (t, h) ↦ rw (e, h) ((t, refl), w)
  ]
]

module _ (f : Floats) where
  stop-Sound :
      (a : Actor f) (r : DisconnectReason)
      → is_active a.io.state ≡ true
      → AllLate a.io.rejected
      → Sound (stop f a (terminal_state r)).0.io (stop f a (terminal_state r)).1
  stop-Sound a r h w =
      let (e, l, j) = set_state-Passes a.io (terminal_state r) (end_allowed a.io.state r h) in
      (ap is_terminal e ∙ terminal_is r, subst (λ x. AllLate x) (sym j) w)

  wait-Sound :
      (a : Actor f) (attempt delay : ℕ) (r : DisconnectReason) (now : Instant)
      → is_active a.io.state ≡ true
      → AllLate a.io.rejected
      → 1 ≤ attempt
      → is_retryable r ≡ true
      → Sound (wait_backoff f a attempt delay r now).0.io (wait_backoff f a attempt delay r now).1
  wait-Sound a attempt delay r now h w k e =
      let (e', l, j) =
        set_state-Passes a.io (reconnecting attempt _ r)
          (backoff_allowed a.io.state attempt _ r h k e) in
      (ap is_waiting e', subst (λ x. AllLate x) (sym j) w)

  decided-Sound :
      (a : Actor f) (r : DisconnectReason) (now : Instant) (d : ReconnectDecision)
      → is_active a.io.state ≡ true
      → AllLate a.io.rejected
      → Waits r d
      → Sound (decided f a r now d).0.io (decided f a r now d).1
  decided-Sound a r now (retry attempt delay) h w g = wait-Sound a attempt delay r now h w g.0 g.1
  decided-Sound a r now (wait_for_network attempt) h w g =
      wait-Sound a attempt duration_max r now h w g.0 g.1
  decided-Sound a r now (give_up why) h w g = stop-Sound a r h w

  pub after_disconnect-Sound :
      (a : Actor f) (r : DisconnectReason) (now : Instant)
      → is_active a.io.state ≡ true
      → AllLate a.io.rejected
      → Sound (after_disconnect f a r now).0.io (after_disconnect f a r now).1
  unfolding after_disconnect
  after_disconnect-Sound a r now h w = elim (Bool-cases (is_user_closed r)) [
    | inl c ↦
        (let (e, l, j) = set_state-Passes a.io (disconnected r) (close_allowed a.io.state r h) in
          rw c (tt, subst (λ x. AllLate x) (sym j) w))
    | inr c ↦ elim (Bool-cases (a.activations == 0)) [
      | inl z ↦ rw (c, z) (stop-Sound a r h w)
      | inr z ↦
          rw (c, z)
            (decided-Sound (record a { policy = (on_disconnect a.policy r now).0 }) r now
              (on_disconnect a.policy r now).1 h w (on_disconnect-Waits a.policy r now))
    ]
  ]
