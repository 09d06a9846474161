-- ===== src/Rdp/Actor/Rejections.antt =====
-- Which state changes of the session actor the transition gate refuses, over every run.
use drift.Base.{
  ◌≤◌, ◌≡◌, refl, sym, ap, subst, ◌∙◌, true, false, ◌&&◌, Option, none, some, List, [], ◌∷◌, arith,
  Bool-cases, inl, inr, ◌==◌, Result, ok, err, ==_refl,
}
use drift.Core.Floats.{Floats}
use drift.Core.Geometry.{DesktopSize}
use drift.Core.State.{
  max_leg, ConnectStage, DisconnectReason, user_closed, SessionState, connecting, connected,
  disconnected, is_active, transition,
}
use drift.Core.Reconnect.{Instant, set_network_reachable, reset}
use drift.Rdp.Redirect
use drift.Rdp.Redirect.Legs.{Outcome, on_redirect_outcome, step_counts}
use drift.Rdp.Redirect.{
  NextLeg, ServerRedirectionPdu, RedirectLoop, CertificateDecoder, on_activated, on_redirect,
  next_leg,
}
use drift.Rdp.Actor.Gate.{at_auth, is_connected}
use drift.Rdp.Actor.Allowed.{
  connected_allowed, activation_allowed, is_terminal, can_dial, is_live, AllLate, set_state-Passes,
}
use drift.Rdp.Actor.{
  Setup, Actor, Phase, starting, dialing, live, waiting, idling, spawned, with_state, connect,
  after_disconnect, is_over, SessionCommand, close, reconnect_now, network_reachable, cancel,
  remember, receives, ticks, dials, leg_event, DialEnd, closed_first, ends, activates, LegEvent,
  output_resized, capabilities, redirected, ended, Event, step, run, on_dialed, activated, reached,
  shown, on_output_size, follow, redirect_result, on_leg_event, on_command, on_wait, on_waiting,
  on_idle, on_starting, on_tick,
}
use drift.Rdp.Actor.Sound.{
  OnLeg, is_waiting, Sound, stages-Shows, live-is_active, live_dials, close_late, shown_active,
  after_disconnect-Sound,
}

module _ (f : Floats) where
  -- A leg that is live, or that ends where it stands.
  live-Sound :
      (a : Actor f) (l : RedirectLoop) → Sound a.io (live l) → (is_active a.io.state ≡ true)
  live-Sound a l ((o, e), w) = live-is_active a.io.state l.leg e

  output-Sound :
      (a : Actor f) (l : RedirectLoop) (desktop : DesktopSize)
      → Sound a.io (live l)
      → Sound (on_output_size f a desktop).io (live l)
  unfolding on_output_size
  output-Sound a l desktop ((o, e), w) = elim (Bool-cases (is_connected a.io.state)) [
    | inl c ↦
        (let (e', k, j) =
            set_state-Passes a.io (connected desktop a.scale)
              (connected_allowed a.io.state desktop a.scale c) in
          rw c
            (((o.0, o.1, k ∙ o.2), ap (λ s. is_live s l.leg) e'), subst (λ x. AllLate x) (sym j) w))
    | inr c ↦ rw c ((o, e), w)
  ]

  result-Sound :
      (decode : CertificateDecoder) (a : Actor f) (l l' : RedirectLoop) (pdu : ServerRedirectionPdu)
      (now : Instant) (r : Result DisconnectReason NextLeg)
      → Sound a.io (live l)
      → Outcome decode l pdu l' r
      → l'.leg ≤ max_leg
      → Sound (redirect_result f decode a now l' r).0.io (redirect_result f decode a now l' r).1
  result-Sound decode a l l' pdu now (ok n) ((o, e), w) (c, d, g, p, h) k =
      let same : l'.leg ≡ n.leg = ap (λ x. x.leg) h in
      (
        (
          (omega (arith, same, g, o.0), k, sym same),
          subst (λ m. can_dial a.io.state m ≡ true) (sym (same ∙ g))
              (live_dials a.io.state l.leg o.0 e),
        ),
        w,
      )
  result-Sound decode a l l' pdu now (err r) ((o, e), w) h k =
      after_disconnect-Sound f a r now (live-is_active a.io.state l.leg e) w

  follow-Sound :
      (decode : CertificateDecoder) (a : Actor f) (l : RedirectLoop) (pdu : ServerRedirectionPdu)
      (now : Instant)
      → Sound a.io (live l)
      → Sound (follow f decode a l pdu now).0.io (follow f decode a l pdu now).1
  unfolding follow
  follow-Sound decode a l pdu now ((o, e), w) =
      result-Sound decode a l (on_redirect decode l pdu).0 pdu now (on_redirect decode l pdu).2
        ((o, e), w) (on_redirect_outcome decode l pdu).1 (step_counts decode l pdu o.0 o.1).1

  shown-Sound :
      (a : Actor f) (l : RedirectLoop) (c : ConnectStage) (o : Option SessionState)
      (desktop : DesktopSize)
      → OnLeg a.io l
      → a.io.state ≡ connecting l.leg c
      → AllLate a.io.rejected
      → on_activated l desktop a.scale ≡ o
      → Sound (shown f a o).io (live l)
  shown-Sound a l c none desktop on e w h = ((on, rw e (==_refl l.leg)), w)
  shown-Sound a l c (some s) desktop on e w h =
      let (t, v) = activation_allowed l desktop a.scale c s h in
      let (e', k, j) = set_state-Passes a.io s (subst (λ x. transition x s ≡ ok s) (sym e) t) in
      (((on.0, on.1, k ∙ on.2), ap (λ x. is_live x l.leg) e' ∙ v), subst (λ x. AllLate x) (sym j) w)

  activates-Sound :
      (a : Actor f) (l : RedirectLoop) (desktop : DesktopSize) (now : Instant)
      → Sound a.io (dialing l)
      → Sound (on_dialed f a l (activates desktop) now).0.io (live l)
  unfolding on_dialed activated
  activates-Sound a l desktop now ((o, e), w) =
      let (c, (h, k, j)) =
        stages-Shows a.io (l.leg == 1) at_auth (subst (λ n. 1 ≤ n) (sym o.2) o.0)
          (subst (λ n. n ≤ max_leg) (sym o.2) o.1)
          (subst (λ n. can_dial a.io.state n ≡ true) (sym o.2) e) in
      shown-Sound (reached f a (l.leg == 1) at_auth) l c (on_activated l desktop a.scale) desktop
        (o.0, o.1, k ∙ o.2) (h ∙ ap (λ n. connecting n c) o.2) (subst (λ x. AllLate x) (sym j) w)
        refl

  closed-Sound :
      (a : Actor f) (now : Instant)
      → AllLate a.io.rejected
      → Sound (after_disconnect f a user_closed now).0.io (after_disconnect f a user_closed now).1
  unfolding after_disconnect
  closed-Sound a now w = (tt, close_late a.io w)

  dialed-Sound :
      (a : Actor f) (l : RedirectLoop) (d : DialEnd) (now : Instant)
      → Sound a.io (dialing l)
      → Sound (on_dialed f a l d now).0.io (on_dialed f a l d now).1
  unfolding on_dialed
  dialed-Sound a l closed_first now (h, w) = closed-Sound a now w
  dialed-Sound a l (ends r reason) now ((o, e), w) =
      let (c, (h, k, j)) =
        stages-Shows a.io (l.leg == 1) r (subst (λ n. 1 ≤ n) (sym o.2) o.0)
          (subst (λ n. n ≤ max_leg) (sym o.2) o.1)
          (subst (λ n. can_dial a.io.state n ≡ true) (sym o.2) e) in
      after_disconnect-Sound f (reached f a (l.leg == 1) r) reason now
        (subst (λ x. is_active x ≡ true) (sym h) (shown_active a.io.leg c))
        (subst (λ x. AllLate x) (sym j) w)
  dialed-Sound a l (activates desktop) now h = activates-Sound a l desktop now h

  -- `connect` from a state in which leg 1 may be dialed.
  connect-Sound :
      (a : Actor f)
      → can_dial a.io.state 1 ≡ true
      → AllLate a.io.rejected
      → Sound (connect f a).0.io (connect f a).1
  unfolding connect Redirect.new
  connect-Sound a e w = (((omega arith, omega arith, refl), e), w)

  terminal_dials : (s : SessionState) → is_terminal s ≡ true → can_dial s 1 ≡ true
  terminal_dials s h = ground arith

  waiting_dials : (s : SessionState) → is_waiting s ≡ true → can_dial s 1 ≡ true
  waiting_dials s h = ground arith

  waiting_closes :
      (s : SessionState) (r : DisconnectReason)
      → is_waiting s ≡ true
      → transition s (disconnected r) ≡ ok (disconnected r)
  unfolding transition
  waiting_closes s r h = ground arith

  pub tick_io : (a : Actor f) (now : Instant) → (on_tick f a now).0.io ≡ a.io
  unfolding on_tick
  tick_io a now = ground arith

  closing_sound :
      (a : Actor f) (r : DisconnectReason)
      → is_waiting a.io.state ≡ true
      → AllLate a.io.rejected
      → (is_terminal (with_state f a (disconnected r)).io.state ≡ true)
        × AllLate (with_state f a (disconnected r)).io.rejected
  closing_sound a r h w =
      let (e, l, j) = set_state-Passes a.io (disconnected r) (waiting_closes a.io.state r h) in
      (ap is_terminal e, subst (λ x. AllLate x) (sym j) w)

  starting-Sound :
      (a : Actor f) (c : Option (SessionCommand f)) (now : Instant)
      → Sound a.io starting
      → Sound (on_starting f a c now).0.io (on_starting f a c now).1
  unfolding on_starting remember
  starting-Sound a none now (e, w) = connect-Sound a (ap (λ s. can_dial s 1) e) w
  starting-Sound a (some close) now (e, w) = connect-Sound a (ap (λ s. can_dial s 1) e) w
  starting-Sound a (some c) now s = s

  command-Sound :
      (a : Actor f) (l : RedirectLoop) (c : Option (SessionCommand f)) (now : Instant)
      → Sound a.io (live l)
      → Sound (on_command f a l c now).0.io (on_command f a l c now).1
  unfolding on_command remember
  command-Sound a l none now s = closed-Sound a now s.1
  command-Sound a l (some close) now s = closed-Sound a now s.1
  command-Sound a l (some c) now s = s

  wait_tick-Sound :
      (a : Actor f) (r : DisconnectReason) (d : Option Instant) (now : Instant)
      → Sound a.io (waiting r d)
      → Sound (on_wait f a r d now).0.io (on_wait f a r d now).1
  unfolding on_wait
  wait_tick-Sound a r d now (h, w) =
      elim (Bool-cases (is_over f d now && a.policy.network_reachable)) [
        | inl e ↦ rw e (connect-Sound a (waiting_dials a.io.state h) w)
        | inr e ↦ rw e (h, w)
      ]

  waiting-Sound :
      (a : Actor f) (r : DisconnectReason) (d : Option Instant) (c : Option (SessionCommand f))
      (now : Instant)
      → Sound a.io (waiting r d)
      → Sound (on_waiting f a r d c now).0.io (on_waiting f a r d c now).1
  unfolding on_waiting remember connect
  waiting-Sound a r d none now (h, w) = (tt, (closing_sound a user_closed h w).1)
  waiting-Sound a r d (some close) now (h, w) = (tt, (closing_sound a user_closed h w).1)
  waiting-Sound a r d (some cancel) now (h, w) = closing_sound a r h w
  waiting-Sound a r d (some reconnect_now) now (h, w) =
      elim (Bool-cases a.policy.network_reachable) [
        | inl e ↦ rw (e, connect) (connect-Sound a (waiting_dials a.io.state h) w)
        | inr e ↦ rw e (h, w)
      ]
  waiting-Sound a r d (some (network_reachable true)) now (h, w) =
      connect-Sound (record a { policy = set_network_reachable a.policy true })
        (waiting_dials a.io.state h) w
  waiting-Sound a r d (some (network_reachable false)) now s = s
  waiting-Sound a r d (some c) now s = s

  idle-Sound :
      (a : Actor f) (c : Option (SessionCommand f)) (now : Instant)
      → Sound a.io idling
      → Sound (on_idle f a c now).0.io (on_idle f a c now).1
  unfolding on_idle remember
  idle-Sound a none now (h, w) = (tt, w)
  idle-Sound a (some close) now (h, w) = (tt, w)
  idle-Sound a (some reconnect_now) now (h, w) =
      connect-Sound (record a { policy = set_network_reachable (reset a.policy) true })
        (terminal_dials a.io.state h) w
  idle-Sound a (some c) now s = s

  leg_event-Sound :
      (decode : CertificateDecoder) (a : Actor f) (l : RedirectLoop) (e : LegEvent) (now : Instant)
      → Sound a.io (live l)
      → Sound (on_leg_event f decode a l e now).0.io (on_leg_event f decode a l e now).1
  unfolding on_leg_event
  leg_event-Sound decode a l (output_resized desktop) now s = output-Sound a l desktop s
  leg_event-Sound decode a l (capabilities caps) now s = s
  leg_event-Sound decode a l (redirected pdu) now s = follow-Sound decode a l pdu now s
  leg_event-Sound decode a l (ended reason) now s =
      after_disconnect-Sound f a reason now (live-Sound a l s) s.1

  step-Sound :
      (decode : CertificateDecoder) (a : Actor f) (p : Phase) (e : Event f) (now : Instant)
      → Sound a.io p
      → Sound (step f decode (a, p) e now).0.io (step f decode (a, p) e now).1
  unfolding step
  step-Sound decode a starting (receives c) now s = starting-Sound a c now s
  step-Sound decode a starting ticks now (e, w) = connect-Sound a (ap (λ s. can_dial s 1) e) w
  step-Sound decode a (dialing l) (dials d) now s = dialed-Sound a l d now s
  step-Sound decode a (live l) (leg_event e) now s = leg_event-Sound decode a l e now s
  step-Sound decode a (live l) (receives c) now s = command-Sound a l c now s
  step-Sound decode a (live l) ticks now s = subst (λ io. Sound io (live l)) (sym (tick_io a now)) s
  step-Sound decode a (waiting r d) ticks now s = wait_tick-Sound a r d now s
  step-Sound decode a (waiting r d) (receives c) now s = waiting-Sound a r d c now s
  step-Sound decode a idling (receives c) now s = idle-Sound a c now s
  step-Sound decode a p e now s = s

  run-Sound :
      (decode : CertificateDecoder) (a : Actor f) (p : Phase) (es : List (Event f × Instant))
      → Sound a.io p
      → Sound (run f decode (a, p) es).0.io (run f decode (a, p) es).1
  unfolding run
  run-Sound decode a p [] s = s
  run-Sound decode a p ((e, now) ∷ es) s =
      run-Sound decode (step f decode (a, p) e now).0 (step f decode (a, p) e now).1 es
        (step-Sound decode a p e now s)

  -- In every run of the actor from its start, whatever it receives, the session state fits the phase
  -- (a leg is in 1..=MAX_LEG and is the leg of the redirect loop, a live leg is connecting on that
  -- leg, at the greeter or connected, a wait shows `Reconnecting`, an idle actor `Disconnected` or
  -- `Failed`), and the transition gate refuses nothing but a close of a session that is over.
  pub run_keeps_phase :
      (decode : CertificateDecoder) (s : Setup) (es : List (Event f × Instant))
      → Sound
          (run f decode (spawned f s, starting) es).0.io
          (run f decode (spawned f s, starting) es).1
  unfolding spawned
  run_keeps_phase decode s es = run-Sound decode (spawned f s) starting es (refl, tt)
