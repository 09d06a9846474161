-- ===== src/Rdp/Actor/Keeps.antt =====
-- What every run of the actor keeps of its io, for any property that the gate keeps.
use drift.Base.{
  ℕ, sym, subst, Bool, true, false, ◌&&◌, Option, none, some, List, [], ◌∷◌, Bool-cases, inl, inr,
  ◌==◌, Result, ok, err,
}
use drift.Core.Floats.{Floats}
use drift.Core.Geometry.{DesktopSize}
use drift.Core.State.{SessionState, DisconnectReason, user_closed, disconnected, connected}
use drift.Core.Reconnect.{
  Instant, ReconnectDecision, retry, wait_for_network, give_up, on_disconnect,
  set_network_reachable, reset,
}
use drift.Rdp.Redirect.{NextLeg, RedirectLoop, CertificateDecoder, on_activated, on_redirect}
use drift.Rdp.Actor.Gate.{
  Io, set_state, terminal_state, Reach, at_tcp, at_tls, at_auth, stages, is_connected,
}
use drift.Rdp.Actor.Rejections.{tick_io}
use drift.Rdp.Actor.{
  Actor, Phase, starting, dialing, live, waiting, idling, connect, after_disconnect, decided,
  is_user_closed, SessionCommand, close, cancel, reconnect_now, network_reachable, remember,
  DialEnd, closed_first, ends, activates, LegEvent, output_resized, capabilities, redirected, ended,
  Event, receives, ticks, dials, leg_event, step, run, on_dialed, activated, reached, shown,
  on_output_size, follow, redirect_result, on_leg_event, on_command, on_wait, is_over, on_waiting,
  on_idle, on_starting,
}

-- A property of the io that `set_state` keeps and that does not read the leg holds through every run.
module _ (f : Floats) (P : Io → Type 0)
    (kept : (io : Io) (s : SessionState) → P io → P (set_state io s))
    (moved : (io : Io) (leg : ℕ) → P io → P (record io { leg = leg })) where
  abbrev Keeps : Actor f × Phase → Type 0
  Keeps m = P m.0.io

  decided-Keeps :
      (a : Actor f) (r : DisconnectReason) (now : Instant) (d : ReconnectDecision)
      → P a.io
      → Keeps (decided f a r now d)
  decided-Keeps a r now (retry attempt delay) h = kept a.io _ h
  decided-Keeps a r now (wait_for_network attempt) h = kept a.io _ h
  decided-Keeps a r now (give_up why) h = kept a.io _ h

  after_disconnect-Keeps :
      (a : Actor f) (r : DisconnectReason) (now : Instant)
      → P a.io
      → Keeps (after_disconnect f a r now)
  unfolding after_disconnect
  after_disconnect-Keeps a r now h = elim (Bool-cases (is_user_closed r)) [
    | inl c ↦ rw c (kept a.io (disconnected r) h)
    | inr c ↦ elim (Bool-cases (a.activations == 0)) [
      | inl z ↦ rw (c, z) (kept a.io (terminal_state r) h)
      | inr z ↦
          rw (c, z)
            (decided-Keeps (record a { policy = (on_disconnect a.policy r now).0 }) r now
              (on_disconnect a.policy r now).1 h)
    ]
  ]

  connect-Keeps : (a : Actor f) → P a.io → Keeps (connect f a)
  unfolding connect
  connect-Keeps a h = moved a.io 1 h

  stages_keeps : (io : Io) (first : Bool) (r : Reach) → P io → P (stages io first r)
  unfolding stages
  stages_keeps io first at_tcp h = kept io _ h
  stages_keeps io first at_tls h = kept _ _ (kept io _ h)
  stages_keeps io first at_auth h = kept _ _ (kept _ _ (kept io _ h))

  shown_keeps : (a : Actor f) (o : Option SessionState) → P a.io → P (shown f a o).io
  shown_keeps a none h = h
  shown_keeps a (some s) h = kept a.io s h

  dialed-Keeps :
      (a : Actor f) (l : RedirectLoop) (d : DialEnd) (now : Instant)
      → P a.io
      → Keeps (on_dialed f a l d now)
  unfolding on_dialed activated
  dialed-Keeps a l closed_first now h = after_disconnect-Keeps a user_closed now h
  dialed-Keeps a l (ends r reason) now h =
      after_disconnect-Keeps (reached f a (l.leg == 1) r) reason now
        (stages_keeps a.io (l.leg == 1) r h)
  dialed-Keeps a l (activates desktop) now h =
      shown_keeps (reached f a (l.leg == 1) at_auth) (on_activated l desktop a.scale)
        (stages_keeps a.io (l.leg == 1) at_auth h)

  output_keeps : (a : Actor f) (desktop : DesktopSize) → P a.io → P (on_output_size f a desktop).io
  unfolding on_output_size
  output_keeps a desktop h = elim (Bool-cases (is_connected a.io.state)) [
    | inl c ↦ rw c (kept a.io (connected desktop a.scale) h)
    | inr c ↦ rw c h
  ]

  follow-Keeps :
      (decode : CertificateDecoder) (a : Actor f) (now : Instant) (l : RedirectLoop)
      (r : Result DisconnectReason NextLeg)
      → P a.io
      → Keeps (redirect_result f decode a now l r)
  follow-Keeps decode a now l (ok n) h = moved a.io n.leg h
  follow-Keeps decode a now l (err r) h = after_disconnect-Keeps a r now h

  leg_event-Keeps :
      (decode : CertificateDecoder) (a : Actor f) (l : RedirectLoop) (e : LegEvent) (now : Instant)
      → P a.io
      → Keeps (on_leg_event f decode a l e now)
  unfolding on_leg_event follow
  leg_event-Keeps decode a l (output_resized desktop) now h = output_keeps a desktop h
  leg_event-Keeps decode a l (capabilities caps) now h = h
  leg_event-Keeps decode a l (redirected pdu) now h =
      follow-Keeps decode a now (on_redirect decode l pdu).0 (on_redirect decode l pdu).2 h
  leg_event-Keeps decode a l (ended reason) now h = after_disconnect-Keeps a reason now h

  starting-Keeps :
      (a : Actor f) (c : Option (SessionCommand f)) (now : Instant)
      → P a.io
      → Keeps (on_starting f a c now)
  unfolding on_starting remember
  starting-Keeps a none now h = connect-Keeps a h
  starting-Keeps a (some close) now h = connect-Keeps a h
  starting-Keeps a (some c) now h = h

  command-Keeps :
      (a : Actor f) (l : RedirectLoop) (c : Option (SessionCommand f)) (now : Instant)
      → P a.io
      → Keeps (on_command f a l c now)
  unfolding on_command remember
  command-Keeps a l none now h = after_disconnect-Keeps a user_closed now h
  command-Keeps a l (some close) now h = after_disconnect-Keeps a user_closed now h
  command-Keeps a l (some c) now h = h

  wait-Keeps :
      (a : Actor f) (r : DisconnectReason) (d : Option Instant) (now : Instant)
      → P a.io
      → Keeps (on_wait f a r d now)
  unfolding on_wait
  wait-Keeps a r d now h = elim (Bool-cases (is_over f d now && a.policy.network_reachable)) [
    | inl e ↦ rw e (connect-Keeps a h)
    | inr e ↦ rw e h
  ]

  waiting-Keeps :
      (a : Actor f) (r : DisconnectReason) (d : Option Instant) (c : Option (SessionCommand f))
      (now : Instant)
      → P a.io
      → Keeps (on_waiting f a r d c now)
  unfolding on_waiting remember connect
  waiting-Keeps a r d none now h = kept a.io _ h
  waiting-Keeps a r d (some close) now h = kept a.io _ h
  waiting-Keeps a r d (some cancel) now h = kept a.io _ h
  waiting-Keeps a r d (some reconnect_now) now h = elim (Bool-cases a.policy.network_reachable) [
    | inl e ↦ rw (e, connect) (moved a.io 1 h)
    | inr e ↦ rw e h
  ]
  waiting-Keeps a r d (some (network_reachable true)) now h = moved a.io 1 h
  waiting-Keeps a r d (some (network_reachable false)) now h = h
  waiting-Keeps a r d (some c) now h = h

  idle-Keeps :
      (a : Actor f) (c : Option (SessionCommand f)) (now : Instant)
      → P a.io
      → Keeps (on_idle f a c now)
  unfolding on_idle remember
  idle-Keeps a none now h = h
  idle-Keeps a (some close) now h = h
  idle-Keeps a (some reconnect_now) now h =
      connect-Keeps (record a { policy = set_network_reachable (reset a.policy) true }) h
  idle-Keeps a (some c) now h = h

  step-Keeps :
      (decode : CertificateDecoder) (a : Actor f) (p : Phase) (e : Event f) (now : Instant)
      → P a.io
      → Keeps (step f decode (a, p) e now)
  unfolding step
  step-Keeps decode a starting (receives c) now h = starting-Keeps a c now h
  step-Keeps decode a starting ticks now h = connect-Keeps a h
  step-Keeps decode a (dialing l) (dials d) now h = dialed-Keeps a l d now h
  step-Keeps decode a (live l) (leg_event e) now h = leg_event-Keeps decode a l e now h
  step-Keeps decode a (live l) (receives c) now h = command-Keeps a l c now h
  step-Keeps decode a (live l) ticks now h = subst (λ io. P io) (sym (tick_io f a now)) h
  step-Keeps decode a (waiting r d) ticks now h = wait-Keeps a r d now h
  step-Keeps decode a (waiting r d) (receives c) now h = waiting-Keeps a r d c now h
  step-Keeps decode a idling (receives c) now h = idle-Keeps a c now h
  step-Keeps decode a p e now h = h

  pub run-Keeps :
      (decode : CertificateDecoder) (a : Actor f) (p : Phase) (es : List (Event f × Instant))
      → P a.io
      → Keeps (run f decode (a, p) es)
  unfolding run
  run-Keeps decode a p [] h = h
  run-Keeps decode a p ((e, now) ∷ es) h =
      run-Keeps decode (step f decode (a, p) e now).0 (step f decode (a, p) e now).1 es
        (step-Keeps decode a p e now h)
