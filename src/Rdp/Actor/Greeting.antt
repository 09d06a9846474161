-- ===== src/Rdp/Actor/Greeting.antt =====
-- When the actor types the stored Linux password.
use drift.Base.{
  ◌≡◌, subst, Bool, true, not, ◌||◌, Option, none, some, List, [], ◌∷◌, arith, is_some, Result, ok,
  err,
}
use drift.Core.Floats.{Floats}
use drift.Core.Geometry.{DesktopSize}
use drift.Core.State.{
  DisconnectReason, user_closed, SessionState, awaiting_greeter_login, transition,
}
use drift.Core.State.Paths.{is_greeter}
use drift.Core.Reconnect.{Instant}
use drift.Rdp.Redirect.{NextLeg, RedirectLoop, CertificateDecoder, on_redirect}
use drift.Rdp.Greeter.{GreeterTypist, clicked, on_input}
use drift.Rdp.Greeter
use drift.Rdp.Actor.Gate.{set_state}
use drift.Rdp.Actor.{
  Setup, Actor, Phase, starting, dialing, live, waiting, idling, spawned, connect, after_disconnect,
  SessionCommand, input, close, remember, DialEnd, closed_first, ends, activates, LegEvent,
  output_resized, capabilities, redirected, ended, Event, receives, ticks, dials, leg_event, step,
  run, on_dialed, activated, on_output_size, follow, redirect_result, on_leg_event, on_command,
  on_wait, on_waiting, on_idle, on_starting, on_tick,
}

-- The typist is armed at the greeter only.
abbrev armed_at_greeter : Bool → SessionState → Bool
armed_at_greeter armed s = not armed || is_greeter s

module _ (f : Floats) where
  abbrev IsGuarded : Actor f → Phase → Type 0
  IsGuarded a (live l) = armed_at_greeter a.typist.armed a.io.state ≡ true
  IsGuarded a p = Unit {0}

  after_disconnect-IsGuarded :
      (a : Actor f) (r : DisconnectReason) (now : Instant)
      → IsGuarded (after_disconnect f a r now).0 (after_disconnect f a r now).1
  unfolding after_disconnect
  after_disconnect-IsGuarded a r now = ground arith

  dialed-IsGuarded :
      (a : Actor f) (l : RedirectLoop) (d : DialEnd) (now : Instant)
      → IsGuarded (on_dialed f a l d now).0 (on_dialed f a l d now).1
  unfolding on_dialed activated
  dialed-IsGuarded a l closed_first now = after_disconnect-IsGuarded a user_closed now
  dialed-IsGuarded a l (ends r reason) now = after_disconnect-IsGuarded _ reason now
  dialed-IsGuarded a l (activates desktop) now = ground arith

  output-IsGuarded :
      (a : Actor f) (l : RedirectLoop) (desktop : DesktopSize)
      → IsGuarded a (live l)
      → IsGuarded (on_output_size f a desktop) (live l)
  unfolding on_output_size set_state transition
  output-IsGuarded a l desktop h = ground arith

  tick-IsGuarded :
      (a : Actor f) (l : RedirectLoop) (now : Instant)
      → IsGuarded a (live l)
      → IsGuarded (on_tick f a now).0 (live l)
  unfolding on_tick Greeter.poll
  tick-IsGuarded a l now h = ground arith

  follow-IsGuarded :
      (decode : CertificateDecoder) (a : Actor f) (now : Instant) (l : RedirectLoop)
      (r : Result DisconnectReason NextLeg)
      → IsGuarded (redirect_result f decode a now l r).0 (redirect_result f decode a now l r).1
  follow-IsGuarded decode a now l (ok n) = tt
  follow-IsGuarded decode a now l (err r) = after_disconnect-IsGuarded a r now

  leg_event-IsGuarded :
      (decode : CertificateDecoder) (a : Actor f) (l : RedirectLoop) (e : LegEvent) (now : Instant)
      → IsGuarded a (live l)
      → IsGuarded (on_leg_event f decode a l e now).0 (on_leg_event f decode a l e now).1
  unfolding on_leg_event follow
  leg_event-IsGuarded decode a l (output_resized desktop) now h = output-IsGuarded a l desktop h
  leg_event-IsGuarded decode a l (capabilities caps) now h = h
  leg_event-IsGuarded decode a l (redirected pdu) now h =
      follow-IsGuarded decode a now (on_redirect decode l pdu).0 (on_redirect decode l pdu).2
  leg_event-IsGuarded decode a l (ended reason) now h = after_disconnect-IsGuarded a reason now

  command-IsGuarded :
      (a : Actor f) (l : RedirectLoop) (c : Option (SessionCommand f)) (now : Instant)
      → IsGuarded a (live l)
      → IsGuarded (on_command f a l c now).0 (on_command f a l c now).1
  unfolding on_command remember on_input
  command-IsGuarded a l none now h = after_disconnect-IsGuarded a user_closed now
  command-IsGuarded a l (some close) now h = after_disconnect-IsGuarded a user_closed now
  command-IsGuarded a l (some (input e)) now h = ground arith
  command-IsGuarded a l (some c) now h = h

  starting-IsGuarded :
      (a : Actor f) (c : Option (SessionCommand f)) (now : Instant)
      → IsGuarded (on_starting f a c now).0 (on_starting f a c now).1
  unfolding on_starting connect
  starting-IsGuarded a c now = ground arith

  wait-IsGuarded :
      (a : Actor f) (r : DisconnectReason) (d : Option Instant) (now : Instant)
      → IsGuarded (on_wait f a r d now).0 (on_wait f a r d now).1
  unfolding on_wait connect
  wait-IsGuarded a r d now = ground arith

  waiting-IsGuarded :
      (a : Actor f) (r : DisconnectReason) (d : Option Instant) (c : Option (SessionCommand f))
      (now : Instant)
      → IsGuarded (on_waiting f a r d c now).0 (on_waiting f a r d c now).1
  unfolding on_waiting connect
  waiting-IsGuarded a r d c now = ground arith

  idle-IsGuarded :
      (a : Actor f) (c : Option (SessionCommand f)) (now : Instant)
      → IsGuarded (on_idle f a c now).0 (on_idle f a c now).1
  unfolding on_idle connect
  idle-IsGuarded a c now = ground arith

  step-IsGuarded :
      (decode : CertificateDecoder) (a : Actor f) (p : Phase) (e : Event f) (now : Instant)
      → IsGuarded a p
      → IsGuarded (step f decode (a, p) e now).0 (step f decode (a, p) e now).1
  unfolding step connect
  step-IsGuarded decode a starting (receives c) now h = starting-IsGuarded a c now
  step-IsGuarded decode a starting ticks now h = tt
  step-IsGuarded decode a (dialing l) (dials d) now h = dialed-IsGuarded a l d now
  step-IsGuarded decode a (live l) (leg_event e) now h = leg_event-IsGuarded decode a l e now h
  step-IsGuarded decode a (live l) (receives c) now h = command-IsGuarded a l c now h
  step-IsGuarded decode a (live l) ticks now h = tick-IsGuarded a l now h
  step-IsGuarded decode a (waiting r d) ticks now h = wait-IsGuarded a r d now
  step-IsGuarded decode a (waiting r d) (receives c) now h = waiting-IsGuarded a r d c now
  step-IsGuarded decode a idling (receives c) now h = idle-IsGuarded a c now
  step-IsGuarded decode a p e now h = h

  run-IsGuarded :
      (decode : CertificateDecoder) (a : Actor f) (p : Phase) (es : List (Event f × Instant))
      → IsGuarded a p
      → IsGuarded (run f decode (a, p) es).0 (run f decode (a, p) es).1
  unfolding run
  run-IsGuarded decode a p [] h = h
  run-IsGuarded decode a p ((e, now) ∷ es) h =
      run-IsGuarded decode (step f decode (a, p) e now).0 (step f decode (a, p) e now).1 es
        (step-IsGuarded decode a p e now h)

  typed_armed :
      (a : Actor f) (now : Instant)
      → is_some (on_tick f a now).1 ≡ true
      → (a.typist.armed ≡ true) × (is_some a.setup.linux_password ≡ true)
  unfolding on_tick Greeter.poll
  typed_armed a now h = ground arith

  -- If a tick of a live leg types the stored password, in any run of the actor from its start, then
  -- the session state is `AwaitingGreeterLogin` and the setup stores a password.
  pub types_at_greeter :
      (decode : CertificateDecoder) (s : Setup) (es : List (Event f × Instant)) (a : Actor f)
      (l : RedirectLoop) (now : Instant)
      → run f decode (spawned f s, starting) es ≡ (a, live l)
      → is_some (on_tick f a now).1 ≡ true
      → (a.io.state ≡ awaiting_greeter_login) × (is_some a.setup.linux_password ≡ true)
  types_at_greeter decode s es a l now e h =
      let guarded =
        subst (λ m. IsGuarded m.0 m.1) e (run-IsGuarded decode (spawned f s) starting es tt) in
      let (armed, stored) = typed_armed a now h in (ground (arith, guarded, armed), stored)
