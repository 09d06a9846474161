-- ===== src/Rdp/Actor.antt =====
-- crates/drift-rdp/src/actor.rs: the session actor as a machine. A phase is a place where the actor
-- waits; an event is what it then receives. The clipboard, graphics, statistics and wire writes of a
-- leg are not part of the machine; a write that fails is the event that ends the leg. A `u32` counter
-- of activations is compared with 0 only.
mod State
mod Ends
pub mod Gate
pub mod Allowed
pub mod Sound
pub mod Rejections
pub mod Keeps
pub mod History
pub mod Greeting
mod Examples
unfoldable pub use State.*
unfoldable pub use Ends.*
use drift.Base.{
  ℕ, ◌+◌, ◌-◌, ◌*◌, Bool, true, false, not, ◌&&◌, ◌||◌, Option, none, some, List, [], ◌∷◌, leb, ltb,
  ◌==◌, is_some, if◌then◌else◌, Result, ok, err,
}
use drift.Core.Geometry.{DesktopSize}
use drift.Core.Profile.{ConnectMode, DisplayPrefs}
use drift.Core.Floats.{Floats, ViewGeometry}
use drift.Core.Events.{InputEvent}
use drift.Core.Layout.{MonitorLayout, DisplayControlCaps, device_scale_for}
use drift.Core.State.{
  SessionState, idle, awaiting_greeter_login, connected, reconnecting, disconnected,
  DisconnectReason, user_closed,
}
use drift.Core.Reconnect.{
  Instant, Duration, duration_limit, ReconnectPolicy, ReconnectConfig, ReconnectDecision, retry,
  wait_for_network, give_up, on_connected, on_disconnect, set_network_reachable, reset,
}
use drift.Core.Reconnect
use drift.Gfx.Pdu.{Bytes}
use drift.Rdp.Redirect.{
  ServerRedirectionPdu, NextLeg, RedirectLoop, on_activated, on_redirect, CertificateDecoder,
}
use drift.Rdp.Redirect
use drift.Rdp.Resize.{
  ResizeDriver, desired, on_geometry, on_leg_activated, on_display_control_ready,
}
use drift.Rdp.Resize
use drift.Rdp.Greeter.{GreeterTypist, on_greeter, disarm, on_input}
use drift.Rdp.Greeter
use drift.Rdp.Actor.Gate.{
  Io, set_state, terminal_state, Reach, at_tcp, at_tls, at_auth, stages, is_connected,
}

module _ (f : Floats) where
  -- The state and the typist in `on_activated`, after the policy and the resize driver.
  abbrev greeted : SessionState → GreeterTypist → Bool → GreeterTypist
  greeted awaiting_greeter_login t has_password = on_greeter t has_password
  greeted _ t has_password = disarm t

  -- `Actor::on_activated`.
  unfoldable pub activated : Actor f → DesktopSize → Instant → Actor f
  activated a desktop now = record a {
    policy = on_connected a.policy now;
    resize = on_leg_activated f a.resize (record {
      width = desktop.width;
      height = desktop.height;
      desktop_scale_factor = a.scale;
      device_scale_factor = device_scale_for a.scale;
    });
    typist = greeted a.io.state a.typist (is_some a.setup.linux_password);
    activations = a.activations + 1;
  }

  abbrev shown : Actor f → Option SessionState → Actor f
  shown a none = a
  shown a (some s) = with_state f a s

  abbrev reached : Actor f → Bool → Reach → Actor f
  reached a first r = record a { io = stages a.io first r }

  -- `connect_one`, and what `connect_loop` does with its result.
  unfoldable pub on_dialed : Actor f → RedirectLoop → DialEnd → Instant → Actor f × Phase
  on_dialed a l closed_first now = after_disconnect f a user_closed now
  on_dialed a l (ends r reason) now = after_disconnect f (reached a (l.leg == 1) r) reason now
  on_dialed a l (activates desktop) now =
      let a' = reached a (l.leg == 1) at_auth in
      (activated (shown a' (on_activated l desktop a'.scale)) desktop now, live l)

  -- `Actor::on_output_size`.
  unfoldable pub on_output_size : Actor f → DesktopSize → Actor f
  on_output_size a desktop =
      if is_connected a.io.state then with_state f a (connected desktop a.scale) else a

  abbrev rescaled : Actor f → Option MonitorLayout → Actor f
  rescaled a none = a
  rescaled a (some l) = record a { scale = l.desktop_scale_factor }

  abbrev typed : Actor f → Option (List ℕ) → Instant → Actor f × Option (List InputEvent)
  typed a none now = (a, none)
  typed a (some password) now =
      let (t, es) = Greeter.poll a.typist now password in (record a { typist = t }, es)

  -- `Actor::on_tick`: the resize driver, then the greeter typist; with the events it types.
  unfoldable pub on_tick : Actor f → Instant → Actor f × Option (List InputEvent)
  on_tick a now =
      let (d, layout) = Resize.poll f a.resize now in
      typed (rescaled (record a { resize = d }) layout) a.setup.linux_password now

  -- `Actor::on_command` on a live leg.
  unfoldable pub on_command :
      Actor f → RedirectLoop → Option (SessionCommand f) → Instant → Actor f × Phase
  on_command a l none now = after_disconnect f a user_closed now
  on_command a l (some close) now = after_disconnect f a user_closed now
  on_command a l (some (input e)) now = (record a { typist = on_input a.typist e now }, live l)
  on_command a l (some (resize g)) now = (remember f a (resize g) now, live l)
  on_command a l (some (set_visible b)) now = (remember f a (set_visible b) now, live l)
  on_command a l (some (focus b)) now = (remember f a (focus b) now, live l)
  on_command a l (some (network_reachable b)) now =
      (record a { policy = set_network_reachable a.policy b }, live l)
  on_command a l (some _) now = (a, live l)

  module _ (decode : CertificateDecoder) where
    abbrev redirect_result :
        Actor f → Instant → RedirectLoop → Result DisconnectReason NextLeg → Actor f × Phase
    redirect_result a now l (ok n) = (dial f a n.leg, dialing l)
    redirect_result a now l (err reason) = after_disconnect f a reason now

    -- `connect_loop` from a redirection to the next leg.
    unfoldable pub follow :
        Actor f → RedirectLoop → ServerRedirectionPdu → Instant → Actor f × Phase
    follow a l pdu now = let (l', wiped, r) = on_redirect decode l pdu in redirect_result a now l' r

    unfoldable pub on_leg_event : Actor f → RedirectLoop → LegEvent → Instant → Actor f × Phase
    on_leg_event a l (output_resized desktop) now = (on_output_size a desktop, live l)
    on_leg_event a l (capabilities caps) now =
        (record a { resize = on_display_control_ready f a.resize caps now }, live l)
    on_leg_event a l (redirected pdu) now = follow a l pdu now
    on_leg_event a l (ended reason) now = after_disconnect f a reason now

  -- `collect_initial_state` and a command.
  unfoldable pub on_starting : Actor f → Option (SessionCommand f) → Instant → Actor f × Phase
  on_starting a none now = connect f a
  on_starting a (some close) now = connect f a
  on_starting a (some c) now = (remember f a c now, starting)

  -- The loop of `wait_backoff`: the clock, and a command.
  abbrev is_over : Option Instant → Instant → Bool
  is_over none now = false
  is_over (some deadline) now = leb deadline now

  unfoldable pub on_wait : Actor f → DisconnectReason → Option Instant → Instant → Actor f × Phase
  on_wait a reason deadline now =
      if is_over deadline now && a.policy.network_reachable
      then connect f a
      else (a, waiting reason deadline)

  unfoldable pub on_waiting :
      Actor f
      → DisconnectReason
      → Option Instant
      → Option (SessionCommand f)
      → Instant
      → Actor f × Phase
  on_waiting a reason deadline none now = (with_state f a (disconnected user_closed), exited)
  on_waiting a reason deadline (some close) now =
      (with_state f a (disconnected user_closed), exited)
  on_waiting a reason deadline (some cancel) now =
      stop f (record a { policy = reset a.policy }) (disconnected reason)
  on_waiting a reason deadline (some reconnect_now) now =
      if a.policy.network_reachable then connect f a else (a, waiting reason deadline)
  on_waiting a reason deadline (some (network_reachable b)) now =
      let a' : Actor f = record a { policy = set_network_reachable a.policy b } in
      if b then connect f a' else (a', waiting reason deadline)
  on_waiting a reason deadline (some c) now = (remember f a c now, waiting reason deadline)

  -- `Actor::idle`.
  unfoldable pub on_idle : Actor f → Option (SessionCommand f) → Instant → Actor f × Phase
  on_idle a none now = (a, exited)
  on_idle a (some close) now = (a, exited)
  on_idle a (some reconnect_now) now =
      connect f (record a { policy = set_network_reachable (reset a.policy) true })
  on_idle a (some (network_reachable b)) now =
      (record a { policy = set_network_reachable a.policy b }, idling)
  on_idle a (some c) now = (remember f a c now, idling)

  -- One event in a phase; an event that the phase does not wait for changes nothing.
  unfoldable pub step : CertificateDecoder → Actor f × Phase → Event f → Instant → Actor f × Phase
  step decode (a, starting) (receives c) now = on_starting a c now
  step decode (a, starting) ticks now = connect f a
  step decode (a, dialing l) (dials d) now = on_dialed a l d now
  step decode (a, live l) (leg_event e) now = on_leg_event decode a l e now
  step decode (a, live l) (receives c) now = on_command a l c now
  step decode (a, live l) ticks now = ((on_tick a now).0, live l)
  step decode (a, waiting r d) ticks now = on_wait a r d now
  step decode (a, waiting r d) (receives c) now = on_waiting a r d c now
  step decode (a, idling) (receives c) now = on_idle a c now
  step decode m e now = m

  -- The actor after events at their instants.
  unfoldable pub run :
      CertificateDecoder → Actor f × Phase → List (Event f × Instant) → Actor f × Phase
  run decode m [] = m
  run decode m ((e, now) ∷ es) = run decode (step decode m e now) es
