-- ===== src/Rdp/Actor/Examples.antt =====
-- Witnesses and tests of the session actor.
use drift.Base.{◌≡◌, refl, true, false, is_some, some, none, List, [], ◌∷◌, ok}
use drift.Core.Floats.Samples.{halves}
use drift.Core.Geometry.{DesktopSize}
use drift.Core.Events.{mouse_button, left}
use drift.Core.Profile.{remote_login}
use drift.Core.Reconnect.{default_config, Instant}
use drift.Core.State.{awaiting_greeter_login, network, transition}
use drift.Core.State.Same.{same_state}
use drift.Core.Reconnect
use drift.Core.Reconnect.{on_connected}
use drift.Rdp.Redirect
use drift.Rdp.Resize
use drift.Rdp.Resize.{on_leg_activated}
use drift.Rdp.Greeter
use drift.Rdp.Greeter.{on_input}
use drift.Rdp.Redirect.{
  on_redirect, next_leg, from_redirection, on_activated, ServerRedirectionPdu, RedirectLoop,
  CertificateDecoder,
}
use drift.Rdp.Actor.Sound.{Sound}
use drift.Rdp.Actor.History.{IsRecorded, run-IsRecorded}
use drift.Rdp.Actor.Rejections.{run_keeps_phase}
use drift.Rdp.Actor.Greeting.{types_at_greeter}
use drift.Rdp.Actor.Gate.{at_tls, set_state, stages}
use drift.Rdp.Actor.{
  Setup, Actor, live, starting, spawned, Event, dials, leg_event, receives, ticks, activates, ends,
  closed_first, redirected, input, reconnect_now, connect, on_dialed, activated, on_leg_event,
  follow, on_command, step, run, on_tick,
}

abbrev pdu : ServerRedirectionPdu
pdu = record {
  target_net_address = none;
  load_balance_info = none;
  username = some (103 ∷ []);
  domain = none;
  password = some (1 ∷ []);
  redirection_guid = some (9 ∷ []);
  container = none;
}

abbrev decode : CertificateDecoder
decode container = ok none

abbrev setup : Setup
setup = record {
  mode = remote_login;
  host = 104 ∷ [];
  port = 3389;
  display = record { adaptive = true; retina = true };
  linux_password = some (70 ∷ []);
  reconnect = default_config;
  seed = 7;
}

abbrev desktop : DesktopSize
desktop = record { width = 1024; height = 768 }

-- Leg 1, a redirection to the greeter, and a click there.
abbrev to_greeter : List (Event halves × Instant)
to_greeter =
    (ticks, 0)
    ∷ (dials (activates desktop), 10)
    ∷ (leg_event (redirected pdu), 20)
    ∷ (dials (activates desktop), 30)
    ∷ (receives (some (input (mouse_button left false 5 5))), 40)
    ∷ []

-- The connection fails, and the user tries again and closes at once.
abbrev close_late : List (Event halves × Instant)
close_late =
    (ticks, 0)
    ∷ (dials (ends at_tls network), 10)
    ∷ (receives (some reconnect_now), 20)
    ∷ (dials closed_first, 30)
    ∷ []

run_keeps_phase_example :
    Sound
      (run halves decode (spawned halves setup, starting) close_late).0.io
      (run halves decode (spawned halves setup, starting) close_late).1
run_keeps_phase_example = run_keeps_phase halves decode setup close_late

run-IsRecorded_example :
    IsRecorded (run halves decode (spawned halves setup, starting) to_greeter).0.io
run-IsRecorded_example = run-IsRecorded halves decode setup to_greeter

abbrev greeter_actor : Actor halves
greeter_actor = (run halves decode (spawned halves setup, starting) to_greeter).0

abbrev greeter_loop : RedirectLoop
greeter_loop = record { mode = remote_login; host = 104 ∷ []; port = 3389; leg = 2 }

reaches_greeter :
    run halves decode (spawned halves setup, starting) to_greeter
    ≡ (greeter_actor, live greeter_loop)
unfolding run step spawned connect Redirect.new on_dialed activated on_leg_event follow on_command
    on_redirect next_leg from_redirection on_activated set_state stages transition same_state
    on_input on_leg_activated Reconnect.new on_connected
reaches_greeter = refl

types : is_some (on_tick halves greeter_actor 1500000040).1 ≡ true
unfolding run step spawned connect Redirect.new on_dialed activated on_leg_event follow on_command
    on_redirect next_leg from_redirection on_activated set_state stages transition same_state
    on_input on_leg_activated Reconnect.new on_connected on_tick Greeter.poll Resize.poll
types = refl

types_at_greeter_example :
    (greeter_actor.io.state ≡ awaiting_greeter_login)
    × (is_some greeter_actor.setup.linux_password ≡ true)
types_at_greeter_example =
    types_at_greeter halves decode setup to_greeter greeter_actor greeter_loop 1500000040
      reaches_greeter types
