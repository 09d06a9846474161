-- ===== src/Rdp/Actor/State.antt =====
-- crates/drift-rdp/src/actor.rs and the commands of session.rs: the state of the session actor, the
-- phases in which it waits and what it then receives. The contents of a local clipboard and the
-- fingerprints of certificates are left out of the commands.
use drift.Base.{ℕ, ◌-◌, Bool, true, false, Option, none, some, List, []}
use drift.Core.Geometry.{DesktopSize}
use drift.Core.Profile.{ConnectMode, DisplayPrefs}
use drift.Core.Floats.{Floats, ViewGeometry}
use drift.Core.Events.{InputEvent}
use drift.Core.Layout.{DisplayControlCaps}
use drift.Core.State.{SessionState, idle, DisconnectReason, user_closed}
use drift.Core.Reconnect.{
  Instant, Duration, duration_limit, ReconnectPolicy, ReconnectConfig, ReconnectDecision, retry,
  wait_for_network, give_up, on_connected, on_disconnect, set_network_reachable, reset,
}
use drift.Core.Reconnect
use drift.Gfx.Pdu.{Bytes}
use drift.Rdp.Redirect.{ServerRedirectionPdu, RedirectLoop}
use drift.Rdp.Resize.{
  ResizeDriver, desired, on_geometry, on_leg_activated, on_display_control_ready,
}
use drift.Rdp.Resize
use drift.Rdp.Greeter.{GreeterTypist, on_greeter, disarm, on_input}
use drift.Rdp.Greeter
use drift.Rdp.Actor.Gate.{Io, set_state, Reach}

-- The fields of `ConnectionProfile` and `SessionSecrets` that the machine reads.
pub record Setup : Type 0 where
  pub mode : ConnectMode
  pub host : Bytes
  pub port : ℕ
  pub display : DisplayPrefs
  pub linux_password : Option (List ℕ)
  pub reconnect : ReconnectConfig
  pub seed : ℕ

-- Where the actor waits: for the first state of the view, for a leg to connect, on a live leg, for
-- the backoff, for the user; and the actor that is gone.
pub data Phase : Type 0 where
  starting : Phase
  dialing live : RedirectLoop → Phase
  waiting : DisconnectReason → Option Instant → Phase
  idling exited : Phase

abbrev pub is_user_closed : DisconnectReason → Bool
is_user_closed user_closed = true
is_user_closed _ = false

-- `Duration::MAX`.
abbrev pub duration_max : Duration
duration_max = duration_limit - 1

-- What the machine receives: how connecting a leg ends, what happens on a live leg, a command of
-- the app (`none` once every handle is dropped), and a look at the clock.
pub data DialEnd : Type 0 where
  closed_first : DialEnd
  ends : Reach → DisconnectReason → DialEnd
  activates : DesktopSize → DialEnd

pub data LegEvent : Type 0 where
  output_resized : DesktopSize → LegEvent
  capabilities : DisplayControlCaps → LegEvent
  redirected : ServerRedirectionPdu → LegEvent
  ended : DisconnectReason → LegEvent

module _ (f : Floats) where
  pub data SessionCommand : Type 0 where
    input : InputEvent → SessionCommand
    resize : ViewGeometry f → SessionCommand
    set_visible focus : Bool → SessionCommand
    clipboard_local_changed : SessionCommand
    accept_certificate : Bool → SessionCommand
    reject_certificate reconnect_now : SessionCommand
    network_reachable : Bool → SessionCommand
    cancel close : SessionCommand

  pub record View : Type 0 where
    pub visible : Bool
    pub focused : Bool
    pub geometry : Option (ViewGeometry f)

  pub record Actor : Type 0 where
    pub setup : Setup
    pub io : Io
    pub view : View
    pub resize : ResizeDriver f
    pub typist : GreeterTypist
    pub policy : ReconnectPolicy
    pub activations : ℕ
    pub scale : ℕ

  -- The actor that `spawn` builds.
  unfoldable pub spawned : Setup → Actor
  spawned s = record {
    setup = s;
    io = record { state = idle; leg = 1; emitted = []; rejected = [] };
    view = record { visible = true; focused = false; geometry = none };
    resize = Resize.new f s.mode s.display;
    typist = Greeter.new;
    policy = Reconnect.new s.reconnect s.seed;
    activations = 0;
    scale = 100;
  }

  abbrev pub with_state : Actor → SessionState → Actor
  with_state a s = record a { io = set_state a.io s }

  -- `Actor::remember`.
  unfoldable pub remember : Actor → SessionCommand → Instant → Actor
  remember a (resize g) now = record a {
    view = record a.view { geometry = some g };
    resize = on_geometry f a.resize g now;
  }
  remember a (set_visible b) now = record a { view = record a.view { visible = b } }
  remember a (focus b) now = record a { view = record a.view { focused = b } }
  remember a _ now = a

  pub data Event : Type 0 where
    dials : DialEnd → Event
    leg_event : LegEvent → Event
    receives : Option SessionCommand → Event
    ticks : Event
