-- ===== src/Rdp/Actor/Gate.antt =====
-- crates/drift-rdp/src/actor.rs: `Io`, the gate of the session states. `emitted` lists the
-- `SessionEvent::State` events and `rejected` the transitions that are only logged, newest first.
use drift.Base.{ℕ, Bool, true, false, List, ◌∷◌, if◌then◌else◌, Result, ok, err}
use drift.Core.State.{
  ConnectStage, tcp, tls, nla, rdstls, DisconnectReason, is_retryable, SessionState, connecting,
  connected, disconnected, failed, InvalidTransition, transition,
}
use drift.Core.State.Same.{same_state}

pub record Io : Type 0 where
  pub state : SessionState
  pub leg : ℕ
  pub emitted : List SessionState
  pub rejected : List InvalidTransition

abbrev pub settle : Io → Result InvalidTransition SessionState → Io
settle io (ok next) = record io { state = next; emitted = next ∷ io.emitted }
settle io (err e) = record io { rejected = e ∷ io.rejected }

-- `Io::set_state`.
unfoldable pub set_state : Io → SessionState → Io
set_state io next = if same_state io.state next then io else settle io (transition io.state next)

-- `ConnectObserver::stage`.
abbrev pub stage : Io → ConnectStage → Io
stage io s = set_state io (connecting io.leg s)

-- `terminal_state`.
unfoldable pub terminal_state : DisconnectReason → SessionState
terminal_state reason = if is_retryable reason then disconnected reason else failed reason

-- How far `connect_leg` gets before it returns an error.
pub data Reach : Type 0 where
  at_tcp at_tls at_auth : Reach

-- `LegAuth::Nla` on leg 1, `LegAuth::Rdstls` after a redirection.
abbrev pub auth_stage : Bool → ConnectStage
auth_stage true = nla
auth_stage false = rdstls

-- The `observer.stage` calls of `connect_leg`.
unfoldable pub stages : Io → Bool → Reach → Io
stages io first at_tcp = stage io tcp
stages io first at_tls = stage (stage io tcp) tls
stages io first at_auth = stage (stage (stage io tcp) tls) (auth_stage first)

abbrev pub is_connected : SessionState → Bool
is_connected (connected d s) = true
is_connected _ = false
