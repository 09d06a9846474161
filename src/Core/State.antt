-- ===== src/Core/State.antt =====
-- crates/drift-core/src/state.rs: session states, disconnect reasons and the transition gate.
-- Numbers are u8 (`leg`), u32 (`scale`, `attempt`, the RDSTLS code); `next_in` is a Duration in
-- nanoseconds.
pub mod Rules
pub mod Paths
pub mod Same
mod Examples
use Prim.Native.String.{String}
use drift.Base.{
  ℕ, ◌+◌, Bool, true, false, not, ◌&&◌, ◌||◌, leb, ◌==◌, if◌then◌else◌, Result, ok, err,
}
use drift.Core.Geometry.{DesktopSize}

abbrev pub max_redirects : ℕ
max_redirects = 4

abbrev pub max_leg : ℕ
max_leg = 1 + max_redirects

pub data ConnectStage : Type 0 where
  tcp tls nla rdstls activation : ConnectStage

pub data DisconnectReason : Type 0 where
  network tls_eof server_shutdown timeout auth_failed : DisconnectReason
  rdstls_failed : ℕ → DisconnectReason
  cert_mismatch : DisconnectReason
  protocol_error : String → DisconnectReason
  redirect_loop user_closed logged_off_remotely local_network_denied : DisconnectReason

-- `DisconnectReason::is_retryable`.
unfoldable pub is_retryable : DisconnectReason → Bool
is_retryable network = true
is_retryable tls_eof = true
is_retryable server_shutdown = true
is_retryable timeout = true
is_retryable auth_failed = false
is_retryable (rdstls_failed code) = false
is_retryable cert_mismatch = false
is_retryable (protocol_error detail) = false
is_retryable redirect_loop = false
is_retryable user_closed = false
is_retryable logged_off_remotely = false
is_retryable local_network_denied = false

pub data SessionState : Type 0 where
  idle : SessionState
  connecting : ℕ → ConnectStage → SessionState
  awaiting_greeter_login : SessionState
  connected : DesktopSize → ℕ → SessionState
  reconnecting : ℕ → ℕ → DisconnectReason → SessionState
  disconnected : DisconnectReason → SessionState
  failed : DisconnectReason → SessionState

pub record InvalidTransition : Type 0 where
  pub from : SessionState
  pub to : SessionState

-- The first `match` of `allows`: validity of the target, whatever the source.
abbrev pub valid_target : SessionState → Bool
unfolding is_retryable
valid_target (connecting leg stage) = leb 1 leg && leb leg max_leg
valid_target (reconnecting attempt next_in reason) = not (attempt == 0 || not (is_retryable reason))
valid_target _ = true

-- `Some(to) == from.checked_add(1)` in u8.
abbrev pub next_leg : ℕ → ℕ → Bool
next_leg from to = leb from 254 && (to == from + 1)

abbrev is_user_closed : DisconnectReason → Bool
is_user_closed user_closed = true
is_user_closed _ = false

-- The second `match` of `allows`, one clause for each pair of its arms.
abbrev pub valid_step : SessionState → SessionState → Bool
valid_step idle (connecting leg stage) = leg == 1
valid_step idle (disconnected reason) = is_user_closed reason
valid_step (disconnected r) (connecting leg stage) = leg == 1
valid_step (disconnected r) idle = true
valid_step (failed r) (connecting leg stage) = leg == 1
valid_step (failed r) idle = true
valid_step (connecting from stage) (connecting to stage') = to == from || next_leg from to
valid_step (connecting leg stage) awaiting_greeter_login = leb 2 leg
valid_step (connecting leg stage) (connected desktop scale) = true
valid_step (connecting leg stage) (reconnecting a n r) = true
valid_step (connecting leg stage) (disconnected r) = true
valid_step (connecting leg stage) (failed r) = true
valid_step awaiting_greeter_login (connecting leg stage) = leb 2 leg
valid_step awaiting_greeter_login (reconnecting a n r) = true
valid_step awaiting_greeter_login (disconnected r) = true
valid_step awaiting_greeter_login (failed r) = true
valid_step (connected d s) (connecting leg stage) = leb 2 leg
valid_step (connected d s) (connected desktop scale) = true
valid_step (connected d s) (reconnecting a n r) = true
valid_step (connected d s) (disconnected r) = true
valid_step (connected d s) (failed r) = true
valid_step (reconnecting from n r) (reconnecting to n' r') = leb from to
valid_step (reconnecting a n r) (connecting leg stage) = leg == 1
valid_step (reconnecting a n r) (disconnected r') = true
valid_step (reconnecting a n r) (failed r') = true
valid_step _ _ = false

-- `SessionState::allows`.
unfoldable pub allows : SessionState → SessionState → Bool
unfolding is_retryable
allows from to = if valid_target to then valid_step from to else false

-- `SessionState::transition`.
unfoldable pub transition : SessionState → SessionState → Result InvalidTransition SessionState
unfolding allows
transition from to = if allows from to then ok to else err (record { from = from; to = to })

-- `SessionState::is_active`.
unfoldable pub is_active : SessionState → Bool
is_active (connecting leg stage) = true
is_active awaiting_greeter_login = true
is_active (connected desktop scale) = true
is_active _ = false
