-- ===== src/Core/State/Same.antt =====
-- The derived `PartialEq` of the session states and the disconnect reasons.
use text.Mathlib.Text
use text.Mathlib.TextEquality.{eq_iff}
use drift.Base.{◌≡◌, ap, Bool, true, false, ◌&&◌, arith, ◌==◌}
use drift.Core.State.{
  ConnectStage, tcp, tls, nla, rdstls, activation, DisconnectReason, network, tls_eof,
  server_shutdown, timeout, auth_failed, rdstls_failed, cert_mismatch, protocol_error,
  redirect_loop, user_closed, logged_off_remotely, local_network_denied, SessionState, idle,
  connecting, awaiting_greeter_login, connected, reconnecting, disconnected, failed,
}
use drift.Core.Geometry.{DesktopSize}

abbrev same_stage : ConnectStage → ConnectStage → Bool
same_stage tcp tcp = true
same_stage tls tls = true
same_stage nla nla = true
same_stage rdstls rdstls = true
same_stage activation activation = true
same_stage _ _ = false

unfoldable pub same_reason : DisconnectReason → DisconnectReason → Bool
same_reason network network = true
same_reason tls_eof tls_eof = true
same_reason server_shutdown server_shutdown = true
same_reason timeout timeout = true
same_reason auth_failed auth_failed = true
same_reason (rdstls_failed c) (rdstls_failed d) = c == d
same_reason cert_mismatch cert_mismatch = true
same_reason (protocol_error s) (protocol_error t) = Text.◌==◌ s t
same_reason redirect_loop redirect_loop = true
same_reason user_closed user_closed = true
same_reason logged_off_remotely logged_off_remotely = true
same_reason local_network_denied local_network_denied = true
same_reason _ _ = false

abbrev same_size : DesktopSize → DesktopSize → Bool
same_size a b = a.width == b.width && a.height == b.height

unfoldable pub same_state : SessionState → SessionState → Bool
unfolding same_reason
same_state idle idle = true
same_state (connecting l s) (connecting m t) = l == m && same_stage s t
same_state awaiting_greeter_login awaiting_greeter_login = true
same_state (connected d s) (connected e t) = same_size d e && s == t
same_state (reconnecting a n r) (reconnecting b m q) = a == b && n == m && same_reason r q
same_state (disconnected r) (disconnected q) = same_reason r q
same_state (failed r) (failed q) = same_reason r q
same_state _ _ = false

stage_eq : (s t : ConnectStage) → same_stage s t ≡ true → s ≡ t
stage_eq s t h = ground arith

reason_eq : (r q : DisconnectReason) → same_reason r q ≡ true → r ≡ q
unfolding same_reason
reason_eq (protocol_error s) (protocol_error t) h = ap protocol_error ((eq_iff s t).0 h)
reason_eq r q h = ground arith

pub same_state-eq : (s t : SessionState) → same_state s t ≡ true → s ≡ t
unfolding same_state
same_state-eq (connecting l s) (connecting m t) h = ground (arith, stage_eq s t)
same_state-eq (reconnecting a n r) (reconnecting b m q) h = ground (arith, reason_eq r q)
same_state-eq (disconnected r) (disconnected q) h = ap disconnected (reason_eq r q h)
same_state-eq (failed r) (failed q) h = ap failed (reason_eq r q h)
same_state-eq s t h = ground arith
