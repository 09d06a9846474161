-- ===== src/Rdp/Actor/Ends.antt =====
-- crates/drift-rdp/src/actor.rs: how a connection attempt begins and what follows its end. The reads
-- of the clock in one handler give one instant.
use drift.Base.{ℕ, ◌+◌, Option, none, some, ◌==◌, if◌then◌else◌}
use drift.Core.Floats.{Floats}
use drift.Core.Layout.{MonitorLayout}
use drift.Core.State.{SessionState, reconnecting, disconnected, DisconnectReason}
use drift.Core.Reconnect.{
  Instant, Duration, ReconnectDecision, retry, wait_for_network, give_up, on_disconnect,
}
use drift.Rdp.Redirect.{
  ServerRedirectionPdu, NextLeg, RedirectLoop, on_activated, on_redirect, CertificateDecoder,
}
use drift.Rdp.Redirect
use drift.Rdp.Resize.{desired}
use drift.Rdp.Actor.Gate.{terminal_state}
use drift.Rdp.Actor.State.{
  Phase, dialing, waiting, idling, exited, is_user_closed, duration_max, Actor, with_state,
}

module _ (f : Floats) where
  abbrev scale_of : Option MonitorLayout → ℕ
  scale_of none = 100
  scale_of (some l) = l.desktop_scale_factor

  -- The top of the loop in `connect_loop`, for a leg that asks for the current layout.
  abbrev pub dial : Actor f → ℕ → Actor f
  dial a leg = record a { io = record a.io { leg = leg }; scale = scale_of (desired f a.resize) }

  -- `connect_loop` up to the first leg (`first_leg`).
  unfoldable pub connect : Actor f → Actor f × Phase
  connect a = (dial a 1, dialing (Redirect.new a.setup.mode a.setup.host a.setup.port))

  -- `Resume::Stop`, as `run` handles it.
  abbrev pub stop : Actor f → SessionState → Actor f × Phase
  stop a s = (with_state f a s, idling)

  -- `wait_backoff` up to its loop.
  abbrev pub wait_backoff : Actor f → ℕ → Duration → DisconnectReason → Instant → Actor f × Phase
  wait_backoff a attempt delay reason now =
      let forever = delay == duration_max in
      (
        with_state f a (reconnecting attempt (if forever then 0 else delay) reason),
        waiting reason (if forever then none else some (now + delay)),
      )

  abbrev pub decided : Actor f → DisconnectReason → Instant → ReconnectDecision → Actor f × Phase
  decided a reason now (retry attempt delay) = wait_backoff a attempt delay reason now
  decided a reason now (wait_for_network attempt) = wait_backoff a attempt duration_max reason now
  decided a reason now (give_up why) = stop a (terminal_state reason)

  -- `Actor::after_disconnect`.
  unfoldable pub after_disconnect : Actor f → DisconnectReason → Instant → Actor f × Phase
  after_disconnect a reason now =
      if is_user_closed reason
      then (with_state f a (disconnected reason), exited)
      else if a.activations == 0
      then stop a (terminal_state reason)
      else (let (policy, decision) = on_disconnect a.policy reason now in
          decided (record a { policy = policy }) reason now decision)
