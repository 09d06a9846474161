-- ===== src/Core/Reconnect/Examples.antt =====
-- Witnesses of the reconnect policy.
use drift.Base.{◌*◌, ◌^◌, min, ◌≤◌, ◌<◌, ◌≡◌, refl, true, false, List, [], ◌∷◌, none, some, arith}
use drift.Core.State.{network, timeout, auth_failed, is_retryable}
use drift.Core.Reconnect.{
  from_millis, new, ReconnectConfig, ReconnectPolicy, default_config, ceiling, on_disconnect, retry,
  next_decision, jittered, below_or_eq, next_u64, mix,
}
use drift.Core.Reconnect.Backoff.{ceiling_stalls}
use drift.Core.Reconnect.Budget.{
  connects, tally, nothing_counted, run, Call, drops, reaches, retries_now, retries, IsWithin,
  retries-le-budget, retries-drops, drop_calls,
}

-- A base of one nanosecond.
abbrev tiny_base : ReconnectConfig
tiny_base = record default_config { base = 1 }

ceiling_stalls_example :
    (ceiling tiny_base 41 ≡ 1 * min (2 ^ 40) 4294967295)
    × (ceiling tiny_base 41 < 30000000000)
    × (ceiling tiny_base 73 < min 30000000000 (1 * 2 ^ 72))
ceiling_stalls_example = ceiling_stalls tiny_base 40 (omega arith) (omega arith) (omega arith)

abbrev fresh : ReconnectPolicy
fresh = record {
  config = default_config;
  rng = record { state = 7 };
  attempts = 0;
  connected_since = none;
  network_reachable = true;
}

first_delay : (on_disconnect fresh timeout 5).1 ≡ retry 1 195000000
unfolding on_disconnect next_decision jittered below_or_eq next_u64 mix ceiling is_retryable
first_delay = refl

-- The connection at 20 s lasts 70 s.
abbrev history : List Call
history =
    drops timeout 5
    ∷ reaches false
    ∷ drops network 6
    ∷ reaches true
    ∷ retries_now
    ∷ connects 20000000000
    ∷ drops timeout 90000000000
    ∷ drops auth_failed 90000000001
    ∷ []

retries-le-budget_example :
    ((tally (from_millis 60000) (new default_config 7) nothing_counted history).count
      ≡ (run (new default_config 7) history).attempts)
    × ((tally (from_millis 60000) (new default_config 7) nothing_counted history).count ≤ 20)
retries-le-budget_example = retries-le-budget default_config 7 20 history (omega arith) refl

abbrev nearly_spent : ReconnectPolicy
nearly_spent = record fresh { attempts = 19; connected_since = some 0 }

nearly_spent-IsWithin : IsWithin 20 nearly_spent
nearly_spent-IsWithin = record { budget = refl; counted = omega arith }

-- After a minute all of the budget is left.
retries-drops_example :
    retries nearly_spent (drop_calls ((timeout, 60000000000) ∷ (network, 60000000006) ∷ [])) ≡ 2
unfolding is_retryable
retries-drops_example =
    retries-drops 20 nearly_spent timeout 60000000000 ((network, 60000000006) ∷ []) (omega arith)
      nearly_spent-IsWithin refl (refl, (refl, tt))
