-- ===== src/Core/Reconnect.antt =====
-- crates/drift-core/src/reconnect.rs: the reconnect backoff policy. Instants and Durations are
-- nanoseconds; a Duration is below 2^64 seconds. `attempts` is a u32, the random state a u64.
pub mod Backoff
pub mod Budget
mod Examples
use drift.Base.{
  ℕ, ◌+◌, ◌-◌, ◌*◌, ◌/◌, ◌%◌, ◌^◌, min, bit_xor, Bool, true, false, not, Option, none, some, leb,
  ltb, ◌==◌, if◌then◌else◌,
}
use drift.Core.State.{DisconnectReason, is_retryable}
use drift.Core.Geometry.{u32_max, saturating_add}

abbrev pub Duration : Type 0
Duration = ℕ

abbrev pub Instant : Type 0
Instant = ℕ

abbrev pub nanos_per_milli : ℕ
nanos_per_milli = 1000000

-- One more than `Duration::MAX`, in nanoseconds.
abbrev pub duration_limit : ℕ
duration_limit = 18446744073709551616000000000

abbrev pub u64_max : ℕ
u64_max = 18446744073709551615

abbrev pub u64_mod : ℕ
u64_mod = 18446744073709551616

-- `Duration::as_millis`, `Duration::from_millis`.
abbrev pub as_millis : Duration → ℕ
as_millis d = d / nanos_per_milli

abbrev pub from_millis : ℕ → Duration
from_millis ms = ms * nanos_per_milli

pub record ReconnectConfig : Type 0 where
  pub base : Duration
  pub cap : Duration
  pub max_attempts : Option ℕ
  pub stable_after : Duration

-- `ReconnectConfig::default`.
abbrev pub default_config : ReconnectConfig
default_config = record {
  base = from_millis 500;
  cap = from_millis 30000;
  max_attempts = some 20;
  stable_after = from_millis 60000;
}

pub data GiveUpReason : Type 0 where
  not_retryable attempts_exhausted : GiveUpReason

pub data ReconnectDecision : Type 0 where
  retry : ℕ → Duration → ReconnectDecision
  wait_for_network : ℕ → ReconnectDecision
  give_up : GiveUpReason → ReconnectDecision

-- `SplitMix64`: the state of the generator.
pub record SplitMix64 : Type 0 where
  pub state : ℕ

-- `a ^ b` on u64.
abbrev xor_u64 : ℕ → ℕ → ℕ
xor_u64 a b = bit_xor a b % u64_mod

-- `z.wrapping_mul(k)` on u64.
abbrev wrapping_mul : ℕ → ℕ → ℕ
wrapping_mul a b = a * b % u64_mod

-- The three lines of `next_u64` that scramble the state.
pub mix : ℕ → ℕ
mix s =
    let z = wrapping_mul (xor_u64 s (s / 2 ^ 30)) 0xBF58476D1CE4E5B9 in
    let z' = wrapping_mul (xor_u64 z (z / 2 ^ 27)) 0x94D049BB133111EB in xor_u64 z' (z' / 2 ^ 31)

-- `SplitMix64::next_u64`.
unfoldable pub next_u64 : SplitMix64 → ℕ × SplitMix64
next_u64 g = let s = (g.state + 0x9E3779B97F4A7C15) % u64_mod in (mix s, record { state = s })

-- `SplitMix64::below_or_eq`; the u128 product does not wrap, and the shifted value fits in u64.
unfoldable pub below_or_eq : SplitMix64 → ℕ → ℕ × SplitMix64
below_or_eq g limit = let (z, g') = next_u64 g in (z * (limit + 1) / u64_mod % u64_mod, g')

pub record ReconnectPolicy : Type 0 where
  pub config : ReconnectConfig
  pub rng : SplitMix64
  pub attempts : ℕ
  pub connected_since : Option Instant
  pub network_reachable : Bool

-- `ReconnectPolicy::new`.
unfoldable pub new : ReconnectConfig → ℕ → ReconnectPolicy
new config seed = record {
  config = config;
  rng = record { state = seed };
  attempts = 0;
  connected_since = none;
  network_reachable = true;
}

-- `1u32.checked_shl(exp).unwrap_or(u32::MAX)`.
abbrev shl_or_max : ℕ → ℕ
shl_or_max exp = if ltb exp 32 then 2 ^ exp else u32_max

-- `base.checked_mul(factor).map_or(cap, |d| d.min(cap))`.
abbrev pub mul_capped : Duration → Duration → ℕ → Duration
mul_capped base cap factor =
    if ltb (base * factor) duration_limit then min (base * factor) cap else cap

-- `ReconnectPolicy::ceiling`.
unfoldable pub ceiling : ReconnectConfig → ℕ → Duration
ceiling c attempt = mul_capped c.base c.cap (shl_or_max (min (attempt - 1) 63))

-- `ReconnectPolicy::on_connected`.
unfoldable pub on_connected : ReconnectPolicy → Instant → ReconnectPolicy
on_connected p now = record p { connected_since = some now }

-- `self.config.max_attempts.is_some_and(|max| self.attempts >= max)`.
abbrev pub is_spent : Option ℕ → ℕ → Bool
is_spent none attempts = false
is_spent (some limit) attempts = leb limit attempts

-- The jittered delay of the attempt in `p`, with the generator after the draw.
unfoldable pub jittered : ReconnectPolicy → Duration × SplitMix64
jittered p =
    let (ms, rng) = below_or_eq p.rng (min (as_millis (ceiling p.config p.attempts)) u64_max) in
    (from_millis ms, rng)

-- The tail of `next_decision`: count the attempt, then choose the delay.
unfoldable pub count_attempt : ReconnectPolicy → Bool → ReconnectPolicy × ReconnectDecision
count_attempt p jitter =
    let counted = record p { attempts = saturating_add p.attempts 1 } in
    let (delay, rng) = jittered counted in
    if jitter
    then (record counted { rng = rng }, retry counted.attempts delay)
    else (counted, retry counted.attempts 0)

-- `ReconnectPolicy::next_decision`.
unfoldable pub next_decision : ReconnectPolicy → Bool → ReconnectPolicy × ReconnectDecision
unfolding count_attempt
next_decision p jitter =
    if not p.network_reachable
    then (p, wait_for_network (saturating_add p.attempts 1))
    else if is_spent p.config.max_attempts p.attempts
    then (p, give_up attempts_exhausted)
    else count_attempt p jitter

-- `connected_since.take()`, and the attempts forgotten after a stable connection.
abbrev pub after_connection : ReconnectPolicy → Option Instant → Instant → ReconnectPolicy
after_connection p none now = p
after_connection p (some since) now =
    if leb p.config.stable_after (now - since)
    then record p { connected_since = none; attempts = 0 }
    else record p { connected_since = none }

-- `ReconnectPolicy::on_disconnect`.
unfoldable pub on_disconnect :
    ReconnectPolicy → DisconnectReason → Instant → ReconnectPolicy × ReconnectDecision
on_disconnect p reason now =
    let q = after_connection p p.connected_since now in
    if not (is_retryable reason) then (q, give_up not_retryable) else next_decision q true

-- `ReconnectPolicy::set_network_reachable`.
unfoldable pub set_network_reachable : ReconnectPolicy → Bool → ReconnectPolicy
set_network_reachable p reachable = record p { network_reachable = reachable }

-- `ReconnectPolicy::retry_now`.
unfoldable pub retry_now : ReconnectPolicy → ReconnectPolicy × ReconnectDecision
retry_now p = next_decision p false

-- `ReconnectPolicy::reset`.
unfoldable pub reset : ReconnectPolicy → ReconnectPolicy
reset p = record p { attempts = 0; connected_since = none }
