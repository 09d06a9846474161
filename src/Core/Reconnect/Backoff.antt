-- ===== src/Core/Reconnect/Backoff.antt =====
-- The ceiling of the backoff and the bounds of the jittered delay.
use drift.Base.{
  ap, ◌∙◌, ℕ, suc, ◌+◌, ◌-◌, ◌*◌, ◌/◌, ◌%◌, ◌^◌, ◌≤◌, ◌<◌, min, ◌≡◌, true, arith, Option, lt→ltb,
  dec_lt,
}
use native.Mathlib.Nat.{pow-le-pow_right}
use drift.Core.State.{DisconnectReason, is_retryable}
use drift.Core.Geometry.{u32_max, saturating_add}
use drift.Core.Reconnect.{
  ReconnectConfig, ReconnectPolicy, retry, SplitMix64, Duration, Instant, ceiling, jittered,
  mul_capped, shl_or_max, below_or_eq, next_u64, mix, duration_limit, after_connection, u64_mod,
  u64_max, as_millis, next_decision, on_disconnect,
}

mix-lt : (s : ℕ) → mix s < u64_mod
unfolding mix
mix-lt s = omega arith

scaled-le : (z limit : ℕ) → z < u64_mod → z * (limit + 1) / u64_mod ≤ limit
scaled-le z limit h = grind arith

-- The draw never passes its limit, and stays in u64.
below_or_eq-le : (g : SplitMix64) (limit : ℕ) → (below_or_eq g limit).0 ≤ limit
unfolding below_or_eq next_u64
below_or_eq-le g limit =
    omega (arith, scaled-le (mix ((g.state + 0x9E3779B97F4A7C15) % u64_mod)) limit (mix-lt _))

mul_le : (a b c : ℕ) → b ≤ c → a * b ≤ a * c
mul_le a b c h = grind arith

mul_lt : (a b c : ℕ) → 0 < a → b < c → a * b < a * c
mul_lt a b c h k = grind arith

pub jittered-le : (p : ReconnectPolicy) → (jittered p).0 ≤ ceiling p.config p.attempts
unfolding jittered
jittered-le p =
    omega (arith, below_or_eq-le p.rng (min (as_millis (ceiling p.config p.attempts)) u64_max))

pub ceiling-le-cap : (c : ReconnectConfig) (attempt : ℕ) → ceiling c attempt ≤ c.cap
unfolding ceiling
ceiling-le-cap c attempt = ground arith

mul_capped-eq : (base cap f : ℕ) → cap < duration_limit → mul_capped base cap f ≡ min cap (base * f)
mul_capped-eq base cap f h = ground arith

shl_small : (n : ℕ) → n < 32 → shl_or_max (min (suc n - 1) 63) ≡ 2 ^ n
shl_small n h = let e : min (suc n - 1) 63 ≡ n = omega arith in rw e (rw (lt→ltb n 32 h))

shl_large : (n : ℕ) → 32 ≤ n → shl_or_max (min (suc n - 1) 63) ≡ u32_max
shl_large n h = ground arith

pow_large : (n : ℕ) → 32 ≤ n → 4294967296 ≤ 2 ^ n
pow_large n h = pow-le-pow_right {n = 2} (omega arith) h

-- The documented ceiling, `min(cap, base × 2^(attempt-1))`, is what the code computes for every
-- attempt, where the base is large enough for the factor `u32::MAX` to pass the cap.
ceiling-eq-min :
    (c : ReconnectConfig) (n : ℕ)
    → c.cap < duration_limit
    → c.cap ≤ c.base * u32_max
    → ceiling c (suc n) ≡ min c.cap (c.base * 2 ^ n)
unfolding ceiling
ceiling-eq-min c n h k = elim (dec_lt n 32) [
  | yes p ↦ rw (shl_small n p) (mul_capped-eq c.base c.cap (2 ^ n) h)
  | no p ↦ rw (shl_large n (omega arith)) (
      omega (
        arith,
        mul_capped-eq c.base c.cap u32_max h,
        mul_le (c.base) u32_max (2 ^ n) (omega (arith, pow_large n (omega arith))),
      ))
]

mul_capped-small :
    (base cap f : ℕ) → cap < duration_limit → base * f < cap → mul_capped base cap f ≡ base * f
mul_capped-small base cap f l h = omega (arith, mul_capped-eq base cap f l)

pow_small : (n : ℕ) → n < 32 → 2 ^ n ≤ u32_max
pow_small n h =
    omega (arith, pow-le-pow_right {n = 2} (omega arith) (let k : n ≤ 31 = omega arith in k))

-- A base that is not zero and that `u32::MAX` does not lift to the cap, itself a Duration, is never
-- capped: for every attempt the ceiling is
-- base × min(2^(attempt-1), u32::MAX), below the cap, so that it grows no more from attempt 33 on; from
-- there on it is below the documented ceiling, min(cap, base × 2^(attempt-1)).
pub ceiling_stalls :
    (c : ReconnectConfig) (n : ℕ)
    → c.base * u32_max < c.cap
    → c.cap < duration_limit
    → 0 < c.base
    → (ceiling c (suc n) ≡ c.base * min (2 ^ n) u32_max)
      × (ceiling c (suc n) < c.cap)
      × (ceiling c (suc (n + 32)) < min c.cap (c.base * 2 ^ (n + 32)))
unfolding ceiling
ceiling_stalls c n k l b = (exact, omega (arith, exact, lifted, k), beyond)
  where
    lifted : c.base * min (2 ^ n) u32_max ≤ c.base * u32_max
    lifted = mul_le c.base (min (2 ^ n) u32_max) u32_max (omega arith)

    factor : shl_or_max (min (suc n - 1) 63) ≡ min (2 ^ n) u32_max
    factor = elim (dec_lt n 32) [
      | yes p ↦ omega (arith, shl_small n p, pow_small n p)
      | no p ↦ omega (arith, shl_large n (omega arith), pow_large n (omega arith))
    ]

    exact : ceiling c (suc n) ≡ c.base * min (2 ^ n) u32_max
    exact =
        ap (λ f. mul_capped c.base c.cap f) factor
        ∙ mul_capped-small c.base c.cap (min (2 ^ n) u32_max) l (omega (arith, lifted, k))

    beyond : ceiling c (suc (n + 32)) < min c.cap (c.base * 2 ^ (n + 32))
    beyond =
        rw (shl_large (n + 32) (omega arith), mul_capped-small c.base c.cap u32_max l k)
          (omega (
            arith,
            k,
            mul_lt c.base u32_max (2 ^ (n + 32)) b
                (omega (arith, pow_large (n + 32) (omega arith))),
          ))

after_connection_keeps :
    (p : ReconnectPolicy) (since : Option Instant) (now : Instant)
    → let q = after_connection p since now in
      (q.config ≡ p.config) × (q.network_reachable ≡ p.network_reachable)
after_connection_keeps p since now = ground arith

next_decision_delay :
    (p : ReconnectPolicy) (a : ℕ) (d : Duration)
    → (next_decision p true).1 ≡ retry a d
    → (d ≤ ceiling p.config a)
      × (d ≤ p.config.cap)
      × (a ≡ (next_decision p true).0.attempts)
      × (p.network_reachable ≡ true)
unfolding next_decision
next_decision_delay p a d h =
    let counted = record p { attempts = saturating_add p.attempts 1 } in
    ground (arith, jittered-le counted, ceiling-le-cap p.config counted.attempts)

-- A retry decided after a disconnect waits at most the ceiling of its attempt, and so at most the cap; it carries
-- the number of the attempt just counted, and is made only for a retryable reason on a reachable network.
on_disconnect_delay :
    (p : ReconnectPolicy) (r : DisconnectReason) (now : Instant) (a : ℕ) (d : Duration)
    → (on_disconnect p r now).1 ≡ retry a d
    → (d ≤ ceiling p.config a)
      × (d ≤ p.config.cap)
      × (a ≡ (on_disconnect p r now).0.attempts)
      × (is_retryable r ≡ true)
      × (p.network_reachable ≡ true)
unfolding on_disconnect
on_disconnect_delay p r now a d h = ground (
  arith,
  after_connection_keeps p p.connected_since now,
  next_decision_delay (after_connection p p.connected_since now) a d,
)
