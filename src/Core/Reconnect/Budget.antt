-- ===== src/Core/Reconnect/Budget.antt =====
-- The attempt budget over any history of calls.
use drift.Base.{
  refl, leb, subst, ◌∙◌, sym, ap, Bool-cases, inl, inr, if◌then◌else◌, ℕ, ◌+◌, ◌-◌, ◌≤◌, min, ◌≡◌,
  Bool, true, arith, some, none, Option, List, [], ◌∷◌, length,
}
use drift.Core.State.{DisconnectReason, is_retryable}
use drift.Core.Geometry.{u32_max}
use drift.Core.Reconnect.{
  after_connection, Duration, new, ReconnectConfig, ReconnectPolicy, ReconnectDecision, retry,
  Instant, next_decision, on_connected, on_disconnect, set_network_reachable, retry_now, reset,
}

-- A call of the session actor.
pub data Call : Type 0 where
  connects : Instant → Call
  drops : DisconnectReason → Instant → Call
  reaches : Bool → Call
  retries_now : Call
  resets : Call

abbrev pub step : ReconnectPolicy → Call → ReconnectPolicy × Option ReconnectDecision
step p (connects now) = (on_connected p now, none)
step p (drops r now) = let (q, d) = on_disconnect p r now in (q, some d)
step p (reaches b) = (set_network_reachable p b, none)
step p retries_now = let (q, d) = retry_now p in (q, some d)
step p resets = (reset p, none)

abbrev pub run : ReconnectPolicy → List Call → ReconnectPolicy
run p [] = p
run p (c ∷ cs) = run (step p c).0 cs

-- 1 for a decision to retry.
abbrev pub is_retry : Option ReconnectDecision → ℕ
is_retry (some (retry a d)) = 1
is_retry _ = 0

abbrev pub retries : ReconnectPolicy → List Call → ℕ
retries p [] = 0
retries p (c ∷ cs) = is_retry (step p c).1 + retries (step p c).0 cs

-- The policy keeps to a budget of `limit` attempts.
pub record IsWithin (limit : ℕ) (p : ReconnectPolicy) : Type 0 where
  pub budget : p.config.max_attempts ≡ some limit
  pub counted : p.attempts ≤ limit

step-IsWithin :
    (limit : ℕ) (p : ReconnectPolicy) (c : Call) → IsWithin limit p → IsWithin limit (step p c).0
unfolding on_connected on_disconnect set_network_reachable retry_now reset next_decision
step-IsWithin limit p c w = ground arith

-- A policy whose attempt count is within its budget stays within it, whatever is called in whatever
-- order.
pub run-IsWithin :
    (limit : ℕ) (p : ReconnectPolicy) (cs : List Call)
    → IsWithin limit p
    → IsWithin limit (run p cs)
run-IsWithin limit p [] w = w
run-IsWithin limit p (c ∷ cs) w = run-IsWithin limit (step p c).0 cs (step-IsWithin limit p c w)

-- What an observer counts: since when the connection stands, and the retries decided since the count
-- was last cleared.
pub record Tally : Type 0 where
  pub since : Option Instant
  pub count : ℕ

abbrev pub nothing_counted : Tally
nothing_counted = record { since = none; count = 0 }

-- The end of a connection clears the count if the connection lasted long enough.
abbrev pub ended : Duration → Option Instant → ℕ → Instant → ℕ
ended stable none count now = count
ended stable (some since) count now = if leb stable (now - since) then 0 else count

abbrev pub track : Duration → Tally → Call → Option ReconnectDecision → Tally
track stable t (connects now) d = record t { since = some now }
track stable t (drops r now) d = record {
  since = none;
  count = ended stable t.since t.count now + is_retry d;
}
track stable t (reaches b) d = t
track stable t retries_now d = record t { count = t.count + is_retry d }
track stable t resets d = nothing_counted

abbrev pub tally : Duration → ReconnectPolicy → Tally → List Call → Tally
tally stable p t [] = t
tally stable p t (c ∷ cs) = tally stable (step p c).0 (track stable t c (step p c).1) cs

-- The observer and the policy agree.
record Agrees (p : ReconnectPolicy) (t : Tally) : Type 0 where
  since : t.since ≡ p.connected_since
  count : t.count ≡ p.attempts

ended_agrees :
    (p : ReconnectPolicy) (since : Option Instant) (now : Instant)
    → since ≡ p.connected_since
    → let q = after_connection p since now in
      (ended p.config.stable_after since p.attempts now ≡ q.attempts) × (none ≡ q.connected_since)
ended_agrees p none now e = (refl, e)
ended_agrees p (some since) now e = (ground arith, ground arith)

-- A decision after the end of a connection counts its retry, and touches nothing else.
decided :
    (limit : ℕ) (q : ReconnectPolicy)
    → limit ≤ u32_max
    → IsWithin limit q
    → ((next_decision q true).0.attempts ≡ q.attempts + is_retry (some (next_decision q true).1))
      × ((next_decision q true).0.connected_since ≡ q.connected_since)
      × ((next_decision q true).0.config ≡ q.config)
unfolding next_decision
decided limit q l w = ground arith

after_connection-IsWithin :
    (limit : ℕ) (p : ReconnectPolicy) (since : Option Instant) (now : Instant)
    → IsWithin limit p
    → IsWithin limit (after_connection p since now)
      × ((after_connection p since now).config ≡ p.config)
      × ((after_connection p since now).network_reachable ≡ p.network_reachable)
after_connection-IsWithin limit p none now w = (w, refl, refl)
after_connection-IsWithin limit p (some since) now w = ground arith

drop-Agrees :
    (limit : ℕ) (p : ReconnectPolicy) (t : Tally) (r : DisconnectReason) (now : Instant)
    → limit ≤ u32_max
    → IsWithin limit p
    → Agrees p t
    → Agrees
        (on_disconnect p r now).0
        (track p.config.stable_after t (drops r now) (some (on_disconnect p r now).1))
      × ((on_disconnect p r now).0.config ≡ p.config)
unfolding on_disconnect
drop-Agrees limit p t r now l w a =
    let q = after_connection p p.connected_since now in
    let (count, since) = ended_agrees p p.connected_since now refl in
    let seen : ended p.config.stable_after t.since t.count now ≡ q.attempts =
      ap (λ s. ended p.config.stable_after s t.count now) a.since
      ∙ ap (λ n. ended p.config.stable_after p.connected_since n now) a.count
      ∙ count in
    let (within, same, reach) = after_connection-IsWithin limit p p.connected_since now w in
    let (more, still, kept) = decided limit q l within in
    elim (Bool-cases (is_retryable r)) [
      | inl e ↦
          rw e
            (record { since = since ∙ sym still; count = omega (arith, seen, more) }, kept ∙ same)
      | inr e ↦ rw e (record { since = since; count = omega (arith, seen) }, same)
    ]

step-Agrees :
    (limit : ℕ) (p : ReconnectPolicy) (t : Tally) (c : Call)
    → limit ≤ u32_max
    → IsWithin limit p
    → Agrees p t
    → Agrees (step p c).0 (track p.config.stable_after t c (step p c).1)
      × ((step p c).0.config ≡ p.config)
unfolding on_connected on_disconnect set_network_reachable retry_now reset next_decision
step-Agrees limit p t (connects now) l w a = (record { since = refl; count = a.count }, refl)
step-Agrees limit p t resets l w a = (record { since = refl; count = refl }, refl)
step-Agrees limit p t (drops r now) l w a = drop-Agrees limit p t r now l w a
step-Agrees limit p t (reaches b) l w a = (record { since = a.since; count = a.count }, refl)
step-Agrees limit p t retries_now l w a =
    (record { since = ground (arith, a.since); count = ground (arith, a.count) }, ground arith)

tally-Agrees :
    (limit : ℕ) (p : ReconnectPolicy) (t : Tally) (cs : List Call)
    → limit ≤ u32_max
    → IsWithin limit p
    → Agrees p t
    → Agrees (run p cs) (tally p.config.stable_after p t cs)
tally-Agrees limit p t [] l w a = a
tally-Agrees limit p t (c ∷ cs) l w a =
    let (a', same) = step-Agrees limit p t c l w a in
    subst
      (λ (k : ReconnectConfig).
        Agrees (run (step p c).0 cs)
          (tally k.stable_after (step p c).0 (track p.config.stable_after t c (step p c).1) cs))
      same (tally-Agrees limit (step p c).0 _ cs l (step-IsWithin limit p c w) a')

-- Over any history of a new policy with a budget of at most u32::MAX, connections and their ends
-- included: the retries decided since the count was last cleared, which a reset does, and the end of a connection that lasted
-- at least `stable_after`, are exactly the attempts counted, and never more than the budget.
pub retries-le-budget :
    (config : ReconnectConfig) (seed limit : ℕ) (cs : List Call)
    → limit ≤ u32_max
    → config.max_attempts ≡ some limit
    → ((tally config.stable_after (new config seed) nothing_counted cs).count
        ≡ (run (new config seed) cs).attempts)
      × ((tally config.stable_after (new config seed) nothing_counted cs).count ≤ limit)
unfolding new
retries-le-budget config seed limit cs l b =
    let start : IsWithin limit (new config seed) = record { budget = b; counted = omega arith } in
    let same =
      (tally-Agrees limit (new config seed) nothing_counted cs l start
        (record { since = refl; count = refl })).count in
    (same, omega (arith, same, (run-IsWithin limit (new config seed) cs start).counted))

-- Drops for retryable reasons only.
abbrev pub AllRetryable : List (DisconnectReason × Instant) → Type 0
AllRetryable [] = Unit {0}
AllRetryable ((r, now) ∷ ds) = (is_retryable r ≡ true) × AllRetryable ds

abbrev pub drop_calls : List (DisconnectReason × Instant) → List Call
drop_calls [] = []
drop_calls ((r, now) ∷ ds) = drops r now ∷ drop_calls ds

drop_step :
    (limit : ℕ) (p : ReconnectPolicy) (r : DisconnectReason) (now : Instant)
    → limit ≤ u32_max
    → IsWithin limit p
    → p.connected_since ≡ none
    → p.network_reachable ≡ true
    → is_retryable r ≡ true
    → let (q, d) = on_disconnect p r now in
      (q.connected_since ≡ none)
      × (q.network_reachable ≡ true)
      × (is_retry (some d) ≡ min 1 (limit - p.attempts))
      × (q.attempts ≡ p.attempts + min 1 (limit - p.attempts))
unfolding on_disconnect next_decision
drop_step limit p r now l w e n h = ground arith

retries-quiet :
    (limit : ℕ) (p : ReconnectPolicy) (ds : List (DisconnectReason × Instant))
    → limit ≤ u32_max
    → IsWithin limit p
    → p.connected_since ≡ none
    → p.network_reachable ≡ true
    → AllRetryable ds
    → retries p (drop_calls ds) ≡ min (length ds) (limit - p.attempts)
retries-quiet limit p [] l w e n h = omega arith
retries-quiet limit p ((r, now) ∷ ds) l w e n (h, hs) =
    let (e', n', once, more) = drop_step limit p r now l w e n h in
    omega (
      arith,
      once,
      more,
      retries-quiet limit (on_disconnect p r now).0 ds l (step-IsWithin limit p (drops r now) w) e'
          n' hs,
    )

on_disconnect-ended :
    (p : ReconnectPolicy) (r : DisconnectReason) (now : Instant) (since : Option Instant)
    → since ≡ p.connected_since
    → on_disconnect p r now ≡ on_disconnect (after_connection p since now) r now
unfolding on_disconnect
on_disconnect-ended p r now none e = refl
on_disconnect-ended p r now (some since) e =
    elim (Bool-cases (leb p.config.stable_after (now - since))) [
      | inl b ↦ rw (← e, b) refl
      | inr b ↦ rw (← e, b) refl
    ]

-- On a reachable network, and with a count that is within a budget of at most u32::MAX, every retryable
-- drop is retried until the budget is spent, and none afterwards. Of any positive number of drops with no connection between them, the first of which may end one,
-- exactly min(drops, budget left) are retried: all of the budget is left if the first drop ends
-- a connection that lasted at least `stable_after`, and else what the attempts so far leave.
pub retries-drops :
    (limit : ℕ) (p : ReconnectPolicy) (r : DisconnectReason) (now : Instant)
    (ds : List (DisconnectReason × Instant))
    → limit ≤ u32_max
    → IsWithin limit p
    → p.network_reachable ≡ true
    → AllRetryable ((r, now) ∷ ds)
    → retries p (drop_calls ((r, now) ∷ ds))
      ≡ min (length ds + 1) (limit - ended p.config.stable_after p.connected_since p.attempts now)
retries-drops limit p r now ds l w n h =
    let q = after_connection p p.connected_since now in
    let (count, since) = ended_agrees p p.connected_since now refl in
    let (within, same, reach) = after_connection-IsWithin limit p p.connected_since now w in
    let first = on_disconnect-ended p r now p.connected_since refl in
    let quiet = retries-quiet limit q ((r, now) ∷ ds) l within (sym since) (reach ∙ n) h in
    ap
      (λ (o : ReconnectPolicy × ReconnectDecision).
        is_retry (some o.1) + retries o.0 (drop_calls ds))
      first
    ∙ quiet
    ∙ omega (arith, count)
