-- ===== src/Core/Triggers.antt =====
-- crates/drift-core/src/triggers.rs: merging of platform triggers, and what the merged stream
-- promises. Instants are nanoseconds.
mod Examples
use drift.Base.{
  ℕ, ◌-◌, ◌*◌, ◌≤◌, ◌≡◌, refl, ◌⊎◌, inl, inr, Bool, true, false, Option, none, some, List, [], ◌∷◌,
  arith, ltb, if◌then◌else◌,
}
use drift.Core.Reconnect.{Instant, Duration}

pub data Trigger : Type 0 where
  network_offline network_online wake : Trigger

pub data TriggerAction : Type 0 where
  pause_reconnect retry_now : TriggerAction

pub record TriggerMerger : Type 0 where
  pub debounce : Duration
  pub online : Bool
  pub last_retry : Option Instant

-- `TriggerMerger::DEFAULT_DEBOUNCE`: two seconds.
abbrev pub default_debounce : Duration
default_debounce = 2000000000

-- `TriggerMerger::with_debounce`.
abbrev pub with_debounce : Bool → Duration → TriggerMerger
with_debounce online debounce = record { debounce = debounce; online = online; last_retry = none }

-- `TriggerMerger::new`.
abbrev pub new : Bool → TriggerMerger
new online = with_debounce online default_debounce

-- `now.saturating_duration_since(t) < debounce`, of the last retry if there is one.
abbrev is_recent : Option Instant → Instant → Duration → Bool
is_recent none now debounce = false
is_recent (some t) now debounce = ltb (now - t) debounce

-- `TriggerMerger::retry`.
pub retry : TriggerMerger → Instant → TriggerMerger × Option TriggerAction
retry m now =
    if is_recent m.last_retry now m.debounce
    then (m, none)
    else (record m { last_retry = some now }, some retry_now)

-- `TriggerMerger::on_trigger`.
unfoldable pub on_trigger : TriggerMerger → Trigger → Instant → TriggerMerger × Option TriggerAction
unfolding retry
on_trigger m network_offline now =
    if m.online
    then (record m { online = false; last_retry = none }, some pause_reconnect)
    else (record m { online = false }, none)
on_trigger m network_online now =
    if m.online then (record m { online = true }, none) else retry (record m { online = true }) now
on_trigger m wake now = if m.online then retry m now else (m, none)

abbrev pub run : TriggerMerger → List (Trigger × Instant) → TriggerMerger
run m [] = m
run m ((t, now) ∷ ts) = run (on_trigger m t now).0 ts

abbrev emit :
    Instant → Option TriggerAction → List (TriggerAction × Instant) → List (TriggerAction × Instant)
emit now none as' = as'
emit now (some a) as' = (a, now) ∷ as'

-- The actions that a stream of triggers causes, with their times.
abbrev pub actions : TriggerMerger → List (Trigger × Instant) → List (TriggerAction × Instant)
actions m [] = []
actions m ((t, now) ∷ ts) = emit now (on_trigger m t now).1 (actions (on_trigger m t now).0 ts)

abbrev IsLate : Duration → Option Instant → Instant → Type 0
IsLate debounce none now = Unit {0}
IsLate debounce (some t) now = debounce ≤ now - t

-- Two retries with no pause between them are at least `debounce` apart; `last` is the time of the
-- last retry since the last pause.
abbrev pub IsSpaced : Duration → Option Instant → List (TriggerAction × Instant) → Type 0
IsSpaced debounce last [] = Unit {0}
IsSpaced debounce last ((retry_now, now) ∷ as') =
    IsLate debounce last now × IsSpaced debounce (some now) as'
IsSpaced debounce last ((pause_reconnect, now) ∷ as') = IsSpaced debounce none as'

-- An action stream never asks twice for a pause without a retry between, and pauses only a merger
-- that is online.
abbrev IsAlternating : Bool → List (TriggerAction × Instant) → Type 0
IsAlternating online [] = Unit {0}
IsAlternating online ((retry_now, now) ∷ as') = IsAlternating true as'
IsAlternating online ((pause_reconnect, now) ∷ as') = (online ≡ true) × IsAlternating false as'

-- Whatever triggers come and whenever, two retries with no pause between them are at least the
-- debounce window apart.
pub actions-IsSpaced :
    (m : TriggerMerger) (ts : List (Trigger × Instant))
    → IsSpaced m.debounce m.last_retry (actions m ts)
unfolding on_trigger
actions-IsSpaced m [] = tt
actions-IsSpaced m ((network_offline, now) ∷ ts) =
    ground (arith, actions-IsSpaced (on_trigger m network_offline now).0 ts)
actions-IsSpaced m ((network_online, now) ∷ ts) =
    ground (arith, actions-IsSpaced (on_trigger m network_online now).0 ts)
actions-IsSpaced m ((wake, now) ∷ ts) =
    ground (arith, actions-IsSpaced (on_trigger m wake now).0 ts)

-- A merger that is offline remembers no retry.
abbrev pub IsFresh : TriggerMerger → Type 0
IsFresh m = m.online ≡ false → m.last_retry ≡ none

alternating :
    (m : TriggerMerger) (ts : List (Trigger × Instant))
    → IsFresh m
    → IsAlternating m.online (actions m ts)
unfolding on_trigger
alternating m [] f = tt
alternating m ((network_offline, now) ∷ ts) f =
    ground (arith, alternating (on_trigger m network_offline now).0 ts)
alternating m ((network_online, now) ∷ ts) f =
    ground (arith, alternating (on_trigger m network_online now).0 ts)
alternating m ((wake, now) ∷ ts) f = ground (arith, alternating (on_trigger m wake now).0 ts)

-- From a new merger, a pause is asked for only while online, and after a pause the next action is
-- a retry.
actions-IsAlternating :
    (online : Bool) (debounce : Duration) (ts : List (Trigger × Instant))
    → IsAlternating online (actions (with_debounce online debounce) ts)
actions-IsAlternating online debounce ts =
    alternating (with_debounce online debounce) ts (λ e. refl)
