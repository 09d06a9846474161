-- ===== src/Core/Triggers/Examples.antt =====
-- Witnesses of the trigger merger.
use drift.Base.{◌≡◌, refl, true, List, [], ◌∷◌, none}
use drift.Core.Reconnect.{Instant}
use drift.Core.Triggers.{
  Trigger, network_offline, network_online, wake, pause_reconnect, retry_now, new, default_debounce,
  on_trigger, actions, IsSpaced, actions-IsSpaced,
}

-- An outage with a wake before it and one after it.
abbrev night : List (Trigger × Instant)
night =
    (wake, 1000000000)
    ∷ (network_offline, 2000000000)
    ∷ (wake, 3000000000)
    ∷ (network_online, 3400000000)
    ∷ (wake, 3500000000)
    ∷ []

night_answers :
    actions (new true) night
    ≡ (retry_now, 1000000000) ∷ (pause_reconnect, 2000000000) ∷ (retry_now, 3400000000) ∷ []
unfolding on_trigger
night_answers = refl

actions-IsSpaced_example : IsSpaced default_debounce none (actions (new true) night)
actions-IsSpaced_example = actions-IsSpaced (new true) night
