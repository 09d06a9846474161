-- ===== src/Rdp/Greeter/Examples.antt =====
-- Witness of the greeter typist.
use drift.Base.{◌≡◌, ℕ, true, false, List, [], ◌∷◌, if◌then◌else◌}
use drift.Core.Events.{mouse_button, left}
use drift.Rdp.Greeter.{new, on_greeter}
use drift.Rdp.Greeter.Typing.{Call, input, tick, typed_at, tick_after_click, typed_at_greeter}

abbrev secret : List ℕ
secret = 70 ∷ 57 ∷ []

-- A press, a release, and three ticks around the delay.
abbrev calls : List Call
calls =
    input (mouse_button left true 10 10) 100
    ∷ input (mouse_button left false 10 10) 200
    ∷ tick 1000
    ∷ tick 1500000200
    ∷ tick 1600000000
    ∷ []

typed_at_greeter_example :
    typed_at secret (on_greeter new true) calls ≡ (if true then tick_after_click calls else [])
typed_at_greeter_example = typed_at_greeter new true secret calls
