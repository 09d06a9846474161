-- ===== src/Gfx/Contract/Examples.antt =====
-- Witnesses of the contract: the sample server draws, sends what cannot be handled, and the session
-- hides and asks for the error.
use drift.Base.{◌≡◌, true, false, some, List, [], ◌∷◌}
use drift.Gfx.Sink.{accept_all, nothing_shown}
use drift.Gfx.Pdu.{GfxPdu}
use drift.Gfx.Client.{new}
use drift.Gfx.Handler.{handle_pdu}
use drift.Gfx.Payload.Framing.{joined}
use drift.Gfx.Samples.{three_commands, client, frames}
use drift.Gfx.Contract.{Behaves, view}
use drift.Gfx.Contract.History.{
  Call, receives, shows, takes_error, run, handle_pdu-Behaves, accept_all-run,
}

-- The slot is empty.
abbrev evicting : GfxPdu
evicting = GfxPdu.evict_cache_entry 3

handle_pdu-Behaves_example :
    Behaves three_commands client (handle_pdu three_commands evicting client)
handle_pdu-Behaves_example = handle_pdu-Behaves three_commands evicting client

abbrev session : List (Call three_commands)
session =
    shows true
    ∷ receives (joined frames)
    ∷ takes_error
    ∷ receives (joined frames)
    ∷ shows false
    ∷ []

accept_all-run_example :
    let c = run three_commands session (new three_commands tt tt tt) in
    accept_all c.sink nothing_shown ≡ some (view c.state)
accept_all-run_example = accept_all-run three_commands tt tt tt session
