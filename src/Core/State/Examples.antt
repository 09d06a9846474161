-- ===== src/Core/State/Examples.antt =====
-- Witnesses of the session state machine.
use drift.Base.{◌≡◌, refl, true, List, [], ◌∷◌}
use drift.Core.State.{
  SessionState, idle, connecting, awaiting_greeter_login, tcp, nla, rdstls, transition,
}
use drift.Core.State.Rules.{transition-Step, Step}
use drift.Core.State.Paths.{PathOf, stay, move, any, is_redirected_leg, greeter_needs_redirect}

transition-Step_example : Step (connecting 2 rdstls) awaiting_greeter_login
unfolding transition
transition-Step_example = (transition-Step (connecting 2 rdstls) awaiting_greeter_login).0.0 refl

abbrev to_greeter : List SessionState
to_greeter = connecting 1 tcp ∷ connecting 1 nla ∷ connecting 2 rdstls ∷ awaiting_greeter_login ∷ []

greeter_path : PathOf idle to_greeter awaiting_greeter_login
unfolding transition
greeter_path = move refl (move refl (move refl (move refl stay)))

greeter_needs_redirect_example : any is_redirected_leg to_greeter ≡ true
greeter_needs_redirect_example = greeter_needs_redirect greeter_path
