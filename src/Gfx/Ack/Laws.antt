-- ===== src/Gfx/Ack/Laws.antt =====
-- What the acknowledgements of any interleaving amount to.
use drift.Base.{
  ℕ, suc, ◌+◌, ◌-◌, ◌≤◌, ◌<◌, ◌≡◌, refl, sym, ap, ◌∙◌, Bool, true, false, not, ◌&&◌, List, [], ◌∷◌,
  ◌++◌, append_assoc, append-nil, arith, if◌then◌else◌, length,
}
use drift.Core.Geometry.{u32_max}
use drift.Gfx.Ack.{
  QueueDepth, unavailable, suspend, available_bytes, FrameAcknowledge, AckState, drain, frame_ended,
  set_hidden, presented, depth_of, ack,
}

-- A lock section of the graphics client, the render thread or the session actor.
pub data Event : Type 0 where
  ends : Event
  presents : ℕ → Event
  hides : Bool → Event
  drains : Event

abbrev pub step : AckState → Event → AckState
step s ends = frame_ended s
step s (presents id) = (presented s id).0
step s (hides b) = set_hidden s b
step s drains = (drain s).0

abbrev drained : AckState → Event → List FrameAcknowledge
drained s drains = (drain s).1
drained s _ = []

abbrev pub run : AckState → List Event → AckState
run s [] = s
run s (e ∷ es) = run (step s e) es

-- All acknowledgements: those drained on the way, oldest first, and those still queued.
abbrev pub all_acks : AckState → List Event → List FrameAcknowledge
all_acks s [] = s.outbox
all_acks s (e ∷ es) = drained s e ++ all_acks (step s e) es

abbrev pub frame_ids : List FrameAcknowledge → List ℕ
frame_ids [] = []
frame_ids (a ∷ as') = a.frame_id ∷ frame_ids as'

abbrev pub presented_ids : List Event → List ℕ
presented_ids [] = []
presented_ids (presents id ∷ es) = id ∷ presented_ids es
presented_ids (ends ∷ es) = presented_ids es
presented_ids (hides b ∷ es) = presented_ids es
presented_ids (drains ∷ es) = presented_ids es

-- The session is never hidden.
abbrev pub StaysVisible : List Event → Type 0
StaysVisible [] = Unit {0}
StaysVisible (hides true ∷ es) = ⊥
StaysVisible (hides false ∷ es) = StaysVisible es
StaysVisible (ends ∷ es) = StaysVisible es
StaysVisible (presents id ∷ es) = StaysVisible es
StaysVisible (drains ∷ es) = StaysVisible es

frame_ids-append :
    (xs ys : List FrameAcknowledge) → frame_ids (xs ++ ys) ≡ frame_ids xs ++ frame_ids ys
frame_ids-append [] ys = refl
frame_ids-append (x ∷ xs) ys = ap (λ l. x.frame_id ∷ l) (frame_ids-append xs ys)

presented_visible :
    (s : AckState) (id : ℕ)
    → s.hidden ≡ false
    → let t = (presented s id).0 in
      (t.hidden ≡ false) × (frame_ids t.outbox ≡ frame_ids s.outbox ++ id ∷ [])
unfolding presented
presented_visible s id h = rw h (refl, frame_ids-append s.outbox _)

-- A visible session that stays visible acknowledges every presented frame, once and in the order of
-- presentation, behind the acknowledgements already queued, however the calls of the client, the
-- render thread and the actor interleave.
pub frame_ids-all_acks :
    (s : AckState) (es : List Event)
    → s.hidden ≡ false
    → StaysVisible es
    → frame_ids (all_acks s es) ≡ frame_ids s.outbox ++ presented_ids es
unfolding frame_ended presented set_hidden drain
frame_ids-all_acks s [] h v = sym (append-nil (frame_ids s.outbox))
frame_ids-all_acks s (ends ∷ es) h v = frame_ids-all_acks (frame_ended s) es h v
frame_ids-all_acks s (hides true ∷ es) h v = absurd v
frame_ids-all_acks s (hides false ∷ es) h v = frame_ids-all_acks (set_hidden s false) es refl v
frame_ids-all_acks s (drains ∷ es) h v =
    frame_ids-append s.outbox (all_acks (drain s).0 es)
    ∙ ap (λ l. frame_ids s.outbox ++ l) (frame_ids-all_acks (drain s).0 es h v)
frame_ids-all_acks s (presents id ∷ es) h v =
    let (h', e) = presented_visible s id h in
    frame_ids-all_acks (presented s id).0 es h' v
    ∙ ap (λ l. l ++ presented_ids es) e
    ∙ append_assoc (frame_ids s.outbox) (id ∷ []) (presented_ids es)

abbrev is_suspend : QueueDepth → ℕ
is_suspend suspend = 1
is_suspend unavailable = 0
is_suspend (available_bytes n) = 0

abbrev pub suspends : List FrameAcknowledge → ℕ
suspends [] = 0
suspends (a ∷ as') = is_suspend a.queue_depth + suspends as'

-- How often the session is told to hide.
abbrev pub hidings : List Event → ℕ
hidings [] = 0
hidings (hides true ∷ es) = suc (hidings es)
hidings (hides false ∷ es) = hidings es
hidings (ends ∷ es) = hidings es
hidings (presents id ∷ es) = hidings es
hidings (drains ∷ es) = hidings es

-- A suspend acknowledgement that is still to come.
abbrev pub owed : AckState → ℕ
owed s = if s.hidden && not s.suspend_sent then 1 else 0

suspends-append : (xs ys : List FrameAcknowledge) → suspends (xs ++ ys) ≡ suspends xs + suspends ys
suspends-append [] ys = omega arith
suspends-append (x ∷ xs) ys = omega (arith, suspends-append xs ys)

suspends-presented :
    (s : AckState) (id : ℕ)
    → suspends (presented s id).0.outbox + owed (presented s id).0 ≤ suspends s.outbox + owed s
unfolding presented
suspends-presented s id = ground (
  arith,
  suspends-append s.outbox (ack s (depth_of (s.in_flight - 1)) id ∷ []),
  suspends-append s.outbox (ack s suspend id ∷ []),
)

hidden_suspends :
    (s : AckState) (b : Bool) (es : List Event)
    → suspends (set_hidden s b).outbox + owed (set_hidden s b) + hidings es
      ≤ suspends s.outbox + owed s + hidings (hides b ∷ es)
unfolding set_hidden
hidden_suspends s true es = ground arith
hidden_suspends s false es = ground arith

-- Each time that the session is hidden, at most one suspend acknowledgement is sent: in any steps
-- there are at most those already queued, one that a hidden session still owes at the start, and one
-- for each time that it is told to hide.
suspends-le-hidings :
    (s : AckState) (es : List Event)
    → suspends (all_acks s es) ≤ suspends s.outbox + owed s + hidings es
unfolding frame_ended drain
suspends-le-hidings s [] = omega arith
suspends-le-hidings s (ends ∷ es) = omega (arith, suspends-le-hidings (frame_ended s) es)
suspends-le-hidings s (presents id ∷ es) =
    omega (arith, suspends-presented s id, suspends-le-hidings (presented s id).0 es)
suspends-le-hidings s (hides b ∷ es) =
    omega (arith, hidden_suspends s b es, suspends-le-hidings (set_hidden s b) es)
suspends-le-hidings s (drains ∷ es) = omega (
  arith,
  suspends-append (drain s).1 (all_acks (drain s).0 es),
  suspends-le-hidings (drain s).0 es,
)

abbrev pub ended : List Event → ℕ
ended [] = 0
ended (ends ∷ es) = suc (ended es)
ended (presents id ∷ es) = ended es
ended (hides b ∷ es) = ended es
ended (drains ∷ es) = ended es

-- With `n` frames in flight: no frame is presented before it ended, and the count stays in u32.
abbrev IsBalanced : ℕ → List Event → Type 0
IsBalanced n [] = Unit {0}
IsBalanced n (ends ∷ es) = (n < u32_max) × IsBalanced (suc n) es
IsBalanced n (presents id ∷ es) = (0 < n) × IsBalanced (n - 1) es
IsBalanced n (hides b ∷ es) = IsBalanced n es
IsBalanced n (drains ∷ es) = IsBalanced n es

presented_in_flight : (s : AckState) (id : ℕ) → (presented s id).0.in_flight ≡ s.in_flight - 1
unfolding presented
presented_in_flight s id = ground arith

in_flight_from :
    (s : AckState) (n : ℕ) (es : List Event)
    → s.in_flight ≡ n
    → IsBalanced n es
    → (run s es).in_flight + length (presented_ids es) ≡ n + ended es
unfolding frame_ended set_hidden drain
in_flight_from s n [] e b = omega arith
in_flight_from s n (ends ∷ es) e b =
    omega (arith, in_flight_from (frame_ended s) (suc n) es (omega arith) b.1)
in_flight_from s n (presents id ∷ es) e b = omega (
  arith,
  in_flight_from (presented s id).0 (n - 1) es (presented_in_flight s id ∙ ap (λ (m : ℕ). m - 1) e)
      b.1,
)
in_flight_from s n (hides h ∷ es) e b = in_flight_from (set_hidden s h) n es e b
in_flight_from s n (drains ∷ es) e b = in_flight_from (drain s).0 n es e b

-- Where no frame is presented before it ended and the count stays in u32, the frames in flight are
-- those that were in flight or ended and were not presented, whatever is hidden or drained in between.
in_flight-run :
    (s : AckState) (es : List Event)
    → IsBalanced s.in_flight es
    → (run s es).in_flight + length (presented_ids es) ≡ s.in_flight + ended es
in_flight-run s es b = in_flight_from s s.in_flight es refl b
