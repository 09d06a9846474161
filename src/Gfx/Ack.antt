-- ===== src/Gfx/Ack.antt =====
-- crates/drift-gfx/src/ack.rs: the shared acknowledgement state. A lock section is one step; the
-- callback of `frame_ended` is the step `presented` with the frame's id.
pub mod Laws
mod Examples
use drift.Base.{
  ℕ, zero, suc, ◌+◌, ◌-◌, ◌%◌, min, Bool, true, false, not, ◌&&◌, List, [], ◌∷◌, ◌++◌, ◌==◌,
  if◌then◌else◌,
}
use drift.Core.Geometry.{saturating_add}

-- `ironrdp_egfx::pdu::QueueDepth`.
pub data QueueDepth : Type 0 where
  unavailable suspend : QueueDepth
  available_bytes : ℕ → QueueDepth

-- `FrameAcknowledgePdu`.
pub record FrameAcknowledge : Type 0 where
  pub queue_depth : QueueDepth
  pub frame_id : ℕ
  pub total_frames_decoded : ℕ

pub record AckState : Type 0 where
  pub outbox : List FrameAcknowledge
  pub in_flight : ℕ
  pub total_decoded : ℕ
  pub hidden : Bool
  pub suspend_sent : Bool
  pub notifier : Bool

-- `AckState::default`.
abbrev pub initial : AckState
initial = record {
  outbox = [];
  in_flight = 0;
  total_decoded = 0;
  hidden = false;
  suspend_sent = false;
  notifier = false;
}

-- `AckOutbox::set_notifier`: whether one is installed is all that the state is asked.
abbrev pub set_notifier : AckState → AckState
set_notifier s = record s { notifier = true }

-- `AckOutbox::drain`.
unfoldable pub drain : AckState → AckState × List FrameAcknowledge
drain s = (record s { outbox = [] }, s.outbox)

-- `AckOutbox::frame_ended`.
unfoldable pub frame_ended : AckState → AckState
frame_ended s = record s {
  in_flight = saturating_add s.in_flight 1;
  total_decoded = (s.total_decoded + 1) % 4294967296;
}

-- `AckOutbox::set_hidden`.
unfoldable pub set_hidden : AckState → Bool → AckState
set_hidden s hidden = record s {
  hidden = hidden;
  suspend_sent = if differs s.hidden hidden then false else s.suspend_sent;
}
  where
    differs : Bool → Bool → Bool
    differs true b = not b
    differs false b = b

-- The queue depth of a visible session.
abbrev pub depth_of : ℕ → QueueDepth
depth_of n = if n == 0 then unavailable else available_bytes n

abbrev ack : AckState → QueueDepth → ℕ → FrameAcknowledge
ack s depth frame_id = record {
  queue_depth = depth;
  frame_id = frame_id;
  total_frames_decoded = s.total_decoded;
}

abbrev push : AckState → QueueDepth → ℕ → AckState × Bool
push s depth frame_id = (record s { outbox = s.outbox ++ ack s depth frame_id ∷ [] }, s.notifier)

-- `AckOutbox::presented`: the state, and whether the notifier is run.
unfoldable pub presented : AckState → ℕ → AckState × Bool
presented s frame_id =
    let t = record s { in_flight = s.in_flight - 1 } in
    if not s.hidden
    then push t (depth_of t.in_flight) frame_id
    else if not s.suspend_sent
    then push (record t { suspend_sent = true }) suspend frame_id
    else (t, false)
