-- ===== src/Gfx/Ack/Examples.antt =====
-- Witnesses of the acknowledgements: two frames end before the first is presented.
use drift.Base.{◌≡◌, refl, List, [], ◌∷◌}
use drift.Gfx.Ack.{initial}
use drift.Gfx.Ack.Laws.{Event, ends, presents, drains, all_acks, frame_ids, frame_ids-all_acks}

abbrev two_frames : List Event
two_frames = ends ∷ ends ∷ presents 7 ∷ drains ∷ presents 8 ∷ []

frame_ids-all_acks_example : frame_ids (all_acks initial two_frames) ≡ 7 ∷ 8 ∷ []
frame_ids-all_acks_example = frame_ids-all_acks initial two_frames refl tt
