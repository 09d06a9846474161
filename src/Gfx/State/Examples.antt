-- ===== src/Gfx/State/Examples.antt =====
-- Witnesses of the rectangle checks.
use drift.Base.{ℕ, ◌≡◌, refl, some, ◌&&◌, arith}
use drift.Core.Geometry.{Size, Rect, from_ltrb, is_empty}
use drift.Gfx.State.{clip}
use drift.Gfx.State.Bounds.{covered, covers, in_bounds, IsU32, covered-clip}

-- A rectangle that overlaps the right and the lower edge of a surface.
abbrev overlapping : Rect
overlapping = record { x = 60; y = 40; width = 20; height = 30 }

abbrev bounds : Size ℕ
bounds = record { width = 64; height = 48 }

abbrev clipped : Rect
clipped = record { x = 60; y = 40; width = 4; height = 8 }

overlapping-IsU32 : IsU32 overlapping
overlapping-IsU32 = record { right_edge = omega arith; bottom_edge = omega arith }

covered-clip_example :
    covered (clip overlapping bounds) 70 45 ≡ (covers overlapping 70 45 && in_bounds bounds 70 45)
covered-clip_example = covered-clip overlapping bounds 70 45 overlapping-IsU32

is_clipped : clip overlapping bounds ≡ some clipped
unfolding clip from_ltrb is_empty
is_clipped = refl
