-- ===== src/Gfx/State/Bounds.antt =====
-- The rectangle checks: clipping and containment.
use drift.Base.{ℕ, ◌+◌, ◌≤◌, ◌<◌, ◌≡◌, true, false, some, none, arith, Bool, ◌&&◌, leb, ltb, Option}
use drift.Core.Geometry.{Size, Rect, u32_max, fits_within}
use drift.Gfx.State.{clip}

-- The pixels that a rectangle covers.
abbrev pub covers : Rect → ℕ → ℕ → Bool
covers r px py = leb r.x px && ltb px (r.x + r.width) && leb r.y py && ltb py (r.y + r.height)

abbrev pub in_bounds : Size ℕ → ℕ → ℕ → Bool
in_bounds b px py = ltb px b.width && ltb py b.height

-- Coordinates and edges stay in u32.
pub record IsU32 (r : Rect) : Type 0 where
  pub right_edge : r.x + r.width ≤ u32_max
  pub bottom_edge : r.y + r.height ≤ u32_max

abbrev pub covered : Option Rect → ℕ → ℕ → Bool
covered none px py = false
covered (some r) px py = covers r px py

-- Clipping a rectangle whose edges stay in u32 keeps exactly its pixels that lie on the surface: a
-- pixel is covered by the result just if it is covered by the rectangle and in bounds, where a
-- result of `none` covers no pixel.
pub covered-clip :
    (r : Rect) (b : Size ℕ) (px py : ℕ)
    → IsU32 r
    → covered (clip r b) px py ≡ (covers r px py && in_bounds b px py)
unfolding clip
covered-clip r b px py h = ground arith

-- A rectangle that clipping returns, for one whose edges stay in u32, fits within the surface, is
-- not empty, and keeps its upper left corner.
pub clip_fits :
    (r : Rect) (b : Size ℕ) (c : Rect)
    → IsU32 r
    → clip r b ≡ some c
    → (fits_within c b ≡ true) × (0 < c.width) × (0 < c.height) × (c.x ≡ r.x) × (c.y ≡ r.y)
unfolding clip fits_within
clip_fits r b c h e = ground arith
