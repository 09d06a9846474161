-- ===== src/Codec/Progressive/Bounds.antt =====
-- The rectangles that are updated lie in their tile and on the surface.
use drift.Base.{
  ℕ, ◌+◌, ◌*◌, ◌-◌, ◌≤◌, ◌<◌, ◌≡◌, ◌||◌, List, [], ◌∷◌, leb, map, min, arith, Bool-cases, inl, inr,
  ok,
}
use drift.Core.Geometry.{Rect, Point, Size}
use drift.Gfx.Pdu.{Bytes}
use drift.Codec.Tile.{BgraTile}
use drift.Codec.Progressive.Blocks.{Iron, Inclusive}
use drift.Codec.Progressive.Pixels.{All}
use drift.Codec.Progressive.Shown.{decode-All}
use drift.Codec.Progressive.Rounds.{TileKey}
use drift.Codec.Progressive.Regions.{tile_dim, surface_rect, visible_rects}
use drift.Codec.Progressive.Decoder.{ProgressiveCodec, decode}

-- One inclusive rectangle inside another, and not empty.
pub record IsInside (outer r : Inclusive) : Type 0 where
  pub left : outer.left ≤ r.left
  pub top : outer.top ≤ r.top
  pub right : r.right ≤ outer.right
  pub bottom : r.bottom ≤ outer.bottom
  pub wide : r.left ≤ r.right
  pub high : r.top ≤ r.bottom

-- A rectangle with pixels, in the 64 × 64 pixels of a tile and on the surface.
pub record IsVisible (width height : ℕ) (origin : Point ℕ) (r : Rect) : Type 0 where
  pub left : origin.x ≤ r.x
  pub top : origin.y ≤ r.y
  pub right : r.x + r.width ≤ origin.x + 64
  pub bottom : r.y + r.height ≤ origin.y + 64
  pub across : r.x + r.width ≤ width
  pub down : r.y + r.height ≤ height
  pub wide : 0 < r.width
  pub high : 0 < r.height

abbrev pub HasVisible : ℕ → ℕ → BgraTile → Type 0
HasVisible width height t = All (IsVisible width height t.origin) t.update_rects

module _ (iron : Iron)
    (clips : (c : iron.Region) (r : Inclusive)
      → All (IsInside r) (iron.rectangles (iron.intersect_rectangle c r)))
    (width height : ℕ) (narrow : width < 65535) (low : height < 65535) where
  abbrev origin : TileKey → Point ℕ
  origin key = record { x = key.x * tile_dim; y = key.y * tile_dim }

  -- The tile on the surface, as `visible_rects` has it.
  abbrev edge : ℕ → ℕ
  edge i = min (i * 64) 65535

  abbrev limit : ℕ → ℕ → ℕ
  limit i size = min (min (edge i + 64) 65535) size

  abbrev bounds : TileKey → Inclusive
  bounds key = record {
    left = edge key.x;
    top = edge key.y;
    right = limit key.x width - 1;
    bottom = limit key.y height - 1;
  }

  IsInside-IsVisible :
      (key : TileKey) (r : Inclusive)
      → IsInside (bounds key) r
      → edge key.x < limit key.x width
      → edge key.y < limit key.y height
      → IsVisible width height (origin key) (surface_rect iron r)
  IsInside-IsVisible key r i h k = record {
    left = ground arith;
    top = ground arith;
    right = ground arith;
    bottom = ground arith;
    across = ground arith;
    down = ground arith;
    wide = ground arith;
    high = ground arith;
  }

  All-IsVisible :
      (key : TileKey) (rs : List Inclusive)
      → All (IsInside (bounds key)) rs
      → edge key.x < limit key.x width
      → edge key.y < limit key.y height
      → All (IsVisible width height (origin key)) (map (surface_rect iron) rs)
  All-IsVisible key [] i h k = tt
  All-IsVisible key (r ∷ rs) i h k =
      (IsInside-IsVisible key r i.0 h k, All-IsVisible key rs i.1 h k)

  pub visible_rects-All :
      (c : iron.Region) (key : TileKey)
      → All (IsVisible width height (origin key)) (visible_rects iron c key width height)
  unfolding visible_rects
  visible_rects-All c key =
      elim (Bool-cases
        (leb (limit key.x width) (edge key.x) || leb (limit key.y height) (edge key.y))) [
          | inl e ↦ rw e tt
          | inr e ↦ rw e (
              All-IsVisible key (iron.rectangles (iron.intersect_rectangle c (bounds key)))
                (clips c (bounds key)) (ground (arith, e)) (ground (arith, e)))
        ]

-- Where an intersection with a rectangle has only rectangles in it that are not empty, and the bound of
-- a side is below 65535, each rectangle of each tile that `decode` returns has pixels, and lies in the
-- 64 × 64 pixels of its tile and on the surface, whatever the stream and the state.
pub decode-HasVisible :
    (iron : Iron)
    (clips : (c : iron.Region) (r : Inclusive)
      → All (IsInside r) (iron.rectangles (iron.intersect_rectangle c r)))
    (p q : ProgressiveCodec iron) (s c : ℕ) (surface : Size ℕ) (stream : Bytes)
    (tiles : List BgraTile)
    → iron.max_surface_dim < 65535
    → decode iron p s c surface stream ≡ (q, ok tiles)
    → All (HasVisible surface.width surface.height) tiles
decode-HasVisible iron clips p q s c surface stream tiles small e =
    decode-All iron surface (λ px. Unit {0}) (HasVisible surface.width surface.height) p q s c
      stream tiles (λ t. tt)
      (λ narrow low c key px _.
        visible_rects-All iron clips surface.width surface.height (omega (arith, narrow, small))
          (omega (arith, low, small)) c key)
      e
