-- ===== src/Codec/Blits.antt =====
-- Which of its rectangles a tile blits.
use drift.Base.{
  ℕ, zero, suc, ◌+◌, ◌-◌, ◌*◌, ◌≤◌, ◌<◌, ◌≡◌, refl, true, false, not, ◌||◌, some, List, [], ◌∷◌,
  leb, map, length, drop, length-drop, arith,
}
use drift.Core.Geometry.{Rect, is_empty}
use drift.Gfx.Sink.{Blit}
use drift.Codec.Tile.{
  BgraTile, stride, footprint, contains, start_of, needed_for, blit_of, blits_of, blits,
}

-- A rectangle with pixels in the buffer of a tile.
pub record IsIn (t : BgraTile) (r : Rect) : Type 0 where
  pub left : t.origin.x ≤ r.x
  pub top : t.origin.y ≤ r.y
  pub right : r.x + r.width ≤ t.origin.x + t.size.width
  pub bottom : r.y + r.height ≤ t.origin.y + t.size.height
  pub wide : 0 < r.width
  pub high : 0 < r.height

abbrev pub AllIn : BgraTile → List Rect → Type 0
AllIn t [] = Unit {0}
AllIn t (r ∷ rs) = IsIn t r × AllIn t rs

-- The blit of a rectangle begins at its first pixel, in the rows of the buffer.
abbrev pub blit_at : BgraTile → Rect → Blit
blit_at t r = record { rect = r; stride = stride t; pixels = drop (start_of t r) t.pixels }

-- What a sink relies on: the rows of the rectangle are in the bytes of the blit.
abbrev pub HasRows : Blit → Type 0
HasRows b = (b.rect.height - 1) * b.stride + b.rect.width * 4 ≤ length b.pixels

abbrev pub AllHaveRows : List Blit → Type 0
AllHaveRows [] = Unit {0}
AllHaveRows (b ∷ bs) = HasRows b × AllHaveRows bs

mul_le : (a b c : ℕ) → a ≤ b → a * c ≤ b * c
mul_le zero b c h = omega arith
mul_le (suc a) zero c h = absurd (omega arith)
mul_le (suc a) (suc b) c h = omega (arith, mul_le a b c (omega arith))

rows_end :
    (above rows beside wide width height : ℕ)
    → above + rows + 1 ≤ height
    → beside + wide ≤ width
    → above * (width * 4) + beside * 4 + (rows * (width * 4) + wide * 4) ≤ width * height * 4
rows_end above rows beside wide width height h k =
    omega (arith, mul_le (above + rows + 1) height (width * 4) h)

module _ (t : BgraTile) (filled : length t.pixels ≡ t.size.width * t.size.height * 4) where
  in_pixels : (r : Rect) → IsIn t r → start_of t r + needed_for t r ≤ length t.pixels
  in_pixels r h =
      let fits =
        rows_end (r.y - t.origin.y) (r.height - 1) (r.x - t.origin.x) r.width t.size.width
          t.size.height (omega (arith, h.top, h.bottom, h.high)) (omega (arith, h.left, h.right)) in
      omega (arith, fits, filled)

  HasRows-blit_at : (r : Rect) → IsIn t r → HasRows (blit_at t r)
  HasRows-blit_at r h = omega (arith, in_pixels r h, length-drop {0} (start_of t r) t.pixels)

  is_contained : (r : Rect) → IsIn t r → (is_empty r || not (contains (footprint t) r)) ≡ false
  unfolding is_empty
  is_contained r h = ground (arith, h.left, h.top, h.right, h.bottom, h.wide, h.high)

  blit_of_lem : (r : Rect) → IsIn t r → blit_of t r ≡ some (blit_at t r)
  unfolding blit_of
  blit_of_lem r h =
      let start : leb (start_of t r) (length t.pixels) ≡ true = ground (arith, in_pixels r h) in
      let needed : leb (needed_for t r) (length (drop (start_of t r) t.pixels)) ≡ true =
        ground (arith, HasRows-blit_at r h) in
      rw (is_contained r h, start, needed) refl

  blits_of_lem :
      (rs : List Rect)
      → AllIn t rs
      → (blits_of t rs ≡ map (blit_at t) rs) × AllHaveRows (map (blit_at t) rs)
  unfolding blits_of
  blits_of_lem [] h = (refl, tt)
  blits_of_lem (r ∷ rs) h =
      let rest = blits_of_lem rs h.1 in
      (rw (blit_of_lem r h.0, rest.0) refl, (HasRows-blit_at r h.0, rest.1))

  -- A tile whose buffer has its size, and whose update rectangles are not empty and lie in the buffer,
  -- skips none of them: each has its blit, in their order, which begins at the first pixel of the
  -- rectangle and has the bytes of all its rows.
  pub blits-map :
      AllIn t t.update_rects
      → (blits t ≡ map (blit_at t) t.update_rects) × AllHaveRows (map (blit_at t) t.update_rects)
  blits-map h = blits_of_lem t.update_rects h
