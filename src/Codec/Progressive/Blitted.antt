-- ===== src/Codec/Progressive/Blitted.antt =====
-- The tiles of the decoder are blitted in full.
use drift.Base.{ℕ, zero, suc, ◌*◌, ◌<◌, ◌≡◌, refl, List, [], ◌∷◌, length, map, arith, ok}
use drift.Core.Geometry.{Rect, Size}
use drift.Gfx.Pdu.{Bytes}
use drift.Codec.Tile.{BgraTile, blits}
use drift.Codec.Blits.{AllIn, blit_at, AllHaveRows, blits-map}
use drift.Codec.Progressive.Blocks.{Iron, Inclusive}
use drift.Codec.Progressive.Rounds.{TileKey}
use drift.Codec.Progressive.Running.{swizzled, render_bgra}
use drift.Codec.Progressive.Regions.{visible_rects}
use drift.Codec.Progressive.Loops.{tile_of}
use drift.Codec.Progressive.Decoder.{ProgressiveCodec, decode}
use drift.Codec.Progressive.Pixels.{All}
use drift.Codec.Progressive.Shown.{decode-All}
use drift.Codec.Progressive.Bounds.{IsInside, IsVisible, visible_rects-All}

-- Each update rectangle has its blit, with the bytes of its rows.
abbrev pub IsBlitted : BgraTile → Type 0
IsBlitted t =
    (blits t ≡ map (blit_at t) t.update_rects) × AllHaveRows (map (blit_at t) t.update_rects)

module _ (iron : Iron) where
  length-swizzled : (n : ℕ) (px : Bytes) → length px ≡ n * 4 → length (swizzled iron px) ≡ n * 4
  length-swizzled zero [] h = refl
  length-swizzled zero (b ∷ px) h = absurd (omega arith)
  length-swizzled (suc n) [] h = absurd (omega arith)
  length-swizzled (suc n) (b ∷ []) h = absurd (omega arith)
  length-swizzled (suc n) (b ∷ g ∷ []) h = absurd (omega arith)
  length-swizzled (suc n) (b ∷ g ∷ r ∷ []) h = absurd (omega arith)
  length-swizzled (suc n) (b ∷ g ∷ r ∷ a ∷ px) h = omega (arith, length-swizzled n px (omega arith))

  length-render_bgra :
      (s : iron.TileState)
      → length (iron.reconstruct_to_rgba s) ≡ 16384
      → length (render_bgra iron s) ≡ 16384
  unfolding render_bgra
  length-render_bgra s h = length-swizzled 4096 (iron.reconstruct_to_rgba s) h

  visible-AllIn :
      (width height : ℕ) (key : TileKey) (all : List Rect) (px : Bytes) (rs : List Rect)
      → All (IsVisible width height (tile_of iron key all px).origin) rs
      → AllIn (tile_of iron key all px) rs
  visible-AllIn width height key all px [] h = tt
  visible-AllIn width height key all px (r ∷ rs) h = (
    record {
      left = h.0.left;
      top = h.0.top;
      right = h.0.right;
      bottom = h.0.bottom;
      wide = h.0.wide;
      high = h.0.high;
    },
    visible-AllIn width height key all px rs h.1,
  )

-- Where a reconstructed tile has 64 × 64 pixels of four bytes, an intersection with a rectangle has only
-- rectangles in it that are not empty, and the bound of a side is below 65535: no update rectangle
-- of a tile that `decode` returns is skipped. The blits are those of all the rectangles, in their
-- order, and each has the bytes of all its rows.
pub decode-IsBlitted :
    (iron : Iron)
    (clips : (c : iron.Region) (r : Inclusive)
      → All (IsInside r) (iron.rectangles (iron.intersect_rectangle c r)))
    (fills : (t : iron.TileState) → length (iron.reconstruct_to_rgba t) ≡ 16384)
    (p q : ProgressiveCodec iron) (s c : ℕ) (surface : Size ℕ) (stream : Bytes)
    (tiles : List BgraTile)
    → iron.max_surface_dim < 65535
    → decode iron p s c surface stream ≡ (q, ok tiles)
    → All IsBlitted tiles
decode-IsBlitted iron clips fills p q s c surface stream tiles small e =
    decode-All iron surface (λ px. length px ≡ 16384) IsBlitted p q s c stream tiles
      (λ t. length-render_bgra iron t (fills t))
      (λ narrow low c key px filled.
        let rects = visible_rects iron c key surface.width surface.height in
        blits-map (tile_of iron key rects px) filled (
          visible-AllIn iron surface.width surface.height key rects px rects (
            visible_rects-All iron clips surface.width surface.height (omega (arith, narrow, small))
              (omega (arith, low, small)) c key)))
      e
