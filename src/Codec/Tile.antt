-- ===== src/Codec/Tile.antt =====
-- crates/drift-codec/src/tile.rs and error.rs: the output of the codecs, and its blits.
use drift.Base.{
  ℕ, ◌+◌, ◌-◌, ◌*◌, Bool, not, ◌&&◌, ◌||◌, Option, none, some, List, [], ◌∷◌, ltb, leb,
  if◌then◌else◌, length, drop, Result, ok, err,
}
use drift.Core.Geometry.{Rect, Point, Size, is_empty, size, right, bottom}
use drift.Gfx.Pdu.{Bytes}
use drift.Gfx.Sink.{Blit}

-- The kind of the codec and the detail are only for the text.
pub data CodecError : Type 0 where
  malformed : CodecError
  size_mismatch : ℕ → ℕ → CodecError
  invalid_rect : Rect → CodecError
  surface_too_large : ℕ → ℕ → CodecError

-- Bytes of a pixel.
abbrev pub bpp : ℕ
bpp = 4

pub record BgraTile : Type 0 where
  pub origin : Point ℕ
  pub size : Size ℕ
  pub pixels : Bytes
  pub update_rects : List Rect

abbrev pub full : Rect → Bytes → BgraTile
full r px = record {
  origin = record { x = r.x; y = r.y };
  size = size r;
  pixels = px;
  update_rects = r ∷ [];
}

abbrev pub stride : BgraTile → ℕ
stride t = t.size.width * bpp

abbrev pub footprint : BgraTile → Rect
footprint t = record {
  x = t.origin.x;
  y = t.origin.y;
  width = t.size.width;
  height = t.size.height;
}

abbrev pub contains : Rect → Rect → Bool
contains outer inner =
    leb outer.x inner.x
    && leb outer.y inner.y
    && leb (right inner) (right outer)
    && leb (bottom inner) (bottom outer)

-- The first byte of a rectangle.
abbrev pub start_of : BgraTile → Rect → ℕ
start_of t r = (r.y - t.origin.y) * stride t + (r.x - t.origin.x) * bpp

abbrev pub needed_for : BgraTile → Rect → ℕ
needed_for t r = (r.height - 1) * stride t + r.width * bpp

-- `self.data.get(start..)?`, and the length behind it.
unfoldable pub blit_of : BgraTile → Rect → Option Blit
blit_of t r =
    if is_empty r || not (contains (footprint t) r)
    then none
    else if leb (start_of t r) (length t.pixels)
        && leb (needed_for t r) (length (drop (start_of t r) t.pixels))
    then some (record { rect = r; stride = stride t; pixels = drop (start_of t r) t.pixels })
    else none

abbrev pub with_blit : Option Blit → List Blit → List Blit
with_blit none bs = bs
with_blit (some b) bs = b ∷ bs

unfoldable pub blits_of : BgraTile → List Rect → List Blit
blits_of t [] = []
blits_of t (r ∷ rs) = with_blit (blit_of t r) (blits_of t rs)

abbrev pub blits : BgraTile → List Blit
blits t = blits_of t t.update_rects

abbrev pub max_dest_pixels : ℕ
max_dest_pixels = 33554432

unfoldable pub validate_dest : Rect → Result CodecError (ℕ × ℕ)
validate_dest r =
    if leb r.width 65535
      && leb r.height 65535
      && ltb 0 r.width
      && ltb 0 r.height
      && leb (r.width * r.height) max_dest_pixels
    then ok (r.width, r.height)
    else err (invalid_rect r)
