-- ===== src/Codec/Uncompressed.antt =====
-- crates/drift-codec/src/uncompressed.rs.
pub mod Whole
use drift.Base.{ℕ, ◌*◌, List, [], ◌∷◌, ◌==◌, if◌then◌else◌, length, Result, ok, err, ◌>>=◌}
use drift.Core.Geometry.{Rect}
use drift.Gfx.Pdu.{Bytes}
use drift.Codec.Tile.{CodecError, size_mismatch, BgraTile, bpp, full, validate_dest}

pub data UncompressedFormat : Type 0 where
  xrgb argb : UncompressedFormat

-- `p[3] = 0xFF` in each whole pixel.
unfoldable pub opaque_pixels : Bytes → Bytes
opaque_pixels (b ∷ g ∷ r ∷ a ∷ px) = b ∷ g ∷ r ∷ 255 ∷ opaque_pixels px
opaque_pixels px = px

abbrev pub pixels_in : UncompressedFormat → Bytes → Bytes
pixels_in xrgb px = opaque_pixels px
pixels_in argb px = px

unfoldable pub decode_uncompressed : Rect → UncompressedFormat → Bytes → Result CodecError BgraTile
decode_uncompressed dest format px = do
  wh ← validate_dest dest
  if length px == wh.0 * wh.1 * bpp
      then ok (full dest (pixels_in format px))
      else err (size_mismatch (wh.0 * wh.1 * bpp) (length px))
