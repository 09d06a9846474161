-- ===== src/Codec/Examples.antt =====
-- Tests and witness of the uncompressed payloads.
use drift.Base.{◌≡◌, refl, [], ◌∷◌, ok, err}
use drift.Core.Geometry.{Rect, is_empty}
use drift.Gfx.Sink.{Blit}
use drift.Gfx.Pdu.{Bytes}
use drift.Codec.Tile.{size_mismatch, invalid_rect, blits, blit_of, blits_of, validate_dest, full}
use drift.Codec.Uncompressed.{xrgb, argb, opaque_pixels, decode_uncompressed}
use drift.Codec.Uncompressed.Whole.{IsPicture, blits-decode_uncompressed}

abbrev two_wide : Rect
two_wide = record { x = 10; y = 20; width = 2; height = 1 }

abbrev two_pixels : Bytes
two_pixels = 1 ∷ 2 ∷ 3 ∷ 0 ∷ 4 ∷ 5 ∷ 6 ∷ 7 ∷ []

abbrev two_opaque : Bytes
two_opaque = 1 ∷ 2 ∷ 3 ∷ 255 ∷ 4 ∷ 5 ∷ 6 ∷ 255 ∷ []

made_opaque : decode_uncompressed two_wide xrgb two_pixels ≡ ok (full two_wide two_opaque)
unfolding opaque_pixels validate_dest decode_uncompressed
made_opaque = refl

too_short : decode_uncompressed two_wide argb (1 ∷ 2 ∷ []) ≡ err (size_mismatch 8 2)
unfolding opaque_pixels validate_dest decode_uncompressed
too_short = refl

no_pixels :
    decode_uncompressed (record two_wide { width = 0 }) argb []
    ≡ err (invalid_rect (record two_wide { width = 0 }))
unfolding opaque_pixels validate_dest decode_uncompressed
no_pixels = refl

blits-decode_uncompressed_example :
    (b : Blit) × (blits (full two_wide two_opaque) ≡ b ∷ []) × IsPicture two_wide xrgb two_pixels b
blits-decode_uncompressed_example =
    blits-decode_uncompressed two_wide xrgb two_pixels (full two_wide two_opaque) made_opaque

-- A rectangle that leaves the buffer is skipped.
skipped :
    blits (record (full two_wide two_opaque) { update_rects = record two_wide { width = 3 } ∷ [] })
    ≡ []
unfolding is_empty blit_of blits_of
skipped = refl
