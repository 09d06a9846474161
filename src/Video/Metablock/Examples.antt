-- ===== src/Video/Metablock/Examples.antt =====
-- Tests and witness of the metablock.
use drift.Base.{◌≡◌, refl, true, [], ◌∷◌, ok, err, ◌>>=◌, arith}
use drift.Core.Geometry.{from_ltrb}
use drift.Video.Metablock.{QuantQuality, truncated, inverted_rect, parse_avc420_bitmap_stream}
use drift.Video.Metablock.Parsing.{Rect16, stream, rects_of, parse-stream}

abbrev surface : Rect16
surface = record { left = 0; top = 0; right = 1280; bottom = 800 }

abbrev inverted : Rect16
inverted = record { left = 10; top = 0; right = 5; bottom = 8 }

abbrev quality : QuantQuality
quality = record { qp = 22; progressive = true; quality = 100 }

no_count : parse_avc420_bitmap_stream (1 ∷ 0 ∷ []) ≡ err (truncated 4 2)
unfolding parse_avc420_bitmap_stream
no_count = refl

too_short : parse_avc420_bitmap_stream (2 ∷ 0 ∷ 0 ∷ 0 ∷ 0 ∷ 0 ∷ []) ≡ err (truncated 24 6)
unfolding parse_avc420_bitmap_stream
too_short = refl

parse-stream_example :
    parse_avc420_bitmap_stream (stream (surface ∷ inverted ∷ []) (quality ∷ quality ∷ []) (9 ∷ []))
    ≡ (rects_of 0 (surface ∷ inverted ∷ []) >>= λ xs.
        ok (record { regions = xs; quant_quality = quality ∷ quality ∷ [] }, 9 ∷ []))
parse-stream_example =
    parse-stream (surface ∷ inverted ∷ []) (quality ∷ quality ∷ []) (9 ∷ []) refl (omega arith)
      (record { qp = omega arith }, (record { qp = omega arith }, tt))

the_second_is_inverted : rects_of 0 (surface ∷ inverted ∷ []) ≡ err (inverted_rect 1)
unfolding from_ltrb
the_second_is_inverted = refl
