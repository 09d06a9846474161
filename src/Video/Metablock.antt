-- ===== src/Video/Metablock.antt =====
-- crates/drift-video/src/metablock.rs: the metablock of an AVC420 bitmap stream.
pub mod Parsing
mod Examples
use drift.Base.{
  ℕ, zero, suc, ◌+◌, ◌*◌, ◌/◌, ◌%◌, Bool, Option, none, some, List, [], ◌∷◌, ltb, ◌==◌,
  if◌then◌else◌, length, drop, Result, ok, err, ◌>>=◌,
}
use drift.Core.Geometry.{Rect, from_ltrb}
use drift.Gfx.Pdu.{Bytes}

pub record QuantQuality : Type 0 where
  pub qp : ℕ
  pub progressive : Bool
  pub quality : ℕ

pub record Avc420Metablock : Type 0 where
  pub regions : List Rect
  pub quant_quality : List QuantQuality

pub data MetablockError : Type 0 where
  truncated : ℕ → ℕ → MetablockError
  inverted_rect : ℕ → MetablockError

-- `data[off]`; the callers stay within the bytes.
abbrev pub byte_at : Bytes → ℕ → ℕ
byte_at [] off = 0
byte_at (b ∷ bs) zero = b
byte_at (b ∷ bs) (suc off) = byte_at bs off

-- `u32::from_le_bytes` of the first four bytes.
abbrev pub count_of : Bytes → Option ℕ
count_of (a ∷ b ∷ c ∷ d ∷ bs) = some (a + b * 256 + c * 65536 + d * 16777216)
count_of _ = none

abbrev pub u16_at : Bytes → ℕ → ℕ
u16_at bytes off = byte_at bytes off + byte_at bytes (off + 1) * 256

abbrev pub rect_at : Bytes → ℕ → Option Rect
rect_at bytes off =
    from_ltrb (u16_at bytes off) (u16_at bytes (off + 2)) (u16_at bytes (off + 4))
      (u16_at bytes (off + 6))

abbrev pub rect_or : Option Rect → ℕ → Result MetablockError Rect
rect_or none index = err (inverted_rect index)
rect_or (some r) index = ok r

-- The first loop, with `left` rounds to go from `index` on.
unfoldable pub regions_from : Bytes → ℕ → ℕ → Result MetablockError (List Rect)
regions_from bytes zero index = ok []
regions_from bytes (suc left) index = do
  r ← rect_or (rect_at bytes (4 + index * 8)) index
  rs ← regions_from bytes left (index + 1)
  ok (r ∷ rs)

abbrev pub quant_quality_at : Bytes → ℕ → QuantQuality
quant_quality_at bytes off = record {
  qp = byte_at bytes off % 64;
  progressive = byte_at bytes off / 128 % 2 == 1;
  quality = byte_at bytes (off + 1);
}

-- The second loop.
unfoldable pub qualities_from : Bytes → ℕ → ℕ → ℕ → List QuantQuality
qualities_from bytes quant_start zero index = []
qualities_from bytes quant_start (suc left) index =
    quant_quality_at bytes (quant_start + index * 2)
    ∷ qualities_from bytes quant_start left (index + 1)

abbrev pub needed_for : ℕ → ℕ
needed_for count = count * 10 + 4

unfoldable pub parse_counted : Bytes → ℕ → Result MetablockError (Avc420Metablock × Bytes)
parse_counted bytes count =
    if ltb (length bytes) (needed_for count)
    then err (truncated (needed_for count) (length bytes))
    else do
      regions ← regions_from bytes count 0
      ok (
        record { regions = regions; quant_quality = qualities_from bytes (4 + count * 8) count 0 },
        drop (needed_for count) bytes,
      )

-- On a 64-bit machine ten times a u32 does not overflow.
unfoldable pub parse_avc420_bitmap_stream : Bytes → Result MetablockError (Avc420Metablock × Bytes)
unfolding parse_counted
parse_avc420_bitmap_stream bytes = elim (count_of bytes) [
  | none ↦ err (truncated 4 (length bytes))
  | some count ↦ parse_counted bytes count
]
