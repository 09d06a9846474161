-- ===== src/Video/Sps/Writer.antt =====
-- crates/drift-video/src/sps.rs: BitWriter.
use drift.Base.{
  ℕ, zero, suc, ◌+◌, ◌-◌, ◌*◌, ◌/◌, ◌%◌, Bool, true, false, [], ◌∷◌, ◌++◌, ◌==◌, if◌then◌else◌,
}
use drift.Gfx.Pdu.{Bytes}
use drift.Video.Sps.Reader.{Read, ◌>>=◌, give, bit, test_bit}

pub record BitWriter : Type 0 where
  pub bytes : Bytes
  pub len : ℕ

abbrev pub empty : BitWriter
empty = record { bytes = []; len = 0 }

-- `x | 1 << i`.
unfoldable pub set_bit : ℕ → ℕ → ℕ
set_bit x zero = x / 2 * 2 + 1
set_bit x (suc i) = set_bit (x / 2) i * 2 + x % 2

-- `if let Some(last) = bytes.last_mut()`.
unfoldable pub set_in_last : ℕ → Bytes → Bytes
set_in_last i [] = []
set_in_last i (b ∷ []) = set_bit b i ∷ []
set_in_last i (b ∷ c ∷ bs) = b ∷ set_in_last i (c ∷ bs)

abbrev pub pushed : BitWriter → Bytes
pushed w = if w.len % 8 == 0 then w.bytes ++ 0 ∷ [] else w.bytes

unfoldable pub write_bit : BitWriter → Bool → BitWriter
write_bit w b = record {
  bytes = if b then set_in_last (7 - w.len % 8) (pushed w) else pushed w;
  len = w.len + 1;
}

unfoldable pub write_bits : BitWriter → ℕ → ℕ → BitWriter
write_bits w v zero = w
write_bits w v (suc n) = write_bits (write_bit w (test_bit v n)) v n

-- `copy` of that many bits from the reader.
unfoldable pub copy : BitWriter → ℕ → Read BitWriter
copy w zero = give w
copy w (suc n) = do b ← bit; copy (write_bit w b) n

-- The loop of `trailing_bits`: at most seven zero bits.
unfoldable pub align : ℕ → BitWriter → BitWriter
align zero w = w
align (suc left) w = let rest = align left (write_bit w false) in if w.len % 8 == 0 then w else rest

unfoldable pub trailing_bits : BitWriter → BitWriter
unfolding align
trailing_bits w = align 7 (write_bit w true)
