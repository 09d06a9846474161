-- ===== src/Video/Sps/Vui.antt =====
-- crates/drift-video/src/sps.rs: the VUI that `with_bt709_full_range` writes.
use drift.Base.{
  ℕ, zero, suc, ◌+◌, ◌-◌, ◌*◌, ◌/◌, ◌%◌, Bool, true, false, Option, none, some, [], ◌∷◌, ◌==◌,
  if◌then◌else◌,
}
use drift.Core.Geometry.{checked_sub}
use drift.Gfx.Pdu.{Bytes}
use drift.Video.Sps.Reader.{Read, ◌>>=◌, give, or_malformed, bit, bits}
use drift.Video.Sps.Writer.{BitWriter, write_bit, write_bits, copy}
use drift.Video.Sps.Syntax.{extended_sar, read_signal_type}

unfoldable pub write_bt709_full_range : BitWriter → BitWriter
write_bt709_full_range w =
    let w = write_bit w true in
    let w = write_bits w 5 3 in
    let w = write_bit w true in
    let w = write_bit w true in
    let w = write_bits w 1 8 in let w = write_bits w 1 8 in write_bits w 1 8

-- `b.trailing_zeros()` of a byte that is not 0.
abbrev trailing_zeros : ℕ → ℕ → ℕ
trailing_zeros zero b = 0
trailing_zeros (suc left) b =
    let more = trailing_zeros left (b / 2) + 1 in if b % 2 == 1 then 0 else more

abbrev last_set : ℕ → Bytes → Option ℕ
last_set i [] = none
last_set i (b ∷ bs) = elim (last_set (i + 1) bs) [
  | some p ↦ some p
  | none ↦ if b == 0 then none else some (i * 8 + 7 - trailing_zeros 8 b)
]

unfoldable pub stop_bit_position : Bytes → Option ℕ
stop_bit_position rbsp = last_set 0 rbsp

-- The bits from the position up to the stop bit.
abbrev pub rest_of : Option ℕ → ℕ → Option ℕ
rest_of none p = none
rest_of (some stop) p = checked_sub stop p

unfoldable pub rest_length : Read ℕ
rest_length d p = or_malformed (rest_of (stop_bit_position d) p) d p

-- The aspect ratio, copied.
unfoldable pub copy_sar : BitWriter → Bool → Read BitWriter
copy_sar w false = give w
copy_sar w true = do
  idc ← bits 8
  if idc == extended_sar then copy (write_bits w idc 8) 32 else give (write_bits w idc 8)

unfoldable pub copy_aspect : BitWriter → Read BitWriter
copy_aspect w = do aspect ← bit; copy_sar (write_bit w aspect) aspect

unfoldable pub copy_overscan : BitWriter → Read BitWriter
copy_overscan w = do
  overscan ← bit
  if overscan then copy (write_bit w overscan) 1 else give (write_bit w overscan)

-- The VUI, with another signal type.
unfoldable pub rewrite_vui : BitWriter → Read BitWriter
rewrite_vui w = do
  w ← copy_aspect w
  w ← copy_overscan w
  old ← read_signal_type
  n ← rest_length
  copy (write_bt709_full_range w) n

-- A VUI with nothing but the signal type: eight flags are 0.
unfoldable pub new_vui : BitWriter → BitWriter
new_vui w =
    let w = write_bt709_full_range (write_bit (write_bit w false) false) in
    let w = write_bit (write_bit (write_bit w false) false) false in
    write_bit (write_bit (write_bit w false) false) false
