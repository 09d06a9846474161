-- ===== src/Video/Sps.antt =====
-- crates/drift-video/src/sps.rs: the sequence parameter set, what Drift reads of it, and its rewriting
-- to BT.709 full range.
pub mod Reader
pub mod Writer
pub mod Escape
pub mod Syntax
pub mod Vui
pub mod Streams
pub mod Elements
pub mod Written
pub mod Copied
pub mod Signal
pub mod Rewriting
pub mod Headed
pub mod Rewritten
pub mod Info
mod Examples
use drift.Base.{
  ℕ, zero, suc, ◌+◌, ◌-◌, ◌*◌, ◌/◌, ◌%◌, Bool, true, false, Option, none, some, List, [], ◌∷◌, ◌++◌,
  ◌==◌, if◌then◌else◌, take, drop, Result, ok, err, ◌>>=◌,
}
use drift.Core.Geometry.{checked_sub}
use drift.Gfx.Pdu.{Bytes}
use drift.Video.Annexb.{sps_type}
use Reader.{SpsError, not_sps, malformed, Read, give, or_malformed, bit, bits}
use Reader
use Writer.{BitWriter, empty, write_bit, write_bits, copy, trailing_bits}
use Vui.{rewrite_vui, new_vui}
use Escape.{escape, unescape}
use Syntax.{
  Header, extended_sar, SignalType, parse_header, skip_aspect_and_overscan, read_signal_type,
}

pub record SpsInfo : Type 0 where
  pub profile_idc : ℕ
  pub level_idc : ℕ
  pub width : ℕ
  pub height : ℕ
  pub full_range : Option Bool
  pub matrix_coefficients : Option ℕ

-- `sps.first()` has the type of an SPS, and the rest is unescaped.
unfoldable pub rbsp_of : Bytes → Result SpsError Bytes
rbsp_of [] = err not_sps
rbsp_of (h ∷ bs) = if h % 32 == sps_type then ok (unescape bs) else err not_sps

abbrev pub value_of : {A : Type 0} → Result SpsError (A × ℕ) → Result SpsError A
value_of (ok (a, p)) = ok a
value_of (err e) = err e

-- The signal type of a VUI that begins at the position.
unfoldable pub vui_signal : Read (Option SignalType)
vui_signal = Reader.◌>>=◌ skip_aspect_and_overscan (λ _. read_signal_type)

abbrev pub info_of : Header → SpsInfo
info_of h = record {
  profile_idc = h.profile_idc;
  level_idc = h.level_idc;
  width = h.width;
  height = h.height;
  full_range = none;
  matrix_coefficients = none;
}

abbrev pub with_signal : SpsInfo → Option SignalType → SpsInfo
with_signal info none = info
with_signal info (some s) = record info {
  full_range = some s.full_range;
  matrix_coefficients = s.matrix;
}

abbrev pub info_from : Bytes → Header → Result SpsError SpsInfo
info_from rbsp h =
    if h.vui_present
    then (value_of (vui_signal rbsp (h.vui_flag_pos + 1)) >>= λ signal.
        ok (with_signal (info_of h) signal))
    else ok (info_of h)

unfoldable pub parse_rbsp : Bytes → Result SpsError SpsInfo
parse_rbsp rbsp = do h ← value_of (parse_header rbsp 0); info_from rbsp h

unfoldable pub parse : Bytes → Result SpsError SpsInfo
unfolding parse_rbsp
parse sps = do rbsp ← rbsp_of sps; parse_rbsp rbsp

abbrev pub vui_from : Bytes → Header → BitWriter → Result SpsError BitWriter
vui_from rbsp h w =
    if h.vui_present then value_of (rewrite_vui w rbsp (h.vui_flag_pos + 1)) else ok (new_vui w)

-- The rewritten bits.
unfoldable pub rewrite_rbsp : Bytes → Result SpsError BitWriter
rewrite_rbsp rbsp = do
  h ← value_of (parse_header rbsp 0)
  w ← value_of (copy empty h.vui_flag_pos rbsp 0)
  w ← vui_from rbsp h (write_bit w true)
  ok (trailing_bits w)

unfoldable pub with_bt709_full_range : Bytes → Result SpsError Bytes
unfolding rewrite_rbsp
with_bt709_full_range sps = do
  rbsp ← rbsp_of sps
  w ← rewrite_rbsp rbsp
  ok (take 1 sps ++ escape w.bytes)
