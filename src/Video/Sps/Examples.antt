-- ===== src/Video/Sps/Examples.antt =====
-- Tests and witness of the sequence parameter set.
use drift.Base.{◌≡◌, refl, none, [], ◌∷◌, ◌++◌, take, ok}
use drift.Gfx.Pdu.{Bytes}
use drift.Video.Sps.Reader.{
  ◌>>=◌, give, fail, test_bit, bit_at, bit, bits_from, leading_zeros, ue, ue_max, se,
}
use drift.Video.Sps.Syntax.{
  to_u8, skip_values, skip_scaling_list, skip_scaling_lists, skip_offsets, high_fields, order_count,
  crop_of, plus_one, fields, extent, width_of, height_of, position, sized, parse_header, skip_if,
  skip_aspect, skip_aspect_and_overscan, read_matrix, signal_type, read_signal_type,
}
use drift.Video.Sps.Escape.{unescape, unescape_from, escape, escape_from}
use drift.Video.Sps.Writer.{set_bit, set_in_last, write_bit, write_bits, copy, align, trailing_bits}
use drift.Video.Sps.Vui.{
  write_bt709_full_range, stop_bit_position, rest_length, copy_sar, copy_aspect, copy_overscan,
  rewrite_vui, new_vui,
}
use drift.Video.Sps.{
  rbsp_of, vui_signal, parse_rbsp, rewrite_rbsp, SpsInfo, parse, with_bt709_full_range,
}
use drift.Video.Sps.Info.{in_bt709, parse-with_bt709_full_range}

-- The SPS of gnome-remote-desktop 50.2, from the tests of sps.rs: a VUI without a signal type.
abbrev grd_sps : Bytes
grd_sps =
    (0x67 ∷ 0x64 ∷ 0x0c ∷ 0x28 ∷ 0xac ∷ 0x2b ∷ 0x40 ∷ 0x28 ∷ 0x03 ∷ 0x2d ∷ 0xff ∷ 0x80 ∷ 0x00 ∷ 0x80
      ∷ [])
    ++ (0x00 ∷ 0x88 ∷ 0x00 ∷ 0x00 ∷ 0x1f ∷ 0x40 ∷ 0x00 ∷ 0x0e ∷ 0xa6 ∷ 0x00 ∷ 0x78 ∷ 0x44 ∷ 0x23
        ∷ 0x50 ∷ [])

abbrev rewritten_sps : Bytes
rewritten_sps =
    take 15 grd_sps
    ++ (183 ∷ 1 ∷ 1 ∷ 1 ∷ 64 ∷ 0 ∷ 0 ∷ 250 ∷ 0 ∷ 0 ∷ 117 ∷ 48 ∷ 3 ∷ 194 ∷ 33 ∷ 26 ∷ 128 ∷ [])

grd_info :
    parse grd_sps
    ≡ ok (record {
      profile_idc = 100;
      level_idc = 40;
      width = 1280;
      height = 800;
      full_range = none;
      matrix_coefficients = none;
    })
unfolding parse rbsp_of vui_signal parse_rbsp unescape unescape_from ◌>>=◌ give fail test_bit bit_at
    bit bits_from leading_zeros ue ue_max se to_u8 skip_values skip_scaling_list skip_scaling_lists
    skip_offsets high_fields order_count crop_of plus_one fields extent width_of height_of position
    sized parse_header skip_if skip_aspect skip_aspect_and_overscan read_matrix signal_type
    read_signal_type
grd_info = refl

grd_rewritten : with_bt709_full_range grd_sps ≡ ok rewritten_sps
unfolding with_bt709_full_range rbsp_of rewrite_rbsp unescape unescape_from escape escape_from ◌>>=◌
    give fail test_bit bit_at bit bits_from leading_zeros ue ue_max se to_u8 skip_values
    skip_scaling_list skip_scaling_lists skip_offsets high_fields order_count crop_of plus_one
    fields extent width_of height_of position sized parse_header skip_if skip_aspect
    skip_aspect_and_overscan read_matrix signal_type read_signal_type set_bit set_in_last write_bit
    write_bits copy align trailing_bits write_bt709_full_range stop_bit_position rest_length
    copy_sar copy_aspect copy_overscan rewrite_vui new_vui
grd_rewritten = refl

parse-with_bt709_full_range_example :
    (info : SpsInfo) × (parse grd_sps ≡ ok info) × (parse rewritten_sps ≡ ok (in_bt709 info))
parse-with_bt709_full_range_example =
    parse-with_bt709_full_range grd_sps rewritten_sps grd_rewritten
