-- ===== src/Video/Annexb/Examples.antt =====
-- Witness of the AVCC conversion.
use drift.Base.{◌≡◌, refl, some, [], ◌∷◌, ok, true}
use drift.Gfx.Pdu.{Bytes}
use drift.Video.Annexb.{AccessUnit, from_annex_b, avcc_nals, split_nals, add_nals}
use drift.Video.Annexb.Samples.{pictures, avcc_nals-from_annex_b}

-- A delimiter, a parameter set and an IDR slice, with start codes of both lengths.
abbrev stream : Bytes
stream = 0 ∷ 0 ∷ 0 ∷ 1 ∷ 9 ∷ 48 ∷ 0 ∷ 0 ∷ 1 ∷ 103 ∷ 100 ∷ 0 ∷ 0 ∷ 1 ∷ 101 ∷ 136 ∷ 128 ∷ []

abbrev unit : AccessUnit
unit = record {
  sps = (103 ∷ 100 ∷ []) ∷ [];
  pps = [];
  avcc = 0 ∷ 0 ∷ 0 ∷ 3 ∷ 101 ∷ 136 ∷ 128 ∷ [];
  is_idr = true;
}

converts : from_annex_b stream ≡ ok unit
unfolding from_annex_b split_nals add_nals
converts = refl

avcc_nals-from_annex_b_example : avcc_nals unit.avcc 4 ≡ some (ok (pictures (split_nals stream)))
avcc_nals-from_annex_b_example = avcc_nals-from_annex_b stream unit converts
