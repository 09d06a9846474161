-- ===== src/Video/Sps/Info.antt =====
-- What the rewritten SPS says.
use drift.Base.{
  ℕ, ◌+◌, ◌%◌, ◌≡◌, refl, sym, ap, subst, ◌∙◌, Bool, true, Option, none, some, List, [], ◌∷◌, ◌++◌,
  length, length-append, append_assoc, arith, ◌==◌, Bool-cases, inl, inr, ok, bind_parts,
}
use drift.Gfx.Pdu.{Bytes}
use drift.Video.Annexb.{sps_type}
use drift.Video.Sps.Writer.{BitWriter, empty, write_bit, copy, trailing_bits}
use drift.Video.Sps.Escape.{escape, unescape, unescape-escape}
use drift.Video.Sps.Syntax.{
  Header, SignalType, parse_header, skip_aspect_and_overscan, read_signal_type,
}
use drift.Video.Sps.Streams.{Takes, HasBits, HasBits-split, HasBits-unique, Takes-bind}
use drift.Video.Sps.Written.{Holds, Holds-empty, write_bit-Holds}
use drift.Video.Sps.Copied.{copy-Copied}
use drift.Video.Sps.Signal.{signal_bits, bt709, read_signal_type-Takes}
use drift.Video.Sps.Headed.{Headed, parse_header_lem}
use drift.Video.Sps.Rewritten.{VuiWritten, vui_lem, value_of-eq-ok, trailing_bits-Holds}
use drift.Video.Sps.{
  SpsInfo, rbsp_of, value_of, vui_signal, info_of, with_signal, info_from, parse_rbsp, parse,
  vui_from, rewrite_rbsp, with_bt709_full_range,
}

-- The information with the signal type of BT.709 full range.
abbrev pub in_bt709 : SpsInfo → SpsInfo
in_bt709 info = record info { full_range = some true; matrix_coefficients = some 1 }

in_bt709_lem :
    (h : Header) (old : Option SignalType)
    → with_signal (info_of h) (some bt709) ≡ in_bt709 (with_signal (info_of h) old)
in_bt709_lem h none = refl
in_bt709_lem h (some s) = refl

info_of_written :
    (d : Bytes) (h : Header) (pre xs : List Bool)
    → HasBits d (length xs + 1) (pre ++ signal_bits)
    → h.vui_flag_pos ≡ length xs
    → Takes skip_aspect_and_overscan pre tt
    → info_from d (record h { vui_present = true }) ≡ ok (with_signal (info_of h) (some bt709))
unfolding vui_signal
info_of_written d h pre xs has reach skipped =
    let k =
      Takes-bind skip_aspect_and_overscan (λ _. read_signal_type) pre signal_bits tt (some bt709)
        skipped read_signal_type-Takes in
    rw (reach, k d (length xs + 1) has)

-- The rewritten bits are parsed.
rewritten_bits :
    (d : Bytes) (h : Header) (w' : BitWriter) (headed : Headed d h)
    → VuiWritten d h w' (headed.xs ++ true ∷ [])
    → (info : SpsInfo) × (info_from d h ≡ ok info)
      × (parse_rbsp (trailing_bits w').bytes ≡ ok (in_bt709 info))
unfolding parse_rbsp
rewritten_bits d h w' headed v =
    let (ys, full) = trailing_bits-Holds w' _ v.holds in
    let new = (trailing_bits w').bytes in
    let vui = v.pre ++ (signal_bits ++ v.post) in
    let front = (HasBits-split new 0 ((headed.xs ++ true ∷ []) ++ vui) ys full.has).0 in
    let (flagged, behind) = HasBits-split new 0 (headed.xs ++ true ∷ []) vui front in
    let signal =
      (HasBits-split new (length headed.xs + 1) (v.pre ++ signal_bits) v.post (
        subst (HasBits new (length headed.xs + 1)) (sym (append_assoc v.pre signal_bits v.post)) (
          subst (λ n. HasBits new n vui) (omega (arith, length-append {0} headed.xs (true ∷ [])))
            behind))).0 in
    (
      with_signal (info_of h) v.old,
      v.info,
      rw (headed.again new flagged) (
          info_of_written new h v.pre headed.xs signal headed.reach v.skipped
          ∙ ap ok (in_bt709_lem h v.old)),
    )

-- The copied header has the bits that were parsed.
copied_header :
    (d : Bytes) (h : Header) (w : BitWriter) (r : ℕ) (headed : Headed d h)
    → copy empty h.vui_flag_pos d 0 ≡ ok (w, r)
    → Holds w headed.xs
copied_header d h w r headed e =
    let (c, reach) = copy-Copied h.vui_flag_pos empty d 0 w r [] Holds-empty e in
    subst (Holds w)
      (HasBits-unique d 0 c.taken headed.xs c.has headed.has
        (omega (arith, c.reach, reach, headed.reach)))
      c.holds

rewrite_rbsp_lem :
    (d : Bytes) (w : BitWriter)
    → rewrite_rbsp d ≡ ok w
    → (info : SpsInfo) × (parse_rbsp d ≡ ok info) × (parse_rbsp w.bytes ≡ ok (in_bt709 info))
unfolding rewrite_rbsp parse_rbsp
rewrite_rbsp_lem d w e =
    let (h, e1, r1) = bind_parts (value_of (parse_header d 0)) _ w e in
    let (w1, e2, r2) = bind_parts (value_of (copy empty h.vui_flag_pos d 0)) _ w r1 in
    let (w2, e3, r3) =
      bind_parts (vui_from d h (write_bit w1 true)) (λ w. ok (trailing_bits w)) w r2 in
    let (q, read) = value_of-eq-ok (parse_header d 0) h e1 in
    let (r, copied) = value_of-eq-ok (copy empty h.vui_flag_pos d 0) w1 e2 in
    let headed = parse_header_lem d h q read in
    let holds = write_bit-Holds w1 true headed.xs (copied_header d h w1 r headed copied) in
    let (info, old, new) =
      rewritten_bits d h w2 headed
        (vui_lem d h (write_bit w1 true) w2 (headed.xs ++ true ∷ []) holds e3) in
    let same : trailing_bits w2 ≡ w = ground (arith, r3) in
    (info, parsed d h info e1 old, subst (λ v. parse_rbsp v.bytes ≡ ok (in_bt709 info)) same new)
  where
    parsed :
        (d : Bytes) (h : Header) (info : SpsInfo)
        → value_of (parse_header d 0) ≡ ok h
        → info_from d h ≡ ok info
        → parse_rbsp d ≡ ok info
    parsed d h info e1 e2 = rw e1 e2

-- Whatever SPS is rewritten, it parses, and the rewritten one parses too and says the same, but for the
-- full range and the matrix of BT.709.
pub parse-with_bt709_full_range :
    (sps out : Bytes)
    → with_bt709_full_range sps ≡ ok out
    → (info : SpsInfo) × (parse sps ≡ ok info) × (parse out ≡ ok (in_bt709 info))
unfolding with_bt709_full_range parse rbsp_of
parse-with_bt709_full_range [] out e = absurd cc
parse-with_bt709_full_range (b ∷ bs) out e = elim (Bool-cases (b % 32 == sps_type)) [
  | inr other ↦ absurd (ground (arith, e, other))
  | inl sps ↦
      let (w, e1, e2) =
        bind_parts (rewrite_rbsp (unescape bs)) (λ w. ok (b ∷ escape w.bytes)) out (rw sps at e) in
      let (info, old, new) = rewrite_rbsp_lem (unescape bs) w e1 in
      let same : b ∷ escape w.bytes ≡ out = ground (arith, e2) in
      (
        info,
        rw sps old,
        subst (λ l. parse l ≡ ok (in_bt709 info)) same (rw (sps, unescape-escape w.bytes) new),
      )
]
