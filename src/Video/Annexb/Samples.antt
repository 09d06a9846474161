-- ===== src/Video/Annexb/Samples.antt =====
-- The AVCC sample of an access unit, read back.
use drift.Base.{
  ℕ, zero, suc, ◌+◌, ◌^◌, ◌≤◌, ◌<◌, ◌≡◌, refl, sym, ap, ◌∙◌, Bool, true, false, ◌&&◌, ◌||◌, Option,
  none, some, List, [], ◌∷◌, ◌++◌, append_assoc, append-nil, ltb, if◌then◌else◌, length,
  length-append, length-drop, is_some, take, drop, take-append, drop-append, Result, ok, err, arith,
  Bool-cases, inl, inr,
}
use drift.Gfx.Pdu.{Bytes}
use drift.Video.Annexb.{
  AnnexBError, nal_unit_type, has_type, aud, sps_type, pps_type, idr, be_32, be_value, AccessUnit,
  no_unit, add_nals, from_annex_b, unit_of, split_nals, with_nal, avcc_loop, avcc_nals,
  length_size_of,
}

-- A delimiter or a parameter set.
abbrev is_extra : Option ℕ → Bool
is_extra t = has_type aud t || has_type sps_type t || has_type pps_type t

-- The other NAL units, in their order.
abbrev pub pictures : List Bytes → List Bytes
pictures [] = []
pictures (n ∷ ns) = let rest = pictures ns in if is_extra (nal_unit_type n) then rest else n ∷ rest

abbrev prefixed : List Bytes → Bytes
prefixed [] = []
prefixed (n ∷ ns) = be_32 (length n) ++ n ++ prefixed ns

abbrev all_small : List Bytes → Bool
all_small [] = true
all_small (n ∷ ns) = ltb (length n) (2 ^ 32) && all_small ns

be_value-be_32 : (v : ℕ) → v < 2 ^ 32 → be_value 0 (be_32 v) ≡ v
be_value-be_32 v h = omega arith

avcc_loop-prefixed :
    (fuel offset : ℕ) (ns : List Bytes)
    → length (prefixed ns) ≤ fuel
    → all_small ns ≡ true
    → avcc_loop fuel 4 offset (prefixed ns) ≡ some (ok ns)
unfolding avcc_loop
avcc_loop-prefixed fuel offset [] h s = refl
avcc_loop-prefixed zero offset (n ∷ ns) h s = absurd (omega (arith, h))
avcc_loop-prefixed (suc fuel) offset (n ∷ ns) h s =
    let rest = prefixed ns in
    let small : length n < 2 ^ 32 = ground (arith, s) in
    let long : ltb (length n + length rest) (length n) ≡ false = ground arith in
    let size : ltb (suc (suc (suc (suc (length (n ++ rest)))))) 4 ≡ false = ground arith in
    let more =
      avcc_loop-prefixed fuel (offset + 4 + length n) ns (omega (arith, h, length-append n rest))
        (ground (arith, s)) in
    rw
      (
        size,
        be_value-be_32 (length n) small,
        length-append n rest,
        long,
        take-append n rest,
        drop-append n rest,
        more,
      )
      refl

add_nals_reads :
    (au au' : AccessUnit) (ns : List Bytes)
    → add_nals au ns ≡ ok au'
    → (au'.avcc ≡ au.avcc ++ prefixed (pictures ns)) × (all_small (pictures ns) ≡ true)
unfolding add_nals
add_nals_reads au au' [] h =
    let same : au' ≡ au = ground (arith, h) in
    (ap (λ x. x.avcc) same ∙ sym (append-nil au.avcc), refl)
add_nals_reads au au' (n ∷ ns) h =
    let t = nal_unit_type n in
    elim (Bool-cases (has_type aud t)) [
      | inl a ↦ rw a (add_nals_reads au au' ns (ground (arith, h, a)))
      | inr a ↦ elim (Bool-cases (has_type sps_type t)) [
        | inl b ↦
            rw (a, b)
              (add_nals_reads (record au { sps = au.sps ++ (n ∷ []) }) au' ns
                (ground (arith, h, a, b)))
        | inr b ↦ elim (Bool-cases (has_type pps_type t)) [
          | inl c ↦
              rw (a, b, c)
                (add_nals_reads (record au { pps = au.pps ++ (n ∷ []) }) au' ns
                  (ground (arith, h, a, b, c)))
          | inr c ↦ elim (Bool-cases (ltb (length n) (2 ^ 32))) [
            | inl d ↦
                (let with_picture : AccessUnit = record au {
                  is_idr = au.is_idr || has_type idr t;
                  avcc = au.avcc ++ be_32 (length n) ++ n;
                } in
                  let (e, k) = add_nals_reads with_picture au' ns (ground (arith, h, a, b, c, d)) in
                  rw (a, b, c)
                    (
                      e
                          ∙ append_assoc (au.avcc ++ be_32 (length n)) n (prefixed (pictures ns))
                          ∙ append_assoc au.avcc (be_32 (length n)) (n ++ prefixed (pictures ns)),
                      ground (arith, d, k),
                    ))
            | inr d ↦ absurd (ground (arith, h, a, b, c, d))
          ]
        ]
      ]
    ]

unit_reads :
    (ns : List Bytes) (au : AccessUnit)
    → unit_of ns ≡ ok au
    → (au.avcc ≡ prefixed (pictures ns)) × (all_small (pictures ns) ≡ true)
unit_reads [] au h = absurd cc
unit_reads (n ∷ ns) au h = add_nals_reads no_unit au (n ∷ ns) h

-- If an Annex-B stream converts to an access unit, its AVCC sample reads back, with 4-byte lengths, as
-- the NAL units of the stream that are no delimiters and no parameter sets, in their order.
pub avcc_nals-from_annex_b :
    (bytes : Bytes) (au : AccessUnit)
    → from_annex_b bytes ≡ ok au
    → avcc_nals au.avcc 4 ≡ some (ok (pictures (split_nals bytes)))
unfolding from_annex_b avcc_nals
avcc_nals-from_annex_b bytes au h =
    let (e, small) = unit_reads (split_nals bytes) au h in
    let ns = pictures (split_nals bytes) in
    ap (λ b. avcc_loop (length b) 4 0 b) e
    ∙ avcc_loop-prefixed (length (prefixed ns)) 0 ns (omega arith) small

with_nal_ends :
    (n : Bytes) (r : Option (Result AnnexBError (List Bytes))) → is_some (with_nal n r) ≡ is_some r
with_nal_ends n none = refl
with_nal_ends n (some (ok ns)) = refl
with_nal_ends n (some (err e)) = refl

avcc_loop_ends :
    (fuel size offset : ℕ) (bytes : Bytes)
    → 1 ≤ size
    → length bytes ≤ fuel
    → is_some (avcc_loop fuel size offset bytes) ≡ true
unfolding avcc_loop
avcc_loop_ends fuel size offset [] s h = refl
avcc_loop_ends zero size offset (b ∷ bs) s h = absurd (omega (arith, h))
avcc_loop_ends (suc fuel) size offset (b ∷ bs) s h =
    let bytes = b ∷ bs in
    let len = be_value 0 (take size bytes) in
    let body = drop size bytes in
    let shorter : length (drop len body) ≤ fuel =
      omega (arith, length-drop len body, length-drop size bytes, h, s) in
    ground (
      arith,
      with_nal_ends (take len body) (avcc_loop fuel size (offset + size + len) (drop len body)),
      avcc_loop_ends fuel size (offset + size + len) (drop len body) s shorter,
    )

-- The loop over an AVCC sample ends with a result on any bytes and any length size.
pub avcc_nals_ends : (bytes : Bytes) (n : ℕ) → is_some (avcc_nals bytes n) ≡ true
unfolding avcc_nals
avcc_nals_ends bytes n =
    avcc_loop_ends (length bytes) (length_size_of n) 0 bytes (ground arith) (omega arith)
