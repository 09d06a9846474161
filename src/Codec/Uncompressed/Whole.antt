-- ===== src/Codec/Uncompressed/Whole.antt =====
-- An uncompressed payload fills its destination.
use drift.Base.{
  get_elem?, zero, suc, ◌%◌, Option, none, some, sym, Option-cases, ℕ, ◌*◌, ◌<◌, ◌≡◌, refl, ap,
  subst, ◌∙◌, Bool, ◌&&◌, [], ◌∷◌, ltb, leb, ◌==◌, if◌then◌else◌, length, drop, arith, ok, err,
  bind_parts, Bool-cases, inl, inr,
}
use drift.Core.Geometry.{Rect}
use drift.Gfx.Pdu.{Bytes}
use drift.Gfx.Sink.{Blit}
use drift.Codec.Tile.{
  size_mismatch, BgraTile, full, start_of, blits, validate_dest, max_dest_pixels,
}
use drift.Codec.Blits.{blit_at, blits-map, HasRows}
use drift.Codec.Uncompressed.{
  UncompressedFormat, xrgb, argb, opaque_pixels, pixels_in, decode_uncompressed,
}

length-opaque_pixels : (px : Bytes) → length (opaque_pixels px) ≡ length px
unfolding opaque_pixels
length-opaque_pixels [] = refl
length-opaque_pixels (b ∷ []) = refl
length-opaque_pixels (b ∷ g ∷ []) = refl
length-opaque_pixels (b ∷ g ∷ r ∷ []) = refl
length-opaque_pixels (b ∷ g ∷ r ∷ a ∷ px) = omega (arith, length-opaque_pixels px)

length-pixels_in :
    (format : UncompressedFormat) (px : Bytes) → length (pixels_in format px) ≡ length px
length-pixels_in xrgb px = length-opaque_pixels px
length-pixels_in argb px = refl

-- The rectangles that `validate_dest` accepts.
abbrev pub is_valid : Rect → Bool
is_valid r =
    leb r.width 65535
    && leb r.height 65535
    && ltb 0 r.width
    && ltb 0 r.height
    && leb (r.width * r.height) max_dest_pixels

-- The blit of all the pixels.
abbrev pub whole : Rect → Bytes → Blit
whole dest px = record { rect = dest; stride = dest.width * 4; pixels = px }

blits-full :
    (dest : Rect) (px : Bytes)
    → 0 < dest.width
    → 0 < dest.height
    → length px ≡ dest.width * dest.height * 4
    → (blits (full dest px) ≡ whole dest px ∷ []) × HasRows (whole dest px)
blits-full dest px w h filled =
    let found = blits-map (full dest px) filled (
      record {
        left = omega arith;
        top = omega arith;
        right = omega arith;
        bottom = omega arith;
        wide = w;
        high = h;
      },
      tt,
    ) in
    let start : start_of (full dest px) dest ≡ 0 = ground arith in
    let whole_blit : blit_at (full dest px) dest ≡ whole dest px =
      ap (λ n. whole dest (drop n px)) start in
    (found.0 ∙ ap (λ b. b ∷ []) whole_blit, subst HasRows whole_blit found.1.0)

valid_dest :
    (dest : Rect) (wh : ℕ × ℕ)
    → validate_dest dest ≡ ok wh
    → (0 < dest.width) × (0 < dest.height) × (wh ≡ (dest.width, dest.height))
unfolding validate_dest
valid_dest dest wh e = elim (Bool-cases (is_valid dest)) [
  | inl v ↦ (ground (arith, v), ground (arith, v), cc (rw v at e))
  | inr v ↦ absurd (cc (rw v at e))
]

-- Byte `i` of the picture, where byte `i` of the payload is `b`: the fourth byte of each pixel is
-- 255 if the format has no alpha.
abbrev pub shown_byte : UncompressedFormat → ℕ → ℕ → ℕ
shown_byte xrgb i b = if i % 4 == 3 then 255 else b
shown_byte argb i b = b

abbrev pub shown_at : UncompressedFormat → ℕ → Option ℕ → Option ℕ
shown_at format i none = none
shown_at format i (some b) = some (shown_byte format i b)

shown_later : (i : ℕ) (o : Option ℕ) → shown_at xrgb i o ≡ shown_at xrgb (suc (suc (suc (suc i)))) o
shown_later i none = refl
shown_later i (some b) =
    let same : suc (suc (suc (suc i))) % 4 ≡ i % 4 = omega arith in
    ap (λ k. some (if k == 3 then 255 else b)) (sym same)

get_elem?-opaque_pixels :
    (n : ℕ) (px : Bytes) (i : ℕ)
    → length px ≡ n * 4
    → get_elem? (opaque_pixels px) i ≡ shown_at xrgb i (get_elem? px i)
unfolding opaque_pixels
get_elem?-opaque_pixels zero [] i h = refl
get_elem?-opaque_pixels zero (b ∷ px) i h = absurd (omega arith)
get_elem?-opaque_pixels (suc n) [] i h = absurd (omega arith)
get_elem?-opaque_pixels (suc n) (b ∷ []) i h = absurd (omega arith)
get_elem?-opaque_pixels (suc n) (b ∷ g ∷ []) i h = absurd (omega arith)
get_elem?-opaque_pixels (suc n) (b ∷ g ∷ r ∷ []) i h = absurd (omega arith)
get_elem?-opaque_pixels (suc n) (b ∷ g ∷ r ∷ a ∷ px) zero h = refl
get_elem?-opaque_pixels (suc n) (b ∷ g ∷ r ∷ a ∷ px) (suc zero) h = refl
get_elem?-opaque_pixels (suc n) (b ∷ g ∷ r ∷ a ∷ px) (suc (suc zero)) h = refl
get_elem?-opaque_pixels (suc n) (b ∷ g ∷ r ∷ a ∷ px) (suc (suc (suc zero))) h = refl
get_elem?-opaque_pixels (suc n) (b ∷ g ∷ r ∷ a ∷ px) (suc (suc (suc (suc i)))) h =
    get_elem?-opaque_pixels n px i (omega arith) ∙ shown_later i (get_elem? px i)

get_elem?-pixels_in :
    (n : ℕ) (format : UncompressedFormat) (px : Bytes) (i : ℕ)
    → length px ≡ n * 4
    → get_elem? (pixels_in format px) i ≡ shown_at format i (get_elem? px i)
get_elem?-pixels_in n xrgb px i h = get_elem?-opaque_pixels n px i h
get_elem?-pixels_in n argb px i h = elim (Option-cases (get_elem? px i)) [
  | inl e ↦ rw e refl
  | inr (b, e) ↦ rw e refl
]

-- The blit of a whole picture, made of a payload.
pub record IsPicture (dest : Rect) (format : UncompressedFormat) (px : Bytes) (b : Blit)
    : Type 0 where
  pub place : b.rect ≡ dest
  pub row : b.stride ≡ dest.width * 4
  pub same_length : length b.pixels ≡ length px
  pub bytes : (i : ℕ) → get_elem? b.pixels i ≡ shown_at format i (get_elem? px i)
  pub rows : HasRows b

accepted :
    (dest : Rect) (format : UncompressedFormat) (px : Bytes) (t : BgraTile)
    → decode_uncompressed dest format px ≡ ok t
    → (full dest (pixels_in format px) ≡ t)
      × (length px ≡ dest.width * dest.height * 4)
      × (0 < dest.width)
      × (0 < dest.height)
unfolding decode_uncompressed
accepted dest format px t e =
    let (wh, valid, rest) =
      bind_parts (validate_dest dest)
        (λ wh.
          if length px == wh.0 * wh.1 * 4
          then ok (full dest (pixels_in format px))
          else err (size_mismatch (wh.0 * wh.1 * 4) (length px)))
        t e in
    let (wide, high, same) = valid_dest dest wh valid in
    elim (Bool-cases (length px == wh.0 * wh.1 * 4)) [
      | inr n ↦ absurd (cc (rw n at rest))
      | inl y ↦ (cc (rw y at rest), ground (arith, y) ∙ ap (λ s. s.0 * s.1 * 4) same, wide, high)
    ]

-- A payload that is accepted is blitted in one piece, over its destination and in its rows. The blit
-- has the bytes of all its rows and as many as the payload; each of them is that of the payload, but the
-- fourth of a pixel is 255 if the format has no alpha.
pub blits-decode_uncompressed :
    (dest : Rect) (format : UncompressedFormat) (px : Bytes) (t : BgraTile)
    → decode_uncompressed dest format px ≡ ok t
    → (b : Blit) × (blits t ≡ b ∷ []) × IsPicture dest format px b
blits-decode_uncompressed dest format px t e =
    let (made, filled, wide, high) = accepted dest format px t e in
    let shown = pixels_in format px in
    let (one, rows) = blits-full dest shown wide high (length-pixels_in format px ∙ filled) in
    (
      whole dest shown,
      subst (λ t. blits t ≡ whole dest shown ∷ []) made one,
      record {
        place = refl;
        row = refl;
        same_length = length-pixels_in format px;
        bytes = λ i. get_elem?-pixels_in (dest.width * dest.height) format px i filled;
        rows = rows;
      },
    )
