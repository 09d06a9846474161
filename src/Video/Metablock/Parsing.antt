-- ===== src/Video/Metablock/Parsing.antt =====
-- The layout of an AVC420 bitmap stream (MS-RDPEGFX 2.2.4.4), and that the parser reads it.
use drift.Base.{
  ℕ, suc, ◌+◌, ◌*◌, ◌/◌, ◌%◌, ◌^◌, ◌<◌, ◌≡◌, refl, sym, ap, ◌∙◌, Bool, true, false, List, [], ◌∷◌,
  ◌++◌, length, length-append, append_assoc, drop, drop-append, arith, ltb, ◌==◌, Result, ok, ◌>>=◌,
}
use drift.Core.Geometry.{Rect, from_ltrb}
use drift.Gfx.Pdu.{Bytes}
use drift.Video.Metablock.{
  QuantQuality, MetablockError, byte_at, rect_at, rect_or, regions_from, quant_quality_at,
  qualities_from, needed_for, parse_counted, parse_avc420_bitmap_stream,
}

-- RDPGFX_RECT16.
pub record Rect16 : Type 0 where
  pub left : ℕ
  pub top : ℕ
  pub right : ℕ
  pub bottom : ℕ

pub record FitsQuality (q : QuantQuality) : Type 0 where
  pub qp : q.qp < 64

abbrev pub All {ℓ κ} : {A : Type ℓ} → (A → Type κ) → List A → Type κ
All P [] = Unit
All P (x ∷ xs) = P x × All P xs

abbrev pub rect_bytes : Rect16 → Bytes
rect_bytes r =
    r.left % 256
    ∷ r.left / 256
    ∷ r.top % 256
    ∷ r.top / 256
    ∷ r.right % 256
    ∷ r.right / 256
    ∷ r.bottom % 256
    ∷ r.bottom / 256
    ∷ []

abbrev pub flag : Bool → ℕ
flag true = 128
flag false = 0

abbrev pub quality_bytes : QuantQuality → Bytes
quality_bytes q = (q.qp + flag q.progressive) ∷ q.quality ∷ []

abbrev pub rects_bytes : List Rect16 → Bytes
rects_bytes [] = []
rects_bytes (r ∷ rs) = rect_bytes r ++ rects_bytes rs

abbrev pub qualities_bytes : List QuantQuality → Bytes
qualities_bytes [] = []
qualities_bytes (q ∷ qs) = quality_bytes q ++ qualities_bytes qs

abbrev pub count_bytes : ℕ → Bytes
count_bytes n = n % 256 ∷ n / 256 % 256 ∷ n / 65536 % 256 ∷ n / 16777216 % 256 ∷ []

-- A stream with these regions and qualities, and the pictures behind them.
abbrev pub stream : List Rect16 → List QuantQuality → Bytes → Bytes
stream rs qs payload =
    count_bytes (length rs) ++ (rects_bytes rs ++ (qualities_bytes qs ++ payload))

-- The regions as rectangles, or the first of them that is inverted.
abbrev pub rects_of : ℕ → List Rect16 → Result MetablockError (List Rect)
rects_of index [] = ok []
rects_of index (r ∷ rs) = do
  x ← rect_or (from_ltrb r.left r.top r.right r.bottom) index
  xs ← rects_of (index + 1) rs
  ok (x ∷ xs)

byte_at-append : (xs ys : Bytes) (k : ℕ) → byte_at (xs ++ ys) (length xs + k) ≡ byte_at ys k
byte_at-append [] ys k = ap (byte_at ys) (let e : 0 + k ≡ k = omega arith in e)
byte_at-append (x ∷ xs) ys k =
    ap (byte_at (x ∷ (xs ++ ys)))
      (let e : suc (length xs) + k ≡ suc (length xs + k) = omega arith in e)
    ∙ byte_at-append xs ys k

-- The same, at an offset that is known.
byte_behind :
    (xs ys : Bytes) (off k : ℕ) → off ≡ length xs + k → byte_at (xs ++ ys) off ≡ byte_at ys k
byte_behind xs ys off k e = ap (byte_at (xs ++ ys)) e ∙ byte_at-append xs ys k

u16_parts : (v : ℕ) → v % 256 + v / 256 * 256 ≡ v
u16_parts v = omega arith

rect_behind :
    (xs : Bytes) (r : Rect16) (rest : Bytes) (off : ℕ)
    → off ≡ length xs
    → rect_at (xs ++ (rect_bytes r ++ rest)) off ≡ from_ltrb r.left r.top r.right r.bottom
rect_behind xs r rest off e =
    let at = byte_behind xs (rect_bytes r ++ rest) in
    rw (
      at off 0 (omega arith),
      at (off + 1) 1 (omega arith),
      at (off + 2) 2 (omega arith),
      at (off + 2 + 1) 3 (omega arith),
      at (off + 4) 4 (omega arith),
      at (off + 4 + 1) 5 (omega arith),
      at (off + 6) 6 (omega arith),
      at (off + 6 + 1) 7 (omega arith),
      u16_parts r.left,
      u16_parts r.top,
      u16_parts r.right,
      u16_parts r.bottom,
    )

length-rects_bytes : (rs : List Rect16) → length (rects_bytes rs) ≡ length rs * 8
length-rects_bytes [] = refl
length-rects_bytes (r ∷ rs) = omega (arith, length-rects_bytes rs)

length-qualities_bytes : (qs : List QuantQuality) → length (qualities_bytes qs) ≡ length qs * 2
length-qualities_bytes [] = refl
length-qualities_bytes (q ∷ qs) = omega (arith, length-qualities_bytes qs)

regions_behind :
    (xs : Bytes) (rs : List Rect16) (rest : Bytes) (index : ℕ)
    → 4 + index * 8 ≡ length xs
    → regions_from (xs ++ (rects_bytes rs ++ rest)) (length rs) index ≡ rects_of index rs
unfolding regions_from
regions_behind xs [] rest index e = refl
regions_behind xs (r ∷ rs) rest index e =
    let more : regions_from (xs ++ (rects_bytes (r ∷ rs) ++ rest)) (length rs) (index + 1)
        ≡ rects_of (index + 1) rs =
      ap (λ bytes. regions_from bytes (length rs) (index + 1))
        (sym (append_assoc xs (rect_bytes r) (rects_bytes rs ++ rest)))
      ∙ regions_behind (xs ++ rect_bytes r) rs rest (index + 1)
          (omega (arith, length-append {0} xs (rect_bytes r))) in
    rw (rect_behind xs r (rects_bytes rs ++ rest) (4 + index * 8) e, more)

quality_behind :
    (xs : Bytes) (q : QuantQuality) (rest : Bytes) (off : ℕ)
    → off ≡ length xs
    → FitsQuality q
    → quant_quality_at (xs ++ (quality_bytes q ++ rest)) off ≡ q
quality_behind xs q rest off e fits =
    let at = byte_behind xs (quality_bytes q ++ rest) in
    rw (at off 0 (omega arith), at (off + 1) 1 (omega arith)) (unpacked q.progressive)
  where
    unpacked :
        (b : Bool)
        → ◌≡◌ {A = QuantQuality}
            (record {
              qp = (q.qp + flag b) % 64;
              progressive = (q.qp + flag b) / 128 % 2 == 1;
              quality = q.quality;
            })
            (record { qp = q.qp; progressive = b; quality = q.quality })
    unpacked true = ground (arith, fits.qp)
    unpacked false = ground (arith, fits.qp)

qualities_behind :
    (xs : Bytes) (qs : List QuantQuality) (rest : Bytes) (start index : ℕ)
    → start + index * 2 ≡ length xs
    → All FitsQuality qs
    → qualities_from (xs ++ (qualities_bytes qs ++ rest)) start (length qs) index ≡ qs
unfolding qualities_from
qualities_behind xs [] rest start index e fits = refl
qualities_behind xs (q ∷ qs) rest start index e fits =
    let more : qualities_from (xs ++ (qualities_bytes (q ∷ qs) ++ rest)) start (length qs)
          (index + 1)
        ≡ qs =
      ap (λ bytes. qualities_from bytes start (length qs) (index + 1))
        (sym (append_assoc xs (quality_bytes q) (qualities_bytes qs ++ rest)))
      ∙ qualities_behind (xs ++ quality_bytes q) qs rest start (index + 1)
          (omega (arith, length-append {0} xs (quality_bytes q))) fits.1 in
    rw (quality_behind xs q (qualities_bytes qs ++ rest) (start + index * 2) e fits.0, more)

count_lem :
    (n : ℕ)
    → n < 2 ^ 32
    → n % 256 + n / 256 % 256 * 256 + n / 65536 % 256 * 65536 + n / 16777216 % 256 * 16777216 ≡ n
count_lem n h = omega arith

enough :
    (rs : List Rect16) (qs : List QuantQuality) (payload : Bytes)
    → length qs ≡ length rs
    → ltb (length (stream rs qs payload)) (needed_for (length rs)) ≡ false
enough rs qs payload same = ground (
  arith,
  length-append {0} (rects_bytes rs) (qualities_bytes qs ++ payload),
  length-append {0} (qualities_bytes qs) payload,
  length-rects_bytes rs,
  length-qualities_bytes qs,
  same,
)

behind_metablock :
    (rs : List Rect16) (qs : List QuantQuality) (payload : Bytes)
    → length qs ≡ length rs
    → drop (needed_for (length rs)) (stream rs qs payload) ≡ payload
behind_metablock rs qs payload same =
    let front = count_bytes (length rs) ++ (rects_bytes rs ++ qualities_bytes qs) in
    let whole : stream rs qs payload ≡ front ++ payload = simp append_assoc in
    let size : needed_for (length rs) ≡ length front = omega (
      arith,
      length-append {0} (rects_bytes rs) (qualities_bytes qs),
      length-rects_bytes rs,
      length-qualities_bytes qs,
    ) in
    rw (whole, size) (drop-append front payload)

counted :
    (rs : List Rect16) (qs : List QuantQuality) (payload : Bytes)
    → length qs ≡ length rs
    → All FitsQuality qs
    → parse_counted (stream rs qs payload) (length rs)
      ≡ (rects_of 0 rs >>= λ xs. ok (record { regions = xs; quant_quality = qs }, payload))
unfolding parse_counted
counted rs qs payload same fits =
    let front = count_bytes (length rs) ++ rects_bytes rs in
    let regions =
      regions_behind (count_bytes (length rs)) rs (qualities_bytes qs ++ payload) 0 refl in
    let qualities : qualities_from (stream rs qs payload) (4 + length rs * 8) (length rs) 0 ≡ qs =
      ap (λ n. qualities_from (stream rs qs payload) (4 + length rs * 8) n 0) (sym same)
      ∙ qualities_behind front qs payload (4 + length rs * 8) 0
          (omega (arith, length-rects_bytes rs)) fits in
    rw (enough rs qs payload same, regions, qualities, behind_metablock rs qs payload same)

-- A stream as the specification lays it out, with as many qualities as regions, is parsed into its
-- regions, qualities and pictures; if a region is inverted, into the error with the first such index.
pub parse-stream :
    (rs : List Rect16) (qs : List QuantQuality) (payload : Bytes)
    → length qs ≡ length rs
    → length rs < 2 ^ 32
    → All FitsQuality qs
    → parse_avc420_bitmap_stream (stream rs qs payload)
      ≡ (rects_of 0 rs >>= λ xs. ok (record { regions = xs; quant_quality = qs }, payload))
unfolding parse_avc420_bitmap_stream
parse-stream rs qs payload same few fits =
    rw (count_lem (length rs) few) (counted rs qs payload same fits)
