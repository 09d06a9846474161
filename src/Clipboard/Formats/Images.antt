-- ===== src/Clipboard/Formats/Images.antt =====
-- crates/drift-clipboard/src/formats.rs: the images on the clipboard.
use drift.Base.{
  ℕ, zero, suc, ◌+◌, ◌-◌, ◌*◌, ◌/◌, ◌%◌, ◌^◌, min, Bool, true, false, ◌&&◌, Option, [], ◌∷◌, ◌++◌,
  ltb, ◌==◌, if◌then◌else◌, length, drop, Result, ok, err, ◌>>=◌, ◌>>◌,
}
use drift.Gfx.Pdu.{Bytes}
use drift.Input.Unicode.{Text}
use drift.Clipboard.Formats.{ClipError, too_large, invalid_image, max_clipboard_bytes, check_size}

-- The first 8 bytes of a PNG.
abbrev png_signature : Bytes
png_signature = 0x89 ∷ 0x50 ∷ 0x4E ∷ 0x47 ∷ 13 ∷ 10 ∷ 0x1A ∷ 10 ∷ []

abbrev starts_with : Bytes → Bytes → Bool
starts_with [] bytes = true
starts_with (p ∷ ps) [] = false
starts_with (p ∷ ps) (b ∷ bs) = p == b && starts_with ps bs

-- `png_passthrough`.
unfoldable pub png_passthrough : Bytes → Result ClipError Bytes
png_passthrough data' =
    check_size (length data')
    >> (if starts_with png_signature data' then ok data' else err invalid_image)

-- An `Rgba` pixel.
pub record Pixel : Type 0 where
  pub r : ℕ
  pub g : ℕ
  pub b : ℕ
  pub a : ℕ

-- The conversions of the `image` crate, and the standard library's decoder of UTF-8: a packed DIB as
-- PNG, the size of a decoded PNG, and its pixel in a column and a row.
pub record Images : Type 0 where
  pub bmp_to_png : Bytes → Result ClipError Bytes
  pub png_size : Bytes → Result ClipError (ℕ × ℕ)
  pub get_pixel : Bytes → ℕ → ℕ → Pixel
  pub utf8 : Bytes → Option Text

-- `i32::from_le_bytes` and `unsigned_abs`.
abbrev magnitude : ℕ → ℕ
magnitude v = if ltb v (2 ^ 31) then v else 2 ^ 32 - v

abbrev le_u32 : Bytes → ℕ
le_u32 (a ∷ b ∷ c ∷ d ∷ rest) = a + 256 * b + 65536 * c + 16777216 * d
le_u32 _ = 0

-- `dim`.
abbrev dim : Bytes → ℕ → ℕ
dim header at = magnitude (le_u32 (drop at header))

-- `u64::saturating_mul`.
abbrev mul_u64 : ℕ → ℕ → ℕ
mul_u64 a b = min (a * b) (2 ^ 64 - 1)

-- `to_le_bytes` of a 32-bit number.
abbrev le_32 : ℕ → Bytes
le_32 v = v % 256 ∷ v / 256 % 256 ∷ v / 65536 % 256 ∷ v / 16777216 % 256 ∷ []

-- The pixels of row `y` from column `x` on, as BGRA.
abbrev row : (ℕ → ℕ → Pixel) → ℕ → ℕ → ℕ → Bytes
row get y zero x = []
row get y (suc n) x = let p = get x y in p.b ∷ p.g ∷ p.r ∷ p.a ∷ row get y n (x + 1)

-- The rows below `h`, the last one first.
abbrev rows : (ℕ → ℕ → Pixel) → ℕ → ℕ → Bytes
rows get w zero = []
rows get w (suc y) = row get y w 0 ++ rows get w y

module _ (images : Images) where
  -- `dib_to_png`.
  unfoldable pub dib_to_png : Bytes → Result ClipError Bytes
  dib_to_png bytes =
      check_size (length bytes)
      >> (if ltb (length bytes) 40
          then err invalid_image
          else (let decoded = mul_u64 (mul_u64 (dim bytes 4) (dim bytes 8)) 4 in
              if ltb max_clipboard_bytes decoded
              then err (too_large decoded)
              else images.bmp_to_png bytes))

  -- The header and the pixels of `png_to_dib`.
  abbrev dib_bytes : ℕ → ℕ → Bytes → Bytes
  dib_bytes w h pixels =
      le_32 40
      ++ le_32 w
      ++ le_32 h
      ++ (1 ∷ 0 ∷ 32 ∷ 0 ∷ [])
      ++ le_32 0
      ++ le_32 (w * h * 4)
      ++ le_32 2835
      ++ le_32 2835
      ++ le_32 0
      ++ le_32 0
      ++ pixels

  -- `png_to_dib`.
  unfoldable pub png_to_dib : Bytes → Result ClipError Bytes
  png_to_dib bytes = do
    passed ← png_passthrough bytes
    (w, h) ← images.png_size bytes
    small ← check_size (w * h * 4)
    if ltb w (2 ^ 31) && ltb h (2 ^ 31)
        then ok (dib_bytes w h (rows (images.get_pixel bytes) w h))
        else err invalid_image
