-- ===== src/Codec/Progressive/Running.antt =====
-- crates/drift-codec/src/progressive.rs: `run`, which decodes one tile.
use drift.Base.{
  ◌+◌, ◌-◌, Bool, true, false, Option, none, some, List, [], ◌∷◌, ltb, if◌then◌else◌, Result, ok,
  err, min,
}
use drift.Base.Int.{ℤ, pos, negsuc}
use drift.Gfx.Pdu.{Bytes}
use drift.Codec.Progressive.Blocks.{Iron, Coeffs, Pass, first_pass, upgrade_pass}
use drift.Codec.Tile.{CodecError, malformed}
use drift.Codec.Progressive.Rounds.{TileKey}
use drift.Codec.Progressive.Tiles.{Job}

-- `i16::saturating_add`.
abbrev clamped : ℤ → ℤ
clamped (pos n) = pos (min n 32767)
clamped (negsuc n) = negsuc (min n 32767)

abbrev plus : ℤ → ℤ → ℤ
plus (pos a) (pos b) = pos (a + b)
plus (negsuc a) (negsuc b) = negsuc (a + b + 1)
plus (pos a) (negsuc b) = if ltb b a then pos (a - b - 1) else negsuc (b - a)
plus (negsuc a) (pos b) = if ltb a b then pos (b - a - 1) else negsuc (a - b)

abbrev pub saturating_add_i16 : ℤ → ℤ → ℤ
saturating_add_i16 a b = clamped (plus a b)

-- The loops over two sequences at once, which change the first one.
abbrev zip_with : {A B : Type 0} → (A → B → A) → List A → List B → List A
zip_with f [] ys = []
zip_with f (x ∷ xs) [] = x ∷ xs
zip_with f (x ∷ xs) (y ∷ ys) = f x y ∷ zip_with f xs ys

unfoldable pub add_reference : Coeffs → Coeffs → Coeffs
add_reference = zip_with (zip_with saturating_add_i16)

module _ (iron : Iron) where
  open iron use {
    Quant, lossless, TileState, new_tile, pass, coefficients, with_difference, decode_first,
    decode_upgrade, reconstruct_to_rgba,
  }

  abbrev pub swizzled : Bytes → Bytes
  swizzled (r ∷ g ∷ b ∷ a ∷ more) = b ∷ g ∷ r ∷ a ∷ swizzled more
  swizzled _ = []

  unfoldable pub render_bgra : TileState → Bytes
  render_bgra s = swizzled (reconstruct_to_rgba s)

  -- A difference is added to the reference of the job.
  abbrev differed : TileState → Bool → Option Coeffs → TileState × Bool
  differed s false reference = (s, true)
  differed s true none = (s, false)
  differed s true (some c) = (with_difference s (add_reference (coefficients s) c), true)

  abbrev after_first : TileState × Bool → Bool → Option Coeffs → TileState × Bool
  after_first (s, false) difference reference = (s, false)
  after_first (s, true) difference reference = differed s difference reference

  abbrev pub passed : TileState → Pass Quant → Option Coeffs → Bool → TileState × Bool
  passed s (first_pass streams base prog quant_idx quality difference) reference extrapolate =
      after_first (decode_first s streams base prog quant_idx quality extrapolate) difference
        reference
  passed s (upgrade_pass srl raw prog quality) reference extrapolate =
      decode_upgrade s srl raw prog quality

  abbrev pub finished : Job iron → TileState × Bool → Job iron × Result CodecError (TileKey × Bytes)
  finished job (s, false) = (record job { state = s }, err malformed)
  finished job (s, true) =
      (record job { state = s; reference = some (coefficients s) }, ok (job.key, render_bgra s))

  unfoldable pub run : Job iron → Bool → Job iron × Result CodecError (TileKey × Bytes)
  run job extrapolate = finished job (passed job.state job.work job.reference extrapolate)
