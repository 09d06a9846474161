-- ===== src/Codec/Progressive/Blocks.antt =====
-- What progressive.rs uses of IronRDP: the blocks of a stream, and the decoder of one tile.
use drift.Base.{ℕ, Bool, Option, List}
use drift.Base.Int.{ℤ}
use drift.Gfx.Pdu.{Bytes}

-- InclusiveRectangle.
pub record Inclusive : Type 0 where
  pub left : ℕ
  pub top : ℕ
  pub right : ℕ
  pub bottom : ℕ

-- A rectangle of a REGION.
pub record RegionRect : Type 0 where
  pub x : ℕ
  pub y : ℕ
  pub width : ℕ
  pub height : ℕ

-- One value for each of Y, Cb and Cr.
pub record Triple (A : Type 0) : Type 0 where
  pub y : A
  pub cb : A
  pub cr : A

-- TILE_SIMPLE and TILE_FIRST share these fields; a quality is only in the second.
pub record FirstBlock : Type 0 where
  pub difference : Bool
  pub quant_idx : Triple ℕ
  pub streams : Triple Bytes
  pub quality : Option ℕ

pub record UpgradeBlock : Type 0 where
  pub quality : ℕ
  pub srl : Triple Bytes
  pub raw : Triple Bytes

pub data TileBlock : Type 0 where
  first : FirstBlock → TileBlock
  upgrade : UpgradeBlock → TileBlock

pub record ProgressiveTile : Type 0 where
  pub x_idx : ℕ
  pub y_idx : ℕ
  pub block : TileBlock

-- ComponentCodecQuant is a parameter.
pub record ProgressiveRegion (Quant : Type 0) : Type 0 where
  pub rects : List RegionRect
  pub quant_vals : List Quant
  pub quant_prog_vals : List (Triple Quant)
  pub tiles : List ProgressiveTile

pub data ProgressiveBlock (Quant : Type 0) : Type 0 where
  context : Bool → ProgressiveBlock Quant
  frame_begin frame_end other : ProgressiveBlock Quant
  region : ProgressiveRegion Quant → ProgressiveBlock Quant

-- The coefficients of the three components.
abbrev pub Coeffs : Type 0
Coeffs = List (List ℤ)

-- `Pass`.
pub data Pass (Quant : Type 0) : Type 0 where
  first_pass : Triple Bytes → Triple Quant → Triple Quant → Triple ℕ → ℕ → Bool → Pass Quant
  upgrade_pass : Triple Bytes → Triple Bytes → Triple Quant → ℕ → Pass Quant

-- SurfaceTiles: the slots of a grid, by rows.
pub record SurfaceTiles (TileState : Type 0) : Type 0 where
  pub tiles_wide : ℕ
  pub tiles_high : ℕ
  pub use_reduce_extrapolate : Bool
  pub tiles : List (Option TileState)

-- The crates ironrdp-graphics and ironrdp-pdu. The decoding of a pass returns the state also when it
-- fails, with whether it succeeded.
pub record Iron : Type 1 where
  pub Quant : Type 0
  pub lossless : Quant
  pub TileState : Type 0
  pub new_tile : Bool → TileState
  pub pass : TileState → ℕ
  pub coefficients : TileState → Coeffs
  pub with_difference : TileState → Coeffs → TileState
  pub decode_first :
      TileState
      → Triple Bytes
      → Triple Quant
      → Triple Quant
      → Triple ℕ
      → ℕ
      → Bool
      → TileState × Bool
  pub decode_upgrade : TileState → Triple Bytes → Triple Bytes → Triple Quant → ℕ → TileState × Bool
  pub reconstruct_to_rgba : TileState → Bytes
  -- MAX_SURFACE_DIM, which fits u16.
  pub max_surface_dim : ℕ
  pub new_tiles : ℕ → ℕ → Bool → Option (SurfaceTiles TileState)
  pub decode_progressive_stream : Bytes → Option (List (ProgressiveBlock Quant))
  pub Region : Type 0
  pub new_region : Region
  pub rectangles : Region → List Inclusive
  pub union_rectangle : Region → Inclusive → Region
  pub intersect_rectangle : Region → Inclusive → Region
