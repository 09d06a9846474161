-- ===== src/Gfx/State.antt =====
-- crates/drift-gfx/src/state.rs and src/error.rs: surfaces, cache slots and the rectangle checks.
-- Ids and slots are u16. Details of an error that are only texts are left out.
pub mod Bounds
mod Examples
use drift.Base.{
  ℕ, ◌+◌, min, Bool, true, false, not, ◌&&◌, ◌||◌, Option, none, some, List, [], ◌∷◌, ltb, leb,
  ◌==◌, is_some, if◌then◌else◌, Result, ok, err, ok_or, ◌>>=◌, ◌>>◌,
}
use drift.Base.Maps.{BTreeMap, nat_key}
use drift.Base.Maps
use drift.Core.Geometry.{Size, Point, Rect, from_ltrb, right, bottom, is_empty, fits_within}

abbrev pub max_cache_slots : ℕ
max_cache_slots = 25600

-- `ironrdp_egfx::pdu::PixelFormat`: the two formats that the source distinguishes.
pub data PixelFormat : Type 0 where
  xrgb argb : PixelFormat

pub record Surface : Type 0 where
  pub size : Size ℕ
  pub format : PixelFormat

-- The texts of `OutOfBounds`.
pub data What : Type 0 where
  source destination : What

-- The causes of `GfxError::Decode`; `D` is what the third-party decoders report.
pub data Fault (D : Type 0) : Type 0 where
  inverted_rectangle truncated_header : Fault D
  length_outside : ℕ → Fault D
  malformed : D → Fault D

-- `GfxError`.
pub data GfxError (D : Type 0) : Type 0 where
  zgfx : D → GfxError D
  decode : Fault D → GfxError D
  unsupported_codec : GfxError D
  unexpected_pdu : GfxError D
  unknown_surface : ℕ → GfxError D
  invalid_surface : ℕ → GfxError D
  out_of_bounds : ℕ → What → GfxError D
  invalid_cache_slot : ℕ → GfxError D
  codec : D → GfxError D
  h264 : D → GfxError D

pub record GfxState : Type 0 where
  pub surfaces : BTreeMap ℕ Surface
  pub cache : BTreeMap ℕ (Size ℕ)

-- `GfxState::default`.
abbrev pub initial : GfxState
initial = record { surfaces = []; cache = [] }

-- `GfxState::reset`: the empty state and the ids of the dropped surfaces.
unfoldable pub reset : GfxState → GfxState × List ℕ
reset s = (initial, Maps.keys s.surfaces)

module _ {D : Type 0} where
  -- `GfxState::create`.
  unfoldable pub create : GfxState → ℕ → Size ℕ → PixelFormat → Result (GfxError D) GfxState
  create s id size format =
      if size.width == 0 || size.height == 0
      then err (invalid_surface id)
      else if Maps.contains_key id s.surfaces
      then err (invalid_surface id)
      else ok (record s {
        surfaces = Maps.insert id (record { size = size; format = format }) s.surfaces;
      })

  -- `GfxState::surface`.
  unfoldable pub surface : GfxState → ℕ → Result (GfxError D) Surface
  surface s id = ok_or (Maps.get id s.surfaces) (unknown_surface id)

  -- `GfxState::check_slot`.
  unfoldable pub check_slot : ℕ → Result (GfxError D) (Unit {0})
  check_slot slot =
      if slot == 0 || ltb max_cache_slots slot then err (invalid_cache_slot slot) else ok tt

  -- `GfxState::cache_store`.
  unfoldable pub cache_store : GfxState → ℕ → Size ℕ → Result (GfxError D) GfxState
  unfolding check_slot
  cache_store s slot size = do
    check_slot slot
    ok (record s { cache = Maps.insert slot size s.cache })

  -- `GfxState::cache_entry`.
  unfoldable pub cache_entry : GfxState → ℕ → Result (GfxError D) (Size ℕ)
  cache_entry s slot = ok_or (Maps.get slot s.cache) (invalid_cache_slot slot)

  -- `GfxState::cache_evict`.
  unfoldable pub cache_evict : GfxState → ℕ → Result (GfxError D) (GfxState × Bool)
  unfolding check_slot
  cache_evict s slot = do
    check_slot slot
    ok (record s { cache = Maps.remove slot s.cache }, is_some (Maps.get slot s.cache))

  -- `rect`, from the four exclusive edges of an `RDPGFX_RECT16`.
  unfoldable pub rect : ℕ → ℕ → ℕ → ℕ → Result (GfxError D) Rect
  rect left top right' bottom' =
      ok_or (from_ltrb left top right' bottom') (decode inverted_rectangle)

  -- `ensure_within`.
  unfoldable pub ensure_within : ℕ → Size ℕ → Rect → What → Result (GfxError D) (Unit {0})
  ensure_within id bounds r what =
      if fits_within r bounds then ok tt else err (out_of_bounds id what)

-- `GfxState::delete`.
unfoldable pub delete : GfxState → ℕ → GfxState × Bool
delete s id = (record s { surfaces = Maps.remove id s.surfaces }, is_some (Maps.get id s.surfaces))

abbrev non_empty : Option Rect → Option Rect
non_empty none = none
non_empty (some r) = if is_empty r then none else some r

-- `clip`.
unfoldable pub clip : Rect → Size ℕ → Option Rect
unfolding from_ltrb is_empty
clip r bounds =
    non_empty (from_ltrb r.x r.y (min (right r) bounds.width) (min (bottom r) bounds.height))
