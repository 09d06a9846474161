-- ===== src/Codec/Progressive/Tiles.antt =====
-- crates/drift-codec/src/progressive.rs: `prepare`, which takes one tile out of the shared state.
use drift.Base.{
  get_elem?, ℕ, zero, suc, ◌+◌, ◌*◌, ◌/◌, ◌%◌, Bool, true, not, ◌&&◌, Option, none, some, List, [],
  ◌∷◌, ltb, ◌==◌, if◌then◌else◌, is_some, Result, ok, err,
}
use drift.Codec.Progressive.Blocks.{
  Iron, Triple, FirstBlock, UpgradeBlock, TileBlock, first, upgrade, ProgressiveTile,
  ProgressiveRegion, Coeffs, Pass, first_pass, upgrade_pass, SurfaceTiles,
}
use drift.Codec.Tile.{CodecError, malformed}
use drift.Codec.Progressive.Rounds.{TileKey, same_key}

abbrev pub full_quality : ℕ
full_quality = 0xFF

abbrev pub set {ℓ} : {A : Type ℓ} → List A → ℕ → A → List A
set [] i v = []
set (x ∷ xs) zero v = v ∷ xs
set (x ∷ xs) (suc i) v = x ∷ set xs i v

abbrev pub key_of : ProgressiveTile → TileKey
key_of t = record { x = t.x_idx; y = t.y_idx }

module _ (iron : Iron) where
  open iron use {
    Quant, lossless, TileState, new_tile, pass, coefficients, with_difference, decode_first,
    decode_upgrade, reconstruct_to_rgba,
  }

  abbrev pub Grid : Type 0
  Grid = SurfaceTiles TileState

  -- Keyed by the surface, and by the tile.
  abbrev pub References : Type 0
  References = ℕ → TileKey → Option Coeffs

  unfoldable pub set_reference : References → ℕ → TileKey → Option Coeffs → References
  set_reference refs s key c = λ s' key'. if s' == s && same_key key' key then c else refs s' key'

  -- `grid` and `references`.
  pub record Shared : Type 0 where
    pub grid : Grid
    pub references : References

  pub record RegionCtx : Type 0 where
    pub surface_id : ℕ
    pub use_reduce_extrapolate : Bool
    pub region : ProgressiveRegion Quant

  pub record Job : Type 0 where
    pub key : TileKey
    pub index : ℕ
    pub state : TileState
    pub reference : Option Coeffs
    pub work : Pass Quant

  unfoldable pub grid_index : Grid → TileKey → Option ℕ
  grid_index g key =
      if ltb key.x g.tiles_wide && ltb key.y g.tiles_high
      then some (key.y * g.tiles_wide + key.x)
      else none

  -- The tile of a slot, if the slot is there and full.
  abbrev pub slot : Option (Option TileState) → Option TileState
  slot none = none
  slot (some o) = o

  abbrev pub tile_at : Option ℕ → List (Option TileState) → Option TileState
  tile_at none tiles = none
  tile_at (some i) tiles = slot (get_elem? tiles i)

  unfoldable pub grid_get : Grid → TileKey → Option TileState
  grid_get g key = tile_at (grid_index g key) g.tiles

  abbrev filled : Grid → ℕ → Option (Option TileState) → Grid
  filled g i (some none) = record g {
    tiles = set g.tiles i (some (new_tile g.use_reduce_extrapolate));
  }
  filled g i _ = g

  unfoldable pub ensure_tile : Shared → ℕ → Shared
  ensure_tile sh i = record sh { grid = filled sh.grid i (get_elem? sh.grid.tiles i) }

  abbrev pub found : {A : Type 0} → Option A → Result CodecError A
  found none = err malformed
  found (some a) = ok a

  unfoldable pub progressive_quant : ℕ → List (Triple Quant) → Result CodecError (Triple Quant)
  progressive_quant quality table =
      if quality == full_quality
      then ok (record { y = lossless; cb = lossless; cr = lossless })
      else found (get_elem? table quality)

  abbrev three : Option Quant → Option Quant → Option Quant → Option (Triple Quant)
  three (some a) (some b) (some c) = some (record { y = a; cb = b; cr = c })
  three _ _ _ = none

  abbrev base_quants : List Quant → Triple ℕ → Option (Triple Quant)
  base_quants vals i = three (get_elem? vals i.y) (get_elem? vals i.cb) (get_elem? vals i.cr)

  abbrev quality_of : Option ℕ → List (Triple Quant) → Result CodecError (Triple Quant × ℕ)
  quality_of none table = ok (record { y = lossless; cb = lossless; cr = lossless }, full_quality)
  quality_of (some q) table = elim (progressive_quant q table) [
    | ok pq ↦ ok (pq, q)
    | err e ↦ err e
  ]

  abbrev pass_of :
      FirstBlock
      → Option (Triple Quant)
      → Result CodecError (Triple Quant × ℕ)
      → Result CodecError (Pass Quant)
  pass_of b none q = err malformed
  pass_of b (some base) (err e) = err e
  pass_of b (some base) (ok (prog, quality)) =
      ok (first_pass b.streams base prog b.quant_idx quality b.difference)

  -- `first_pass`: a slot may be filled although an error follows.
  unfoldable pub prepare_first :
      Shared → RegionCtx → ℕ → FirstBlock → Shared × Result CodecError (Pass Quant)
  prepare_first sh ctx i b =
      let key : TileKey = record { x = i % sh.grid.tiles_wide; y = i / sh.grid.tiles_wide } in
      if b.difference && not (is_some (sh.references ctx.surface_id key))
      then (sh, err malformed)
      else (
        ensure_tile sh i,
        pass_of b (base_quants ctx.region.quant_vals b.quant_idx)
            (quality_of b.quality ctx.region.quant_prog_vals),
      )

  abbrev upgrade_of :
      UpgradeBlock → Result CodecError (Triple Quant) → Result CodecError (Option (Pass Quant))
  upgrade_of b (err e) = err e
  upgrade_of b (ok prog) = ok (some (upgrade_pass b.srl b.raw prog b.quality))

  -- `is_none_or(|s| s.pass == 0)`.
  abbrev never_decoded : Option TileState → Bool
  never_decoded none = true
  never_decoded (some s) = pass s == 0

  unfoldable pub prepare_upgrade :
      Shared
      → RegionCtx
      → TileKey
      → ℕ
      → UpgradeBlock
      → Shared × Result CodecError (Option (Pass Quant))
  prepare_upgrade sh ctx key i b =
      let sh = ensure_tile sh i in
      if never_decoded (grid_get sh.grid key)
      then (sh, ok none)
      else (sh, upgrade_of b (progressive_quant b.quality ctx.region.quant_prog_vals))

  abbrev wanted : Result CodecError (Pass Quant) → Result CodecError (Option (Pass Quant))
  wanted (ok p) = ok (some p)
  wanted (err e) = err e

  abbrev pub prepare_pass :
      Shared
      → RegionCtx
      → TileKey
      → ℕ
      → TileBlock
      → Shared × Result CodecError (Option (Pass Quant))
  prepare_pass sh ctx key i (first b) = let (sh', r) = prepare_first sh ctx i b in (sh', wanted r)
  prepare_pass sh ctx key i (upgrade b) = prepare_upgrade sh ctx key i b

  -- The tile and its reference leave the shared state.
  abbrev pub job_of :
      Shared
      → RegionCtx
      → TileKey
      → ℕ
      → Pass Quant
      → Option TileState
      → Shared × Result CodecError (Option Job)
  job_of sh ctx key i work none = (sh, err malformed)
  job_of sh ctx key i work (some s) = (
    record {
      grid = record sh.grid { tiles = set sh.grid.tiles i none };
      references = set_reference sh.references ctx.surface_id key none;
    },
    ok (
        some (record {
          key = key;
          index = i;
          state = s;
          reference = sh.references ctx.surface_id key;
          work = work;
        })),
  )

  abbrev pub prepared :
      RegionCtx
      → TileKey
      → ℕ
      → Shared × Result CodecError (Option (Pass Quant))
      → Shared × Result CodecError (Option Job)
  prepared ctx key i (sh, err e) = (sh, err e)
  prepared ctx key i (sh, ok none) = (sh, ok none)
  prepared ctx key i (sh, ok (some work)) =
      job_of sh ctx key i work (slot (get_elem? sh.grid.tiles i))

  abbrev pub prepare_at :
      Shared → RegionCtx → ProgressiveTile → Option ℕ → Shared × Result CodecError (Option Job)
  prepare_at sh ctx t none = (sh, err malformed)
  prepare_at sh ctx t (some i) =
      prepared ctx (key_of t) i (prepare_pass sh ctx (key_of t) i t.block)

  unfoldable pub prepare :
      Shared → RegionCtx → ProgressiveTile → Shared × Result CodecError (Option Job)
  prepare sh ctx t = prepare_at sh ctx t (grid_index sh.grid (key_of t))
