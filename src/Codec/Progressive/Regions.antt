-- ===== src/Codec/Progressive/Regions.antt =====
-- crates/drift-codec/src/progressive.rs: the tiles of a REGION, and what of them is visible.
use drift.Base.{
  ℕ, ◌+◌, ◌-◌, ◌*◌, ◌&&◌, ◌||◌, Option, none, some, List, [], ◌∷◌, ltb, leb, map, if◌then◌else◌,
  is_some, Result, ok, err, min, length,
}
use drift.Core.Geometry.{Rect}
use drift.Gfx.Pdu.{Bytes}
use drift.Codec.Tile.{CodecError, malformed}
use drift.Codec.Progressive.Blocks.{Iron, Inclusive, RegionRect, ProgressiveTile, ProgressiveRegion}
use drift.Codec.Progressive.Rounds.{TileKey, same_key, rounds_of}
use drift.Codec.Progressive.Running.{run}
use drift.Codec.Progressive.Tiles.{set, set_reference, Shared, RegionCtx, Job, key_of, prepare}

-- Pixels of the tiles, a BTreeMap.
abbrev pub Pixels : Type 0
Pixels = List (TileKey × Bytes)

unfoldable pub insert_pixels : TileKey → Bytes → Pixels → Pixels
insert_pixels key px [] = (key, px) ∷ []
insert_pixels key px ((k, p) ∷ m) =
    let rest = insert_pixels key px m in if same_key k key then (key, px) ∷ m else (k, p) ∷ rest

unfoldable pub pixels_of : TileKey → Pixels → Option Bytes
pixels_of key [] = none
pixels_of key ((k, p) ∷ m) = if same_key k key then some p else pixels_of key m

abbrev pub tile_dim : ℕ
tile_dim = 64

abbrev pub max_region_clipping_work : ℕ
max_region_clipping_work = 1048576

unfoldable pub charge : ℕ → ℕ → Result CodecError ℕ
charge used units =
    if leb (used + units) max_region_clipping_work then ok (used + units) else err malformed

module _ (iron : Iron) where
  open iron use {
    Quant, TileState, Region, new_region, rectangles, union_rectangle, intersect_rectangle,
  }

  -- `slot = Some(job.state)`, and the reference.
  unfoldable pub put_back : Shared iron → ℕ → Job iron → Shared iron
  put_back sh s job = record {
    grid = record sh.grid { tiles = set sh.grid.tiles job.index (some job.state) };
    references =
        if is_some job.reference
        then set_reference iron sh.references s job.key job.reference
        else sh.references;
  }

  unfoldable pub put_all_back : Shared iron → ℕ → List (Job iron) → Shared iron
  put_all_back sh s [] = sh
  put_all_back sh s (job ∷ jobs) = put_all_back (put_back sh s job) s jobs

  -- The shared state, the jobs and the failure of a round.
  abbrev pub Prepared : Type 0
  Prepared = Shared iron × List (Job iron) × Option CodecError

  abbrev pub with_job : Option (Job iron) → Prepared → Prepared
  with_job none rest = rest
  with_job (some job) (sh, jobs, failure) = (sh, job ∷ jobs, failure)

  abbrev pub unless_refused :
      Shared iron × Result CodecError (Option (Job iron)) → (Shared iron → Prepared) → Prepared
  unless_refused (sh, err e) next = (sh, [], some e)
  unless_refused (sh, ok job) next = with_job job (next sh)

  -- The jobs of a round, up to the first failure.
  unfoldable pub prepare_round : Shared iron → RegionCtx iron → List ProgressiveTile → Prepared
  prepare_round sh ctx [] = (sh, [], none)
  prepare_round sh ctx (t ∷ ts) =
      unless_refused (prepare iron sh ctx t) (λ sh'. prepare_round sh' ctx ts)

  -- The results, in the order of the jobs.
  unfoldable pub collect :
      List (Result CodecError (TileKey × Bytes)) → Pixels → Result CodecError Pixels
  collect [] px = ok px
  collect (err e ∷ rs) px = err e
  collect (ok (key, p) ∷ rs) px = collect rs (insert_pixels key p px)

  abbrev pub jobs_of : List (Job iron × Result CodecError (TileKey × Bytes)) → List (Job iron)
  jobs_of rs = map (λ r. r.0) rs

  abbrev pub results_of :
      List (Job iron × Result CodecError (TileKey × Bytes))
      → List (Result CodecError (TileKey × Bytes))
  results_of rs = map (λ r. r.1) rs

  -- The jobs run in parallel, each on its own state, unless one could not be prepared.
  abbrev pub finish_round :
      RegionCtx iron → Pixels → Prepared → Shared iron × Result CodecError Pixels
  finish_round ctx px (sh, jobs, some e) = (put_all_back sh ctx.surface_id jobs, err e)
  finish_round ctx px (sh, jobs, none) =
      let runs = map (λ job. run iron job ctx.use_reduce_extrapolate) jobs in
      (put_all_back sh ctx.surface_id (jobs_of runs), collect (results_of runs) px)

  abbrev pub unless_lost :
      Shared iron × Result CodecError Pixels
      → (Shared iron → Pixels → Shared iron × Result CodecError Pixels)
      → Shared iron × Result CodecError Pixels
  unless_lost (sh, err e) next = (sh, err e)
  unless_lost (sh, ok px) next = next sh px

  unfoldable pub decode_rounds :
      Shared iron
      → RegionCtx iron
      → Pixels
      → List (List ProgressiveTile)
      → Shared iron × Result CodecError Pixels
  decode_rounds sh ctx px [] = (sh, ok px)
  decode_rounds sh ctx px (r ∷ rs) =
      unless_lost (finish_round ctx px (prepare_round sh ctx r))
        λ sh' px'. decode_rounds sh' ctx px' rs

  unfoldable pub decode_region_tiles :
      Shared iron → RegionCtx iron → Shared iron × Result CodecError Pixels
  unfolding decode_rounds rounds_of
  decode_region_tiles sh ctx = decode_rounds sh ctx [] (rounds_of key_of ctx.region.tiles)

  abbrev saturating_u16 : ℕ → ℕ
  saturating_u16 n = min n 65535

  -- A rectangle of the REGION, clipped to the surface: its edges, right and bottom exclusive.
  abbrev pub add_rect : ℕ → ℕ → Region × ℕ → RegionRect → Result CodecError (Region × ℕ)
  add_rect width height (clipping, work) r =
      let left = min r.x width in
      let top = min r.y height in
      let right = min (saturating_u16 (r.x + r.width)) width in
      let bottom = min (saturating_u16 (r.y + r.height)) height in
      if ltb left right && ltb top bottom
      then elim (charge work (length (rectangles clipping) + 1)) [
        | err e ↦ err e
        | ok work' ↦ ok (
          union_rectangle clipping
              (record { left = left; top = top; right = right - 1; bottom = bottom - 1 }),
          work',
        )
      ]
      else ok (clipping, work)

  unfoldable pub clipping_from :
      ℕ → ℕ → Region × ℕ → List RegionRect → Result CodecError (Region × ℕ)
  clipping_from width height c [] = ok c
  clipping_from width height c (r ∷ rs) = elim (add_rect width height c r) [
    | err e ↦ err e
    | ok c' ↦ clipping_from width height c' rs
  ]

  unfoldable pub clipping_region :
      ProgressiveRegion Quant → ℕ → ℕ → ℕ → Result CodecError (Region × ℕ)
  unfolding clipping_from
  clipping_region r width height work = clipping_from width height (new_region, work) r.rects

  abbrev pub surface_rect : Inclusive → Rect
  surface_rect r = record {
    x = r.left;
    y = r.top;
    width = r.right + 1 - r.left;
    height = r.bottom + 1 - r.top;
  }

  unfoldable pub visible_rects : Region → TileKey → ℕ → ℕ → List Rect
  visible_rects clipping key width height =
      let left = saturating_u16 (key.x * tile_dim) in
      let top = saturating_u16 (key.y * tile_dim) in
      let right = min (saturating_u16 (left + tile_dim)) width in
      let bottom = min (saturating_u16 (top + tile_dim)) height in
      if leb right left || leb bottom top
      then []
      else map surface_rect (
          rectangles (
            intersect_rectangle clipping
              (record { left = left; top = top; right = right - 1; bottom = bottom - 1 })))
