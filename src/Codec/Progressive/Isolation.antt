-- ===== src/Codec/Progressive/Isolation.antt =====
-- The decoding on one surface leaves the references of the others.
use drift.Base.{
  get_elem?, ℕ, ◌≡◌, refl, ◌∙◌, Bool, true, false, Option, none, some, List, [], ◌∷◌, ◌==◌,
  if◌then◌else◌, is_some, arith, Bool-cases, inl, inr, Result, ok, err, map,
}
use drift.Codec.Tile.{CodecError, BgraTile}
use drift.Codec.Progressive.Blocks.{
  Iron, TileBlock, first, upgrade, ProgressiveTile, Pass, Coeffs, ProgressiveBlock, context,
  frame_begin, frame_end, other, region, ProgressiveRegion,
}
use drift.Codec.Progressive.Rounds.{TileKey, rounds_of}
use drift.Codec.Progressive.Running.{run}
use drift.Codec.Progressive.Tiles.{
  References, set_reference, Shared, RegionCtx, Job, slot, grid_index, ensure_tile, prepare_first,
  prepare_upgrade, prepare_pass, job_of, prepared, key_of, prepare_at, prepare,
}
use drift.Codec.Progressive.Regions.{
  Pixels, put_back, put_all_back, Prepared, jobs_of, unless_refused, unless_lost, prepare_round,
  finish_round, decode_rounds, decode_region_tiles,
}
use drift.Codec.Progressive.Loops.{
  extend_keys, clip_and_show, Loop, shown, after_tiles, decode_region, block_step, unless_failed,
  block_loop,
}

module _ (iron : Iron) (s other_surface : ℕ) (apart : (other_surface == s) ≡ false) where
  -- The references of the other surface are the same.
  abbrev pub Same : References iron → References iron → Type 0
  Same refs refs' = (key : TileKey) → refs' other_surface key ≡ refs other_surface key

  set_reference-Same :
      (refs : References iron) (key : TileKey) (c : Option Coeffs)
      → Same refs (set_reference iron refs s key c)
  unfolding set_reference
  set_reference-Same refs key c key' = rw apart

  ensure_tile-Same :
      (sh : Shared iron) (i : ℕ) → Same sh.references (ensure_tile iron sh i).references
  unfolding ensure_tile
  ensure_tile-Same sh i key = refl

  module _ (ctx : RegionCtx iron) (on_s : ctx.surface_id ≡ s) where
    set-Same :
        (refs : References iron) (key : TileKey) (c : Option Coeffs)
        → Same refs (set_reference iron refs ctx.surface_id key c)
    set-Same refs key c key' = rw on_s (set_reference-Same refs key c key')

    prepare_pass-Same :
        (sh : Shared iron) (key : TileKey) (i : ℕ) (b : TileBlock)
        → Same sh.references (prepare_pass iron sh ctx key i b).0.references
    unfolding prepare_first prepare_upgrade ensure_tile
    prepare_pass-Same sh key i (first b) key' = ground arith
    prepare_pass-Same sh key i (upgrade b) key' = ground arith

    job_of-Same :
        (sh : Shared iron) (key : TileKey) (i : ℕ) (work : Pass iron.Quant)
        (o : Option iron.TileState)
        → Same sh.references (job_of iron sh ctx key i work o).0.references
    job_of-Same sh key i work none key' = refl
    job_of-Same sh key i work (some t) key' = set-Same sh.references key none key'

    prepared-Same :
        (key : TileKey) (i : ℕ) (r : Shared iron × Result CodecError (Option (Pass iron.Quant)))
        → Same r.0.references (prepared iron ctx key i r).0.references
    prepared-Same key i (sh, err e) key' = refl
    prepared-Same key i (sh, ok none) key' = refl
    prepared-Same key i (sh, ok (some work)) key' =
        job_of-Same sh key i work (slot iron (get_elem? sh.grid.tiles i)) key'

    prepare_at-Same :
        (sh : Shared iron) (t : ProgressiveTile) (i : Option ℕ)
        → Same sh.references (prepare_at iron sh ctx t i).0.references
    prepare_at-Same sh t none key = refl
    prepare_at-Same sh t (some i) key =
        prepared-Same (key_of t) i (prepare_pass iron sh ctx (key_of t) i t.block) key
        ∙ prepare_pass-Same sh (key_of t) i t.block key

    unless_refused-Same :
        (refs : References iron) (r : Shared iron × Result CodecError (Option (Job iron)))
        (next : Shared iron → Prepared iron)
        → Same refs r.0.references
        → ((sh : Shared iron) → Same sh.references (next sh).0.references)
        → Same refs (unless_refused iron r next).0.references
    unless_refused-Same refs (sh, err e) next h k key = h key
    unless_refused-Same refs (sh, ok none) next h k key = k sh key ∙ h key
    unless_refused-Same refs (sh, ok (some job)) next h k key = k sh key ∙ h key

    prepare_round-Same :
        (ts : List ProgressiveTile) (sh : Shared iron)
        → Same sh.references (prepare_round iron sh ctx ts).0.references
    unfolding prepare_round prepare
    prepare_round-Same [] sh key = refl
    prepare_round-Same (t ∷ ts) sh key =
        unless_refused-Same sh.references (prepare iron sh ctx t) _
          (prepare_at-Same sh t (grid_index iron sh.grid (key_of t)))
          (λ sh'. prepare_round-Same ts sh') key

    put_all_back-Same :
        (jobs : List (Job iron)) (sh : Shared iron)
        → Same sh.references (put_all_back iron sh ctx.surface_id jobs).references
    unfolding put_all_back put_back
    put_all_back-Same [] sh key = refl
    put_all_back-Same (job ∷ jobs) sh key =
        put_all_back-Same jobs (put_back iron sh ctx.surface_id job) key ∙ put_back-Same job sh key
      where
        put_back-Same :
            (job : Job iron) (sh : Shared iron)
            → Same sh.references (put_back iron sh ctx.surface_id job).references
        put_back-Same job sh key = elim (Bool-cases (is_some job.reference)) [
          | inl e ↦ rw e (set-Same sh.references job.key job.reference key)
          | inr e ↦ rw e
        ]

    finish_round-Same :
        (refs : References iron) (px : Pixels) (r : Prepared iron)
        → Same refs r.0.references
        → Same refs (finish_round iron ctx px r).0.references
    finish_round-Same refs px (sh, jobs, some e) h key = put_all_back-Same jobs sh key ∙ h key
    finish_round-Same refs px (sh, jobs, none) h key =
        put_all_back-Same (jobs_of iron (map (λ job. run iron job ctx.use_reduce_extrapolate) jobs))
          sh key
        ∙ h key

    unless_lost-Same :
        (refs : References iron) (r : Shared iron × Result CodecError Pixels)
        (next : Shared iron → Pixels → Shared iron × Result CodecError Pixels)
        → Same refs r.0.references
        → ((sh : Shared iron) (px : Pixels) → Same sh.references (next sh px).0.references)
        → Same refs (unless_lost iron r next).0.references
    unless_lost-Same refs (sh, err e) next h k key = h key
    unless_lost-Same refs (sh, ok px) next h k key = k sh px key ∙ h key

    decode_rounds-Same :
        (rs : List (List ProgressiveTile)) (sh : Shared iron) (px : Pixels)
        → Same sh.references (decode_rounds iron sh ctx px rs).0.references
    unfolding decode_rounds
    decode_rounds-Same [] sh px key = refl
    decode_rounds-Same (r ∷ rs) sh px key =
        unless_lost-Same sh.references (finish_round iron ctx px (prepare_round iron sh ctx r)) _
          (finish_round-Same sh.references px (prepare_round iron sh ctx r)
            (prepare_round-Same r sh))
          (λ sh' px'. decode_rounds-Same rs sh' px') key

  after_tiles-Same :
      (refs : References iron) (l : Loop iron) (r : ProgressiveRegion iron.Quant) (width height : ℕ)
      (done : Shared iron × Result CodecError Pixels)
      → Same refs done.0.references
      → Same refs (after_tiles iron l r width height done).0.shared.references
  after_tiles-Same refs l r width height (sh, err e) h = h
  after_tiles-Same refs l r width height (sh, ok px) h = shown-Same (
      clip_and_show iron (record l { shared = sh; frame_keys = extend_keys l.frame_keys px }) px r
        width height)
    where
      shown-Same :
          (r : Result CodecError (ℕ × List BgraTile))
          → Same refs
              (shown iron
                (record l { shared = sh; frame_keys = extend_keys l.frame_keys px })
                r).0.shared.references
      shown-Same (err e) = h
      shown-Same (ok x) = h

  if-Same :
      (refs : References iron) (b : Bool) (x y : Loop iron × Option CodecError)
      → Same refs x.0.shared.references
      → Same refs y.0.shared.references
      → Same refs (if b then x else y).0.shared.references
  if-Same refs true x y h k = h
  if-Same refs false x y h k = k

  block_step-Same :
      (l : Loop iron) (x : Bool) (width height : ℕ) (b : ProgressiveBlock iron.Quant)
      → Same l.shared.references (block_step iron l s x width height b).0.shared.references
  unfolding block_step decode_region decode_region_tiles
  block_step-Same l x width height frame_begin = elim (Bool-cases l.frame_ended) [
    | inl e ↦ λ key. ground arith
    | inr e ↦ λ key. ground arith
  ]
  block_step-Same l x width height frame_end = λ key. refl
  block_step-Same l x width height (context b) = λ key. refl
  block_step-Same l x width height other = λ key. refl
  block_step-Same l x width height (region r) =
      let ctx : RegionCtx iron = record {
        surface_id = s;
        use_reduce_extrapolate = x;
        region = r;
      } in
      if-Same l.shared.references l.in_frame (decode_region iron l s x width height r) (l, none)
        (after_tiles-Same l.shared.references l r width height
          (decode_region_tiles iron l.shared ctx)
          (decode_rounds-Same ctx refl (rounds_of key_of r.tiles) l.shared []))
        (λ key. refl)

  unless_failed-Same :
      (refs : References iron) (r : Loop iron × Option CodecError)
      (next : Loop iron → Loop iron × Option CodecError)
      → Same refs r.0.shared.references
      → ((l : Loop iron) → Same l.shared.references (next l).0.shared.references)
      → Same refs (unless_failed iron r next).0.shared.references
  unless_failed-Same refs (l, some e) next h k = h
  unless_failed-Same refs (l, none) next h k = λ key. k l key ∙ h key

  pub block_loop-Same :
      (bs : List (ProgressiveBlock iron.Quant)) (l : Loop iron) (x : Bool) (width height : ℕ)
      → Same l.shared.references (block_loop iron l s x width height bs).0.shared.references
  unfolding block_loop
  block_loop-Same [] l x width height = λ key. refl
  block_loop-Same (b ∷ bs) l x width height =
      unless_failed-Same l.shared.references (block_step iron l s x width height b) _
        (block_step-Same l x width height b) λ l'. block_loop-Same bs l' x width height
