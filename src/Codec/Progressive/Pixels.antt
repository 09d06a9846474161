-- ===== src/Codec/Progressive/Pixels.antt =====
-- What holds of the pixels of each tile that is rendered holds of the pixels of a REGION.
use drift.Base.{
  Bool, true, false, Option, none, some, List, [], ◌∷◌, ◌++◌, map, Bool-cases, inl, inr, Result, ok,
  err,
}
use drift.Gfx.Pdu.{Bytes}
use drift.Codec.Tile.{CodecError}
use drift.Codec.Progressive.Blocks.{Iron, ProgressiveTile}
use drift.Codec.Progressive.Rounds.{TileKey, same_key}
use drift.Codec.Progressive.Running.{finished, run, render_bgra}
use drift.Codec.Progressive.Tiles.{Shared, RegionCtx, Job}
use drift.Codec.Progressive.Regions.{
  Pixels, insert_pixels, pixels_of, Prepared, collect, results_of, finish_round, unless_lost,
  prepare_round, decode_rounds, decode_region_tiles,
}
use drift.Codec.Progressive.Loops.{shown_pixels}

abbrev pub All {ℓ κ} : {A : Type ℓ} → (A → Type κ) → List A → Type κ
All P [] = Unit
All P (x ∷ xs) = P x × All P xs

pub All-append :
    {A : Type 0} (P : A → Type 0) (xs : List A) (x : A) → All P xs → P x → All P (xs ++ x ∷ [])
All-append P [] x h k = (k, tt)
All-append P (y ∷ xs) x h k = (h.0, All-append P xs x h.1 k)

module _ (iron : Iron) (Q : Bytes → Type 0)
    (rendered : (s : iron.TileState) → Q (render_bgra iron s)) where
  abbrev pub OfTiles : Pixels → Type 0
  OfTiles px = All (λ kp. Q kp.1) px

  abbrev pub OfSome : Option Bytes → Type 0
  OfSome none = Unit {0}
  OfSome (some px) = Q px

  abbrev OfRun : Result CodecError (TileKey × Bytes) → Type 0
  OfRun (err e) = Unit {0}
  OfRun (ok kp) = Q kp.1

  abbrev pub OfResult : Result CodecError Pixels → Type 0
  OfResult (err e) = Unit {0}
  OfResult (ok px) = OfTiles px

  insert_pixels-All :
      (key : TileKey) (p : Bytes) (px : Pixels)
      → Q p
      → OfTiles px
      → OfTiles (insert_pixels key p px)
  unfolding insert_pixels
  insert_pixels-All key p [] q h = (q, tt)
  insert_pixels-All key p ((k, p') ∷ px) q h = elim (Bool-cases (same_key k key)) [
    | inl e ↦ rw e (q, h.1)
    | inr e ↦ rw e (h.0, insert_pixels-All key p px q h.1)
  ]

  pub pixels_of-OfSome : (key : TileKey) (px : Pixels) → OfTiles px → OfSome (pixels_of key px)
  unfolding pixels_of
  pixels_of-OfSome key [] h = tt
  pixels_of-OfSome key ((k, p) ∷ px) h = elim (Bool-cases (same_key k key)) [
    | inl e ↦ rw e h.0
    | inr e ↦ rw e (pixels_of-OfSome key px h.1)
  ]

  pub shown_pixels-OfSome :
      (o : Option Bytes) (s : Option iron.TileState) → OfSome o → OfSome (shown_pixels iron o s)
  shown_pixels-OfSome (some px) s h = h
  shown_pixels-OfSome none none h = tt
  shown_pixels-OfSome none (some s) h = rendered s

  finished-OfRun : (job : Job iron) (r : iron.TileState × Bool) → OfRun (finished iron job r).1
  finished-OfRun job (s, false) = tt
  finished-OfRun job (s, true) = rendered s

  run-OfRun : (job : Job iron) (extrapolate : Bool) → OfRun (run iron job extrapolate).1
  unfolding run
  run-OfRun job extrapolate = finished-OfRun job _

  runs-All :
      (jobs : List (Job iron)) (extrapolate : Bool)
      → All OfRun (results_of iron (map (λ job. run iron job extrapolate) jobs))
  runs-All [] extrapolate = tt
  runs-All (job ∷ jobs) extrapolate = (run-OfRun job extrapolate, runs-All jobs extrapolate)

  collect-OfResult :
      (rs : List (Result CodecError (TileKey × Bytes))) (px : Pixels)
      → All OfRun rs
      → OfTiles px
      → OfResult (collect iron rs px)
  unfolding collect
  collect-OfResult [] px h k = k
  collect-OfResult (err e ∷ rs) px h k = tt
  collect-OfResult (ok (key, p) ∷ rs) px h k =
      collect-OfResult rs (insert_pixels key p px) h.1 (insert_pixels-All key p px h.0 k)

  finish_round-OfResult :
      (ctx : RegionCtx iron) (px : Pixels) (p : Prepared iron)
      → OfTiles px
      → OfResult (finish_round iron ctx px p).1
  finish_round-OfResult ctx px (sh, jobs, some e) h = tt
  finish_round-OfResult ctx px (sh, jobs, none) h =
      collect-OfResult _ px (runs-All jobs ctx.use_reduce_extrapolate) h

  unless_lost-OfResult :
      (r : Shared iron × Result CodecError Pixels)
      (next : Shared iron → Pixels → Shared iron × Result CodecError Pixels)
      → OfResult r.1
      → ((sh : Shared iron) (px : Pixels) → OfTiles px → OfResult (next sh px).1)
      → OfResult (unless_lost iron r next).1
  unless_lost-OfResult (sh, err e) next h k = tt
  unless_lost-OfResult (sh, ok px) next h k = k sh px h

  decode_rounds-OfResult :
      (sh : Shared iron) (ctx : RegionCtx iron) (px : Pixels) (rs : List (List ProgressiveTile))
      → OfTiles px
      → OfResult (decode_rounds iron sh ctx px rs).1
  unfolding decode_rounds
  decode_rounds-OfResult sh ctx px [] h = h
  decode_rounds-OfResult sh ctx px (r ∷ rs) h =
      unless_lost-OfResult (finish_round iron ctx px (prepare_round iron sh ctx r)) _
        (finish_round-OfResult ctx px (prepare_round iron sh ctx r) h)
        λ sh' px' h'. decode_rounds-OfResult sh' ctx px' rs h'

  pub decode_region_tiles-OfResult :
      (sh : Shared iron) (ctx : RegionCtx iron) → OfResult (decode_region_tiles iron sh ctx).1
  unfolding decode_region_tiles
  decode_region_tiles-OfResult sh ctx = decode_rounds-OfResult sh ctx [] _ tt
