-- ===== src/Codec/Progressive/Shown.antt =====
-- What holds of each tile that is shown holds of the tiles that `decode` returns.
use drift.Base.{
  ℕ, ◌≤◌, ◌≡◌, refl, ap, subst, Bool, true, false, ◌&&◌, Option, none, some, List, [], ◌∷◌, leb,
  if◌then◌else◌, max, length, arith, Bool-cases, inl, inr, Result, ok, err, bind_parts,
}
use drift.Core.Geometry.{Size}
use drift.Gfx.Pdu.{Bytes}
use drift.Codec.Tile.{CodecError, BgraTile}
use drift.Codec.Progressive.Blocks.{
  Iron, ProgressiveBlock, context, frame_begin, frame_end, other, region, ProgressiveRegion,
}
use drift.Codec.Progressive.Rounds.{TileKey}
use drift.Codec.Progressive.Tiles.{Grid, Shared}
use drift.Codec.Progressive.Running.{render_bgra}
use drift.Codec.Progressive.Tiles.{grid_get}
use drift.Codec.Progressive.Regions.{
  Pixels, visible_rects, decode_region_tiles, charge, clipping_region,
}
use drift.Codec.Progressive.Loops.{
  extend_keys, Loop, is_empty, tile_of, with_tile, show_tile, show_tiles, clip_and_show, shown,
  after_tiles, decode_region, block_step, unless_failed, block_loop,
}
use drift.Codec.Progressive.Decoder.{
  ProgressiveCodec, outcome, started, decode_on, on_new_grid, decode_sized, is_resized, on_context,
  on_flag, on_stream, signalled, decode_blocks, decode, new_grid, or_new, remember, settled,
  set_context,
}
use drift.Codec.Progressive.Pixels.{
  All, All-append, OfTiles, OfSome, OfResult, pixels_of-OfSome, shown_pixels-OfSome,
  decode_region_tiles-OfResult,
}

module _ (iron : Iron) (width height : ℕ) (Q : Bytes → Type 0)
    (rendered : (s : iron.TileState) → Q (render_bgra iron s)) (P : BgraTile → Type 0)
    (shows : (c : iron.Region) (key : TileKey) (px : Bytes)
      → Q px
      → P (tile_of iron key (visible_rects iron c key width height) px)) where
  with_tile-All :
      (c : iron.Region) (key : TileKey) (px : Option Bytes) (out : List BgraTile)
      → OfSome iron Q rendered px
      → All P out
      → All P (with_tile iron key (visible_rects iron c key width height) px out)
  with_tile-All c key none out q h = h
  with_tile-All c key (some px) out q h = All-append P out _ h (shows c key px q)

  show_tile-All :
      (grid : Grid iron) (px : Pixels) (c : iron.Region) (key : TileKey) (out : List BgraTile)
      → OfTiles iron Q rendered px
      → All P out
      → All P (show_tile iron grid px c width height key out)
  show_tile-All grid px c key out q h =
      elim (Bool-cases (is_empty (visible_rects iron c key width height))) [
        | inl e ↦ rw e h
        | inr e ↦ rw e (
            with_tile-All c key _ out
              (shown_pixels-OfSome iron Q rendered _ (grid_get iron grid key)
                (pixels_of-OfSome iron Q rendered key px q))
              h)
      ]

  show_tiles-All :
      (grid : Grid iron) (px : Pixels) (c : iron.Region) (keys : List TileKey) (work : ℕ)
      (out : List BgraTile) (w : ℕ) (out' : List BgraTile)
      → OfTiles iron Q rendered px
      → All P out
      → show_tiles iron grid px c width height keys work out ≡ ok (w, out')
      → All P out'
  unfolding show_tiles
  show_tiles-All grid px c [] work out w out' q h e =
      subst (All P) (let s : out ≡ out' = ground (arith, e) in s) h
  show_tiles-All grid px c (key ∷ keys) work out w out' q h e =
      let (work', paid, e') =
        bind_parts (charge work (max (length (iron.rectangles c)) 1)) _ (w, out') e in
      show_tiles-All grid px c keys work' (show_tile iron grid px c width height key out) w out' q
        (show_tile-All grid px c key out q h) e'

  shown-All :
      (l : Loop iron) (r : Result CodecError (ℕ × List BgraTile))
      → All P l.out
      → ((w : ℕ) (out : List BgraTile) → r ≡ ok (w, out) → All P out)
      → All P (shown iron l r).0.out
  shown-All l (err e) h k = h
  shown-All l (ok (w, out)) h k = k w out refl

  clip_and_show-All :
      (l : Loop iron) (px : Pixels) (r : ProgressiveRegion iron.Quant) (w : ℕ) (out : List BgraTile)
      → OfTiles iron Q rendered px
      → All P l.out
      → clip_and_show iron l px r width height ≡ ok (w, out)
      → All P out
  clip_and_show-All l px r w out q h e =
      let (c, clipped, e') = bind_parts (clipping_region iron r width height l.work) _ (w, out) e in
      show_tiles-All l.shared.grid px c.0 l.frame_keys c.1 l.out w out q h e'

  if-All :
      (b : Bool) (x y : Loop iron × Option CodecError)
      → All P x.0.out
      → All P y.0.out
      → All P (if b then x else y).0.out
  if-All true x y h k = h
  if-All false x y h k = k

  unless_failed-All :
      (r : Loop iron × Option CodecError) (next : Loop iron → Loop iron × Option CodecError)
      → All P r.0.out
      → ((l : Loop iron) → All P l.out → All P (next l).0.out)
      → All P (unless_failed iron r next).0.out
  unless_failed-All (l, some e) next h k = h
  unless_failed-All (l, none) next h k = k l h

  after_tiles-All :
      (l : Loop iron) (r : ProgressiveRegion iron.Quant)
      (done : Shared iron × Result CodecError Pixels)
      → OfResult iron Q rendered done.1
      → All P l.out
      → All P (after_tiles iron l r width height done).0.out
  after_tiles-All l r (sh, err e) q h = h
  after_tiles-All l r (sh, ok px) q h =
      let l' = record l { shared = sh; frame_keys = extend_keys l.frame_keys px } in
      shown-All l' (clip_and_show iron l' px r width height) h
        λ w out e. clip_and_show-All l' px r w out q h e

  block_step-All :
      (l : Loop iron) (s : ℕ) (x : Bool) (b : ProgressiveBlock iron.Quant)
      → All P l.out
      → All P (block_step iron l s x width height b).0.out
  unfolding block_step decode_region
  block_step-All l s x frame_begin h = elim (Bool-cases l.frame_ended) [
    | inl e ↦ rw e h
    | inr e ↦ rw e h
  ]
  block_step-All l s x frame_end h = h
  block_step-All l s x (context b) h = h
  block_step-All l s x other h = h
  block_step-All l s x (region r) h =
      if-All l.in_frame (decode_region iron l s x width height r) (l, none)
        (after_tiles-All l r (decode_region_tiles iron l.shared _)
          (decode_region_tiles-OfResult iron Q rendered l.shared _) h)
        h

  block_loop-All :
      (l : Loop iron) (s : ℕ) (x : Bool) (bs : List (ProgressiveBlock iron.Quant))
      → All P l.out
      → All P (block_loop iron l s x width height bs).0.out
  unfolding block_loop
  block_loop-All l s x [] h = h
  block_loop-All l s x (b ∷ bs) h =
      unless_failed-All (block_step iron l s x width height b) _ (block_step-All l s x b h)
        λ l' h'. block_loop-All l' s x bs h'

  abbrev Shows : Result CodecError (List BgraTile) → Type 0
  Shows (err e) = Unit
  Shows (ok tiles) = All P tiles

  outcome-Shows :
      (p : ProgressiveCodec iron) (s c : ℕ) (done : Loop iron × Option CodecError)
      → All P done.0.out
      → Shows (outcome iron p s c done).1
  outcome-Shows p s c (l, some e) h = tt
  outcome-Shows p s c (l, none) h = h

  decode_on-Shows :
      (p : ProgressiveCodec iron) (s c : ℕ) (x : Bool) (bs : List (ProgressiveBlock iron.Quant))
      (g : Grid iron) (keys : List TileKey)
      → Shows (decode_on iron p s c width height x bs g keys).1
  unfolding decode_on
  decode_on-Shows p s c x bs g keys =
      let l = started iron p.references g x keys in
      outcome-Shows p s c (block_loop iron l s x width height bs) (block_loop-All l s x bs tt)

  on_new_grid-Shows :
      (p : ProgressiveCodec iron) (s c : ℕ) (x : Bool) (bs : List (ProgressiveBlock iron.Quant))
      (g : Result CodecError (Grid iron))
      → Shows (on_new_grid iron p s c width height x bs g).1
  on_new_grid-Shows p s c x bs (err e) = tt
  on_new_grid-Shows p s c x bs (ok g) = decode_on-Shows p s c x bs g []

  decode_sized-Shows :
      (p : ProgressiveCodec iron) (s c : ℕ) (x : Bool) (bs : List (ProgressiveBlock iron.Quant))
      (g : Grid iron)
      → Shows (decode_sized iron p s c width height x bs g).1
  unfolding decode_sized
  decode_sized-Shows p s c x bs g = elim (Bool-cases (is_resized iron g width height)) [
    | inl e ↦ rw e (on_new_grid-Shows p s c x bs (new_grid iron width height x))
    | inr e ↦ rw e (decode_on-Shows p s c x bs g _)
  ]

  on_flag-Shows :
      (p : ProgressiveCodec iron) (s c : ℕ) (bs : List (ProgressiveBlock iron.Quant))
      (flag : Option Bool)
      → Shows (on_flag iron p s c width height bs flag).1
  on_flag-Shows p s c bs none = tt
  on_flag-Shows p s c bs (some x) = on_context-Shows (or_new iron (p.contexts s c) width height x)
    where
      on_context-Shows :
          (g : Result CodecError (Grid iron))
          → Shows (on_context iron (settled iron p) s c width height x bs g).1
      on_context-Shows (err e) = tt
      on_context-Shows (ok g) =
          decode_sized-Shows (set_context iron (settled iron p) s c g) s c x bs g

  pub on_stream-Shows :
      (p : ProgressiveCodec iron) (s c : ℕ) (bs : Option (List (ProgressiveBlock iron.Quant)))
      → Shows (on_stream iron p s c width height bs).1
  unfolding decode_blocks
  on_stream-Shows p s c none = tt
  on_stream-Shows p s c (some bs) = on_flag-Shows (remember iron p s (signalled iron bs)) s c bs _

-- Where the pixels of each tile that is rendered are right, and each tile that is shown with such pixels
-- on a surface of allowed size, then all tiles that `decode` returns.
pub decode-All :
    (iron : Iron) (surface : Size ℕ) (Q : Bytes → Type 0) (P : BgraTile → Type 0)
    (p q : ProgressiveCodec iron) (s c : ℕ) (stream : Bytes) (tiles : List BgraTile)
    → ((t : iron.TileState) → Q (render_bgra iron t))
    → (surface.width ≤ iron.max_surface_dim
        → surface.height ≤ iron.max_surface_dim
        → (c : iron.Region) (key : TileKey) (px : Bytes) → Q px
        → P (tile_of iron key (visible_rects iron c key surface.width surface.height) px))
    → decode iron p s c surface stream ≡ (q, ok tiles)
    → All P tiles
unfolding decode
decode-All iron surface Q P p q s c stream tiles rendered shows e =
    elim (Bool-cases
      (leb surface.width iron.max_surface_dim && leb surface.height iron.max_surface_dim)) [
        | inl fits ↦
            let right = shows (ground (arith, fits)) (ground (arith, fits)) in
            subst (Shows iron surface.width surface.height Q rendered P right)
              (ap (λ r. r.1) (rw fits at e))
              (on_stream-Shows iron surface.width surface.height Q rendered P right p s c
                (iron.decode_progressive_stream stream))
        | inr large ↦ absurd (ground (arith, large, e))
      ]
