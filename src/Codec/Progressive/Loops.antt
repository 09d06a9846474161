-- ===== src/Codec/Progressive/Loops.antt =====
-- crates/drift-codec/src/progressive.rs: the loop over the blocks of `decode`.
use drift.Base.{
  ℕ, ◌*◌, Bool, true, false, ◌&&◌, ◌||◌, Option, none, some, List, [], ◌∷◌, ◌++◌, ltb, ◌==◌,
  if◌then◌else◌, Result, ok, err, ◌>>=◌, length, max,
}
use drift.Core.Geometry.{Rect}
use drift.Gfx.Pdu.{Bytes}
use drift.Codec.Tile.{CodecError, BgraTile}
use drift.Codec.Progressive.Blocks.{
  Iron, ProgressiveBlock, context, frame_begin, frame_end, other, region, ProgressiveRegion,
}
use drift.Codec.Progressive.Rounds.{TileKey, same_key}
use drift.Codec.Progressive.Running.{render_bgra}
use drift.Codec.Progressive.Tiles.{Grid, Shared, grid_get}
use drift.Codec.Progressive.Regions.{
  Pixels, pixels_of, tile_dim, charge, decode_region_tiles, clipping_region, visible_rects,
}

-- A BTreeSet of keys: in order, without repetitions.
unfoldable pub insert_key : TileKey → List TileKey → List TileKey
insert_key k [] = k ∷ []
insert_key k (j ∷ js) =
    let rest = insert_key k js in
    if same_key k j
    then j ∷ js
    else if ltb k.x j.x || (k.x == j.x && ltb k.y j.y)
    then k ∷ j ∷ js
    else j ∷ rest

unfoldable pub extend_keys : List TileKey → Pixels → List TileKey
extend_keys keys [] = keys
extend_keys keys ((k, p) ∷ px) = extend_keys (insert_key k keys) px

abbrev pub is_empty : {A : Type 0} → List A → Bool
is_empty [] = true
is_empty (x ∷ xs) = false

module _ (iron : Iron) where
  open iron use {
    Quant, TileState, new_tiles, max_surface_dim, decode_progressive_stream, Region, rectangles,
  }

  -- What the loop over the blocks changes.
  pub record Loop : Type 0 where
    pub shared : Shared iron
    pub frame_keys : List TileKey
    pub work : ℕ
    pub out : List BgraTile
    pub in_frame : Bool
    pub frame_ended : Bool

  abbrev pub tile_of : TileKey → List Rect → Bytes → BgraTile
  tile_of key rects px = record {
    origin = record { x = key.x * tile_dim; y = key.y * tile_dim };
    size = record { width = tile_dim; height = tile_dim };
    pixels = px;
    update_rects = rects;
  }

  -- The pixels of a tile that is visible: those of this REGION, or else of the retained state. The
  -- source collects the retained ones, and renders them behind the loop, from the same grid.
  abbrev pub shown_pixels : Option Bytes → Option TileState → Option Bytes
  shown_pixels (some px) s = some px
  shown_pixels none none = none
  shown_pixels none (some s) = some (render_bgra iron s)

  abbrev pub with_tile : TileKey → List Rect → Option Bytes → List BgraTile → List BgraTile
  with_tile key rects none out = out
  with_tile key rects (some px) out = out ++ (tile_of key rects px ∷ [])

  -- One tile of the frame.
  abbrev pub show_tile :
      Grid iron → Pixels → Region → ℕ → ℕ → TileKey → List BgraTile → List BgraTile
  show_tile grid px clipping width height key out =
      let rects = visible_rects iron clipping key width height in
      if is_empty rects
      then out
      else with_tile key rects (shown_pixels (pixels_of key px) (grid_get iron grid key)) out

  unfoldable pub show_tiles :
      Grid iron
      → Pixels
      → Region
      → ℕ
      → ℕ
      → List TileKey
      → ℕ
      → List BgraTile
      → Result CodecError (ℕ × List BgraTile)
  show_tiles grid px clipping width height [] work out = ok (work, out)
  show_tiles grid px clipping width height (key ∷ keys) work out = do
    work' ← charge work (max (length (rectangles clipping)) 1)
    show_tiles grid px clipping width height keys work'
        (show_tile grid px clipping width height key out)

  -- A REGION whose tiles are decoded.
  abbrev pub clip_and_show :
      Loop → Pixels → ProgressiveRegion Quant → ℕ → ℕ → Result CodecError (ℕ × List BgraTile)
  clip_and_show l px r width height = do
    c ← clipping_region iron r width height l.work
    show_tiles l.shared.grid px c.0 width height l.frame_keys c.1 l.out

  abbrev pub shown : Loop → Result CodecError (ℕ × List BgraTile) → Loop × Option CodecError
  shown l (err e) = (l, some e)
  shown l (ok (work, out)) = (record l { work = work; out = out }, none)

  abbrev pub after_tiles :
      Loop
      → ProgressiveRegion Quant
      → ℕ
      → ℕ
      → Shared iron × Result CodecError Pixels
      → Loop × Option CodecError
  after_tiles l r width height (sh, err e) = (record l { shared = sh }, some e)
  after_tiles l r width height (sh, ok px) =
      let l' = record l { shared = sh; frame_keys = extend_keys l.frame_keys px } in
      shown l' (clip_and_show l' px r width height)

  unfoldable pub decode_region :
      Loop → ℕ → Bool → ℕ → ℕ → ProgressiveRegion Quant → Loop × Option CodecError
  decode_region l s extrapolate width height r = after_tiles l r width height (
      decode_region_tiles iron l.shared
        (record { surface_id = s; use_reduce_extrapolate = extrapolate; region = r }))

  unfoldable pub block_step :
      Loop → ℕ → Bool → ℕ → ℕ → ProgressiveBlock Quant → Loop × Option CodecError
  block_step l s extrapolate width height frame_begin =
      (if l.frame_ended then l else record l { in_frame = true }, none)
  block_step l s extrapolate width height frame_end =
      (record l { in_frame = false; frame_ended = true }, none)
  block_step l s extrapolate width height (region r) =
      if l.in_frame then decode_region l s extrapolate width height r else (l, none)
  block_step l s extrapolate width height (context b) = (l, none)
  block_step l s extrapolate width height other = (l, none)

  -- `?` in the loop.
  abbrev pub unless_failed :
      Loop × Option CodecError → (Loop → Loop × Option CodecError) → Loop × Option CodecError
  unless_failed (l, some e) next = (l, some e)
  unless_failed (l, none) next = next l

  unfoldable pub block_loop :
      Loop → ℕ → Bool → ℕ → ℕ → List (ProgressiveBlock Quant) → Loop × Option CodecError
  block_loop l s extrapolate width height [] = (l, none)
  block_loop l s extrapolate width height (b ∷ bs) =
      unless_failed (block_step l s extrapolate width height b)
        λ l'. block_loop l' s extrapolate width height bs
