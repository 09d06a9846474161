-- ===== src/Codec/Progressive/Decoder.antt =====
-- crates/drift-codec/src/progressive.rs: ProgressiveCodec.
use drift.Base.{
  ℕ, ◌+◌, ◌/◌, Bool, true, false, not, ◌&&◌, ◌||◌, Option, none, some, List, [], ◌∷◌, leb, ◌==◌,
  if◌then◌else◌, Result, ok, err,
}
use drift.Core.Geometry.{Size}
use drift.Gfx.Pdu.{Bytes}
use drift.Codec.Tile.{CodecError, malformed, surface_too_large, BgraTile}
use drift.Codec.Progressive.Blocks.{Iron, ProgressiveBlock, context}
use drift.Codec.Progressive.Rounds.{TileKey}
use drift.Codec.Progressive.Tiles.{Grid, References}
use drift.Codec.Progressive.Loops.{Loop, block_loop}

unfoldable pub tiles_across : ℕ → ℕ
tiles_across n = (n + 63) / 64

module _ (iron : Iron) where
  open iron use {
    Quant, TileState, new_tiles, max_surface_dim, decode_progressive_stream, Region, rectangles,
  }

  pub record ProgressiveCodec : Type 0 where
    pub contexts : ℕ → ℕ → Option (Grid iron)
    pub references : References iron
    pub frame_tiles : ℕ → ℕ → Option (List TileKey)
    pub frame_active : Bool
    pub surface_context_flags : ℕ → Option Bool

  abbrev pub new : ProgressiveCodec
  new = record {
    contexts = λ s c. none;
    references = λ s k. none;
    frame_tiles = λ s c. none;
    frame_active = false;
    surface_context_flags = λ s. none;
  }

  unfoldable pub begin_frame : ProgressiveCodec → ProgressiveCodec
  begin_frame p = record p { frame_tiles = λ s c. none; frame_active = true }

  unfoldable pub end_frame : ProgressiveCodec → ProgressiveCodec
  end_frame p = record p { frame_tiles = λ s c. none; frame_active = false }

  unfoldable pub delete_context : ProgressiveCodec → ℕ → ℕ → ProgressiveCodec
  delete_context p s c = record p {
    contexts = λ s' c'. if s' == s && c' == c then none else p.contexts s' c';
    frame_tiles = λ s' c'. if s' == s && c' == c then none else p.frame_tiles s' c';
  }

  unfoldable pub delete_surface : ProgressiveCodec → ℕ → ProgressiveCodec
  delete_surface p s = record p {
    contexts = λ s' c. if s' == s then none else p.contexts s' c;
    references = λ s' k. if s' == s then none else p.references s' k;
    frame_tiles = λ s' c. if s' == s then none else p.frame_tiles s' c;
    surface_context_flags = λ s'. if s' == s then none else p.surface_context_flags s';
  }

  unfoldable pub reset : ProgressiveCodec → ProgressiveCodec
  reset p = record p { contexts = λ s c. none; frame_tiles = λ s c. none; frame_active = false }

  -- The flag of the first CONTEXT block.
  abbrev pub signalled : List (ProgressiveBlock Quant) → Option Bool
  signalled [] = none
  signalled (context b ∷ bs) = some b
  signalled (_ ∷ bs) = signalled bs

  abbrev or_else : {A : Type 0} → Option A → Option A → Option A
  or_else none b = b
  or_else (some a) b = some a

  abbrev extrapolate_of : Option (Grid iron) → Option Bool
  extrapolate_of none = none
  extrapolate_of (some g) = some g.use_reduce_extrapolate

  abbrev pub remember : ProgressiveCodec → ℕ → Option Bool → ProgressiveCodec
  remember p s none = p
  remember p s (some b) = record p {
    surface_context_flags = λ s'. if s' == s then some b else p.surface_context_flags s';
  }

  unfoldable pub new_grid : ℕ → ℕ → Bool → Result CodecError (Grid iron)
  new_grid width height extrapolate = elim (new_tiles width height extrapolate) [
    | none ↦ err (surface_too_large width height)
    | some g ↦ ok g
  ]

  abbrev pub set_context : ProgressiveCodec → ℕ → ℕ → Grid iron → ProgressiveCodec
  set_context p s c g = record p {
    contexts = λ s' c'. if s' == s && c' == c then some g else p.contexts s' c';
  }

  abbrev pub set_frame_tiles : ProgressiveCodec → ℕ → ℕ → List TileKey → ProgressiveCodec
  set_frame_tiles p s c keys = record p {
    frame_tiles = λ s' c'. if s' == s && c' == c then some keys else p.frame_tiles s' c';
  }

  -- `if !self.frame_active { self.frame_tiles.clear() }`.
  abbrev pub settled : ProgressiveCodec → ProgressiveCodec
  settled p = if p.frame_active then p else record p { frame_tiles = λ s c. none }

  abbrev pub or_new : Option (Grid iron) → ℕ → ℕ → Bool → Result CodecError (Grid iron)
  or_new (some g) width height extrapolate = ok g
  or_new none width height extrapolate = new_grid width height extrapolate

  abbrev pub is_resized : Grid iron → ℕ → ℕ → Bool
  is_resized g width height =
      not (g.tiles_wide == tiles_across width) || not (g.tiles_high == tiles_across height)

  abbrev pub keys_or_none : Option (List TileKey) → List TileKey
  keys_or_none none = []
  keys_or_none (some keys) = keys

  abbrev pub outcome :
      ProgressiveCodec
      → ℕ
      → ℕ
      → Loop iron × Option CodecError
      → ProgressiveCodec × Result CodecError (List BgraTile)
  outcome p s c (l, failure) =
      let p' = record (set_frame_tiles (set_context p s c l.shared.grid) s c l.frame_keys) {
        references = l.shared.references;
      } in
      elim failure [ some e ↦ (p', err e) | none ↦ (settled p', ok l.out) ]

  -- Before the first block.
  abbrev pub started : References iron → Grid iron → Bool → List TileKey → Loop iron
  started refs grid extrapolate keys = record {
    shared = record {
      grid = record grid { use_reduce_extrapolate = extrapolate };
      references = refs;
    };
    frame_keys = keys;
    work = 0;
    out = [];
    in_frame = false;
    frame_ended = false;
  }

  -- The decoding on the grid of the context.
  unfoldable pub decode_on :
      ProgressiveCodec
      → ℕ
      → ℕ
      → ℕ
      → ℕ
      → Bool
      → List (ProgressiveBlock Quant)
      → Grid iron
      → List TileKey
      → ProgressiveCodec × Result CodecError (List BgraTile)
  decode_on p s c width height extrapolate blocks grid keys = outcome p s c (
      block_loop iron (started p.references grid extrapolate keys) s extrapolate width height
        blocks)

  abbrev pub Decoded : Type 0
  Decoded = ProgressiveCodec × Result CodecError (List BgraTile)

  abbrev pub on_new_grid :
      ProgressiveCodec
      → ℕ
      → ℕ
      → ℕ
      → ℕ
      → Bool
      → List (ProgressiveBlock Quant)
      → Result CodecError (Grid iron)
      → Decoded
  on_new_grid p s c width height extrapolate blocks (err e) = (p, err e)
  on_new_grid p s c width height extrapolate blocks (ok g) =
      decode_on p s c width height extrapolate blocks g []

  -- A grid of another size is replaced, and the tiles of the frame are forgotten.
  unfoldable pub decode_sized :
      ProgressiveCodec → ℕ → ℕ → ℕ → ℕ → Bool → List (ProgressiveBlock Quant) → Grid iron → Decoded
  decode_sized p s c width height extrapolate blocks grid =
      if is_resized grid width height
      then on_new_grid p s c width height extrapolate blocks (new_grid width height extrapolate)
      else decode_on p s c width height extrapolate blocks grid (keys_or_none (p.frame_tiles s c))

  abbrev pub on_context :
      ProgressiveCodec
      → ℕ
      → ℕ
      → ℕ
      → ℕ
      → Bool
      → List (ProgressiveBlock Quant)
      → Result CodecError (Grid iron)
      → Decoded
  on_context p s c width height extrapolate blocks (err e) = (p, err e)
  on_context p s c width height extrapolate blocks (ok g) =
      decode_sized (set_context p s c g) s c width height extrapolate blocks g

  -- Without a flag, the CONTEXT block is missing.
  abbrev pub on_flag :
      ProgressiveCodec → ℕ → ℕ → ℕ → ℕ → List (ProgressiveBlock Quant) → Option Bool → Decoded
  on_flag p s c width height blocks none = (p, err malformed)
  on_flag p s c width height blocks (some extrapolate) =
      on_context (settled p) s c width height extrapolate blocks
        (or_new (p.contexts s c) width height extrapolate)

  unfoldable pub decode_blocks :
      ProgressiveCodec → ℕ → ℕ → ℕ → ℕ → List (ProgressiveBlock Quant) → Decoded
  decode_blocks p s c width height blocks =
      let p' = remember p s (signalled blocks) in
      on_flag p' s c width height blocks (
        or_else (signalled blocks)
          (or_else (extrapolate_of (p'.contexts s c)) (p'.surface_context_flags s)))

  abbrev pub on_stream :
      ProgressiveCodec → ℕ → ℕ → ℕ → ℕ → Option (List (ProgressiveBlock Quant)) → Decoded
  on_stream p s c width height none = (p, err malformed)
  on_stream p s c width height (some blocks) = decode_blocks p s c width height blocks

  unfoldable pub decode : ProgressiveCodec → ℕ → ℕ → Size ℕ → Bytes → Decoded
  decode p s c surface stream =
      if leb surface.width max_surface_dim && leb surface.height max_surface_dim
      then on_stream p s c surface.width surface.height (decode_progressive_stream stream)
      else (p, err (surface_too_large surface.width surface.height))
