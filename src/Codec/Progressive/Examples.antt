-- ===== src/Codec/Progressive/Examples.antt =====
-- Tests and witnesses of the progressive decoder, on crates that decode one stream.
use drift.Base.{
  length, ℕ, zero, suc, ◌+◌, ◌/◌, ◌*◌, ◌≡◌, refl, Bool, true, false, ◌&&◌, Option, none, some, List,
  [], ◌∷◌, leb, if◌then◌else◌, min, max, arith, Bool-cases, inl, inr, ok, err,
}
use drift.Core.Geometry.{Size}
use drift.Gfx.Pdu.{Bytes}
use drift.Codec.Tile.{surface_too_large, BgraTile}
use drift.Codec.Progressive.Blocks.{
  Iron, Inclusive, Triple, first, ProgressiveTile, ProgressiveBlock, context, frame_begin,
  frame_end, region,
}
use drift.Codec.Progressive.Rounds.{rounds_of, group, place, push_at, grown}
use drift.Codec.Progressive.Rounds.Order.{round_at, at_index, of_key, round_at-rounds_of}
use drift.Codec.Progressive.Running.{add_reference, render_bgra, run}
use drift.Codec.Progressive.Tiles.{
  set_reference, grid_index, grid_get, ensure_tile, progressive_quant, prepare_first,
  prepare_upgrade, prepare,
}
use drift.Codec.Progressive.Regions.{
  insert_pixels, pixels_of, charge, put_back, put_all_back, prepare_round, collect, decode_rounds,
  decode_region_tiles, clipping_from, clipping_region, visible_rects,
}
use drift.Codec.Progressive.Loops.{
  insert_key, extend_keys, show_tiles, decode_region, block_step, block_loop,
}
use drift.Codec.Progressive.Decoder.{
  tiles_across, new, new_grid, decode_on, decode_sized, decode_blocks, decode,
}
use drift.Codec.Progressive.Pixels.{All}
use drift.Codec.Progressive.Bounds.{IsInside, HasVisible, decode-HasVisible}
use drift.Codec.Progressive.Blitted.{IsBlitted, decode-IsBlitted}
use drift.Codec.Progressive.Surfaces.{Untouched, decode-Untouched}

abbrev clipped : Inclusive → Inclusive → Inclusive
clipped a b = record {
  left = max a.left b.left;
  top = max a.top b.top;
  right = min a.right b.right;
  bottom = min a.bottom b.bottom;
}

abbrev clip_each : List Inclusive → Inclusive → List Inclusive
clip_each [] r = []
clip_each (a ∷ c) r =
    let rest = clip_each c r in
    if leb (max a.left r.left) (min a.right r.right)
      && leb (max a.top r.top) (min a.bottom r.bottom)
    then clipped a r ∷ rest
    else rest

clip_each-IsInside : (c : List Inclusive) (r : Inclusive) → All (IsInside r) (clip_each c r)
clip_each-IsInside [] r = tt
clip_each-IsInside (a ∷ c) r =
    elim (Bool-cases (
      leb (max a.left r.left) (min a.right r.right)
      && leb (max a.top r.top) (min a.bottom r.bottom))) [
        | inr e ↦ rw e (clip_each-IsInside c r)
        | inl e ↦ rw e (
          record {
            left = ground arith;
            top = ground arith;
            right = ground arith;
            bottom = ground arith;
            wide = ground (arith, e);
            high = ground (arith, e);
          },
          clip_each-IsInside c r,
        )
      ]

abbrev empty_slots : ℕ → List (Option ℕ)
empty_slots zero = []
empty_slots (suc n) = none ∷ empty_slots n

abbrev bytes_of : Bytes → Triple Bytes
bytes_of b = record { y = b; cb = b; cr = b }

abbrev simple_tile : Bool → ProgressiveTile
simple_tile difference = record {
  x_idx = 1;
  y_idx = 0;
  block = first (record {
    difference = difference;
    quant_idx = record { y = 0; cb = 0; cr = 0 };
    streams = bytes_of [];
    quality = none;
  });
}

-- One tile twice, the second time as a difference.
abbrev two_tiles : List ProgressiveTile
two_tiles = simple_tile false ∷ simple_tile true ∷ []

abbrev blocks : List (ProgressiveBlock ℕ)
blocks =
    context false
    ∷ frame_begin
    ∷ region (record {
      rects = record { x = 0; y = 0; width = 80; height = 64 } ∷ [];
      quant_vals = 7 ∷ [];
      quant_prog_vals = [];
      tiles = two_tiles;
    })
    ∷ frame_end
    ∷ []

-- A tile is the number of its passes, and its pixel shows it.
abbrev crates : Iron
crates = record {
  Quant = ℕ;
  lossless = 0;
  TileState = ℕ;
  new_tile = λ b. 0;
  pass = λ s. s;
  coefficients = λ s. [];
  with_difference = λ s c. s + 10;
  decode_first = λ s d b p i q x. (s + 1, true);
  decode_upgrade = λ s srl raw p q. (s + 1, true);
  reconstruct_to_rgba = λ s. s ∷ 2 ∷ 3 ∷ 255 ∷ [];
  max_surface_dim = 32768;
  new_tiles = λ w h x. some (record {
    tiles_wide = (w + 63) / 64;
    tiles_high = (h + 63) / 64;
    use_reduce_extrapolate = x;
    tiles = empty_slots ((w + 63) / 64 * ((h + 63) / 64));
  });
  decode_progressive_stream = λ d. some blocks;
  Region = List Inclusive;
  new_region = [];
  rectangles = λ c. c;
  union_rectangle = λ c r. r ∷ c;
  intersect_rectangle = clip_each;
}

abbrev desk : Size ℕ
desk = record { width = 100; height = 60 }

abbrev shown_tile : BgraTile
shown_tile = record {
  origin = record { x = 64; y = 0 };
  size = record { width = 64; height = 64 };
  pixels = 3 ∷ 2 ∷ 12 ∷ 255 ∷ [];
  update_rects = record { x = 64; y = 0; width = 16; height = 60 } ∷ [];
}

-- The second block of the tile finds the state and the reference of the first.
decoded :
    decode crates (new crates) 1 0 desk []
    ≡ ((decode crates (new crates) 1 0 desk []).0, ok (shown_tile ∷ []))
unfolding rounds_of group place push_at grown add_reference set_reference grid_index grid_get
    ensure_tile progressive_quant prepare_first prepare_upgrade prepare render_bgra run
    insert_pixels pixels_of charge put_back put_all_back prepare_round collect decode_rounds
    decode_region_tiles clipping_from clipping_region visible_rects insert_key extend_keys
    tiles_across new_grid show_tiles decode_region block_step block_loop decode_on decode_sized
    decode_blocks decode
decoded = refl

too_large :
    (decode crates (new crates) 1 0 (record { width = 40000; height = 10 }) []).1
    ≡ err (surface_too_large 40000 10)
unfolding decode
too_large = refl

round_at-rounds_of_example :
    of_key
      (λ n. record { x = n; y = 0 })
      (record { x = 5; y = 0 })
      (round_at 1 (rounds_of (λ n. record { x = n; y = 0 }) (5 ∷ 6 ∷ 5 ∷ [])))
    ≡ at_index 1 (of_key (λ n. record { x = n; y = 0 }) (record { x = 5; y = 0 }) (5 ∷ 6 ∷ 5 ∷ []))
round_at-rounds_of_example =
    round_at-rounds_of (λ n. record { x = n; y = 0 }) (5 ∷ 6 ∷ 5 ∷ []) (record { x = 5; y = 0 }) 1

decode-HasVisible_example : All (HasVisible 100 60) (shown_tile ∷ [])
decode-HasVisible_example =
    decode-HasVisible crates clip_each-IsInside (new crates)
      (decode crates (new crates) 1 0 desk []).0 1 0 desk [] (shown_tile ∷ []) (omega arith) decoded

decode-Untouched_example :
    Untouched crates 2 (new crates) (decode crates (new crates) 1 0 desk []).0
decode-Untouched_example = decode-Untouched crates 1 2 refl (new crates) 0 desk []

abbrev same_pixels : ℕ → ℕ → Bytes
same_pixels zero s = []
same_pixels (suc n) s = s ∷ 2 ∷ 3 ∷ 255 ∷ same_pixels n s

length-same_pixels : (n s : ℕ) → length (same_pixels n s) ≡ n * 4
length-same_pixels zero s = refl
length-same_pixels (suc n) s = omega (arith, length-same_pixels n s)

abbrev full_crates : Iron
full_crates = record crates { reconstruct_to_rgba = λ s. same_pixels 4096 s }

abbrev full_tile : BgraTile
full_tile = record shown_tile { pixels = render_bgra full_crates 12 }

decoded_in_full :
    decode full_crates (new full_crates) 1 0 desk []
    ≡ ((decode full_crates (new full_crates) 1 0 desk []).0, ok (full_tile ∷ []))
unfolding rounds_of group place push_at grown add_reference set_reference grid_index grid_get
    ensure_tile progressive_quant prepare_first prepare_upgrade prepare run insert_pixels pixels_of
    charge put_back put_all_back prepare_round collect decode_rounds decode_region_tiles
    clipping_from clipping_region visible_rects insert_key extend_keys tiles_across new_grid
    show_tiles decode_region block_step block_loop decode_on decode_sized decode_blocks decode
decoded_in_full = refl

decode-IsBlitted_example : All IsBlitted (full_tile ∷ [])
decode-IsBlitted_example =
    decode-IsBlitted full_crates clip_each-IsInside (λ s. length-same_pixels 4096 s)
      (new full_crates) (decode full_crates (new full_crates) 1 0 desk []).0 1 0 desk []
      (full_tile ∷ []) (omega arith) decoded_in_full
