-- ===== src/Codec/Progressive/Surfaces.antt =====
-- The decoding on one surface leaves what is retained of the others.
use drift.Base.{
  ℕ, ◌≡◌, refl, ◌∙◌, Bool, false, ◌&&◌, Option, none, some, List, [], ◌==◌, leb, arith, Bool-cases,
  inl, inr, Result, ok, err,
}
use drift.Core.Geometry.{Size}
use drift.Gfx.Pdu.{Bytes}
use drift.Codec.Tile.{CodecError, malformed}
use drift.Codec.Progressive.Blocks.{Iron, ProgressiveBlock}
use drift.Codec.Progressive.Rounds.{TileKey}
use drift.Codec.Progressive.Tiles.{Grid}
use drift.Codec.Progressive.Loops.{Loop, block_loop}
use drift.Codec.Progressive.Decoder.{
  ProgressiveCodec, outcome, started, decode_on, on_new_grid, decode_sized, is_resized, on_context,
  on_flag, on_stream, signalled, decode_blocks, decode, new_grid, or_new, remember, settled,
  set_context, keys_or_none,
}
use drift.Codec.Progressive.Isolation.{Same, block_loop-Same}

-- The grids, the references and the flag that are retained of a surface.
pub record Untouched (iron : Iron) (surface : ℕ) (p q : ProgressiveCodec iron) : Type 0 where
  pub contexts : (c : ℕ) → q.contexts surface c ≡ p.contexts surface c
  pub references : (key : TileKey) → q.references surface key ≡ p.references surface key
  pub flag : q.surface_context_flags surface ≡ p.surface_context_flags surface

module _ (iron : Iron) (s other_surface : ℕ) (apart : (other_surface == s) ≡ false) where
  abbrev Kept : ProgressiveCodec iron → ProgressiveCodec iron → Type 0
  Kept = Untouched iron other_surface

  Untouched-trans : {p q r : ProgressiveCodec iron} → Kept p q → Kept q r → Kept p r
  Untouched-trans h k = record {
    contexts = λ c. k.contexts c ∙ h.contexts c;
    references = λ key. k.references key ∙ h.references key;
    flag = k.flag ∙ h.flag;
  }

  Untouched-refl : (p : ProgressiveCodec iron) → Kept p p
  Untouched-refl p = record { contexts = λ c. refl; references = λ key. refl; flag = refl }

  settled-Untouched : (p : ProgressiveCodec iron) → Kept p (settled iron p)
  settled-Untouched p = record {
    contexts = λ c. ground arith;
    references = λ key. ground arith;
    flag = ground arith;
  }

  remember-Untouched : (p : ProgressiveCodec iron) (b : Option Bool) → Kept p (remember iron p s b)
  remember-Untouched p none = Untouched-refl p
  remember-Untouched p (some b) = record {
    contexts = λ c. refl;
    references = λ key. refl;
    flag = rw apart;
  }

  set_context-Untouched :
      (p : ProgressiveCodec iron) (c : ℕ) (g : Grid iron) → Kept p (set_context iron p s c g)
  set_context-Untouched p c g = record {
    contexts = λ c'. rw apart;
    references = λ key. refl;
    flag = refl;
  }

  outcome-Untouched :
      (p : ProgressiveCodec iron) (c : ℕ) (done : Loop iron × Option CodecError)
      → Same iron s other_surface apart p.references done.0.shared.references
      → Kept p (outcome iron p s c done).0
  outcome-Untouched p c (l, some e) h = record {
    contexts = λ c'. rw apart;
    references = h;
    flag = refl;
  }
  outcome-Untouched p c (l, none) h =
      Untouched-trans changed (settled-Untouched (outcome iron p s c (l, some malformed)).0)
    where
      changed : Kept p (outcome iron p s c (l, some malformed)).0
      changed = record { contexts = λ c'. rw apart; references = h; flag = refl }

  decode_on-Untouched :
      (p : ProgressiveCodec iron) (c width height : ℕ) (x : Bool)
      (bs : List (ProgressiveBlock iron.Quant)) (g : Grid iron) (keys : List TileKey)
      → Kept p (decode_on iron p s c width height x bs g keys).0
  unfolding decode_on
  decode_on-Untouched p c width height x bs g keys =
      let l = started iron p.references g x keys in
      outcome-Untouched p c (block_loop iron l s x width height bs)
        (block_loop-Same iron s other_surface apart bs l x width height)

  decode_sized-Untouched :
      (p : ProgressiveCodec iron) (c width height : ℕ) (x : Bool)
      (bs : List (ProgressiveBlock iron.Quant)) (g : Grid iron)
      → Kept p (decode_sized iron p s c width height x bs g).0
  unfolding decode_sized
  decode_sized-Untouched p c width height x bs g =
      elim (Bool-cases (is_resized iron g width height)) [
        | inl e ↦ rw e (on_new_grid-Untouched (new_grid iron width height x))
        | inr e ↦
            rw e
              (decode_on-Untouched p c width height x bs g (keys_or_none iron (p.frame_tiles s c)))
      ]
    where
      on_new_grid-Untouched :
          (r : Result CodecError (Grid iron))
          → Kept p (on_new_grid iron p s c width height x bs r).0
      on_new_grid-Untouched (err e) = Untouched-refl p
      on_new_grid-Untouched (ok g) = decode_on-Untouched p c width height x bs g []

  on_context-Untouched :
      (p : ProgressiveCodec iron) (c width height : ℕ) (x : Bool)
      (bs : List (ProgressiveBlock iron.Quant)) (r : Result CodecError (Grid iron))
      → Kept p (on_context iron p s c width height x bs r).0
  on_context-Untouched p c width height x bs (err e) = Untouched-refl p
  on_context-Untouched p c width height x bs (ok g) =
      Untouched-trans (set_context-Untouched p c g)
        (decode_sized-Untouched (set_context iron p s c g) c width height x bs g)

  on_flag-Untouched :
      (p : ProgressiveCodec iron) (c width height : ℕ) (bs : List (ProgressiveBlock iron.Quant))
      (flag : Option Bool)
      → Kept p (on_flag iron p s c width height bs flag).0
  on_flag-Untouched p c width height bs none = Untouched-refl p
  on_flag-Untouched p c width height bs (some x) = Untouched-trans (settled-Untouched p) (
      on_context-Untouched (settled iron p) c width height x bs
        (or_new iron (p.contexts s c) width height x))

  on_stream-Untouched :
      (p : ProgressiveCodec iron) (c width height : ℕ)
      (bs : Option (List (ProgressiveBlock iron.Quant)))
      → Kept p (on_stream iron p s c width height bs).0
  unfolding decode_blocks
  on_stream-Untouched p c width height none = Untouched-refl p
  on_stream-Untouched p c width height (some bs) =
      Untouched-trans (remember-Untouched p (signalled iron bs))
        (on_flag-Untouched (remember iron p s (signalled iron bs)) c width height bs _)

  -- Whatever is decoded on a surface, and also if it fails, what is retained of any other surface stays
  -- as it is: its grids in every codec context, its references, and the flag of its context.
  pub decode-Untouched :
      (p : ProgressiveCodec iron) (c : ℕ) (surface : Size ℕ) (stream : Bytes)
      → Untouched iron other_surface p (decode iron p s c surface stream).0
  unfolding decode
  decode-Untouched p c surface stream =
      elim (Bool-cases
        (leb surface.width iron.max_surface_dim && leb surface.height iron.max_surface_dim)) [
          | inl fits ↦ rw fits (
              on_stream-Untouched p c surface.width surface.height
                (iron.decode_progressive_stream stream))
          | inr large ↦ rw large (Untouched-refl p)
        ]
