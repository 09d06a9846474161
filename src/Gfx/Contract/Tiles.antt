-- ===== src/Gfx/Contract/Tiles.antt =====
-- The commands of crates/drift-gfx/src/client.rs that decode, and the contract of a FrameSink.
use drift.Base.{
  ℕ, ◌≡◌, refl, sym, ap, ◌∙◌, true, Option, none, some, List, [], ◌∷◌, ◌++◌, Result, ok, err, inl,
  inr, if◌then◌else◌, Bool-cases,
}
use drift.Base.Maps.{nat_key}
use drift.Base.Maps
use drift.Core.Geometry.{Rect, fits_within}
use drift.Gfx.Codecs.{Codecs}
use drift.Gfx.Monad.{◌>>=◌, ◌>>◌, check, return, map_err}
use drift.Gfx.State.{
  GfxState, GfxError, PixelFormat, Surface, surface, ensure_within, destination, decode, malformed,
}
use drift.Gfx.Sink.{SinkCall, Blit, accept, accept_all, all_fit}
use drift.Gfx.Sink as Sink
use drift.Gfx.Pdu.{
  Rect16, Bytes, Codec1Type, avc420, uncompressed, planar, clear_codec, remote_fx, alpha, avc444,
  avc444v2,
}
use drift.Gfx.Client
use drift.Gfx.Client.{
  Client, Method, tell, clip_all, rect_of, unless_empty, blit, run_h264, show_frame,
}
use drift.Gfx.Handler.{
  decoded, run_clear, draw_tile, run_codec, wire_to_surface_1, blit_tiles, wire_to_surface_2,
  run_progressive,
}
use drift.Gfx.Contract.{
  view, surface-get, Keeps, Behaves, silent, tell-Behaves, followed_by, checked, clip_all-all_fit,
}

module _ (k : Codecs) where
  rebase :
      {A : Type 0} (c c' : Client k) (o : Result (GfxError k.Detail) A × Client k)
      → c'.sink ≡ c.sink
      → c'.state ≡ c.state
      → Behaves k c' o
      → Behaves k c o
  rebase c c' (ok a, d) e s (calls, f, g) =
      (calls, f ∙ ap (λ l. l ++ calls) e, ap (λ t. accept_all calls (view t)) (sym s) ∙ g)
  rebase c c' (err x, d) e s (f, g) = (f ∙ e, g ∙ s)

  -- A decoder runs first.
  ran :
      {A B : Type 0} (o : Result (GfxError k.Detail) A × Client k) (f : A → Method k B)
      (c : Client k)
      → o.1.sink ≡ c.sink
      → o.1.state ≡ c.state
      → ((a : A) → Behaves k o.1 (f a o.1))
      → Behaves k c (((λ x. o) >>= f) c)
  ran (ok a, c') f c e s h = rebase c c' (f a c') e s (h a)
  ran (err x, c') f c e s h = (e, s)

  -- A method that cannot fail, keeps the contract and leaves the state.
  abbrev Draws : Client k → Result (GfxError k.Detail) (Unit {0}) × Client k → Type 0
  Draws c (ok u, c') = Keeps k c c' × (c'.state ≡ c.state)
  Draws c (err e, c') = ⊥

  Draws-Behaves :
      (c : Client k) (o : Result (GfxError k.Detail) (Unit {0}) × Client k)
      → Draws c o
      → Behaves k c o
  Draws-Behaves c (ok u, c') d = d.0
  Draws-Behaves c (err e, c') d = absurd d

  extend :
      (c c' : Client k) (o : Result (GfxError k.Detail) (Unit {0}) × Client k)
      → Keeps k c c'
      → c'.state ≡ c.state
      → Draws c' o
      → Draws c o
  extend c c' (ok u, d) h s (h', s') = (followed_by k c c' d h h', s' ∙ s)
  extend c c' (err e, d) h s x = x

  in_turn :
      (o : Result (GfxError k.Detail) (Unit {0}) × Client k) (f : Method k (Unit {0}))
      (c : Client k)
      → Draws c o
      → ((c' : Client k) → c'.state ≡ c.state → Draws c' (f c'))
      → Draws c (((λ x. o) >> f) c)
  in_turn (ok u, c') f c (h, s) g = extend c c' (f c') h s (g c' s)
  in_turn (err e, c') f c d g = d

  module _ (id : ℕ) (s : Surface) where
    pieces :
        (b : Blit) (c : Client k)
        → Maps.get id c.state.surfaces ≡ some s
        → Draws c ((if fits_within b.rect s.size then tell k (Sink.blits id b) else return tt) c)
    unfolding accept
    pieces b c p = elim (Bool-cases (fits_within b.rect s.size)) [
      | inl e ↦ rw e (tell-Behaves k (Sink.blits id b) c (rw (p, e) refl), refl)
      | inr e ↦ rw e (silent k c c refl refl, refl)
    ]

    all_pieces :
        (bs : List Blit) (c : Client k)
        → Maps.get id c.state.surfaces ≡ some s
        → Draws c (blit k id s.size bs c)
    unfolding blit
    all_pieces [] c p = (silent k c c refl refl, refl)
    all_pieces (b ∷ bs) c p =
        in_turn ((if fits_within b.rect s.size then tell k (Sink.blits id b) else return tt) c)
          (blit k id s.size bs) c (pieces b c p)
          (λ c' e. all_pieces bs c' (ap (λ (t : GfxState). Maps.get id t.surfaces) e ∙ p))

    all_tiles :
        (ts : List (List Blit)) (c : Client k)
        → Maps.get id c.state.surfaces ≡ some s
        → Draws c (blit_tiles k id s.size ts c)
    unfolding blit_tiles
    all_tiles [] c p = (silent k c c refl refl, refl)
    all_tiles (t ∷ ts) c p =
        in_turn (blit k id s.size t c) (blit_tiles k id s.size ts) c (all_pieces t c p)
          (λ c' e. all_tiles ts c' (ap (λ (x : GfxState). Maps.get id x.surfaces) e ∙ p))

    shown :
        (frame : Option k.Frame) (regions : List Rect) (c : Client k)
        → Maps.get id c.state.surfaces ≡ some s
        → all_fit s.size regions ≡ true
        → Behaves k c (show_frame k id regions frame c)
    unfolding accept
    shown none regions c p q = silent k c c refl refl
    shown (some f) [] c p q = silent k c c refl refl
    shown (some f) (r ∷ rs) c p q =
        tell-Behaves k (Sink.blits_nv12 id f (r ∷ rs)) c (rw (p, q) refl)

    pub avc420-Behaves :
        (bytes : Bytes) (c : Client k)
        → Maps.get id c.state.surfaces ≡ some s
        → Behaves k c (Client.avc420 k id s.size bytes c)
    unfolding Client.avc420
    avc420-Behaves bytes c p =
        let parsed = map_err (λ d. decode (malformed d)) (k.parse_avc420 bytes) in
        let show : List Rect → Bytes → Method k (Unit {0}) =
          λ regions stream. run_h264 k stream >>= show_frame k id regions in
        let region : List Rect16 × Bytes → Method k (Unit {0}) =
          λ (rs, stream). check (clip_all k s.size rs) >>= λ regions. show regions stream in
        checked k parsed region c λ (rs, stream) e.
          checked k (clip_all k s.size rs) (λ regions. show regions stream) c
            λ regions q. ran (run_h264 k stream c) (show_frame k id regions) c refl refl λ frame.
              shown frame regions (run_h264 k stream c).1 p (clip_all-all_fit k s.size rs regions q)

    drawn :
        (dest : Rect) (m : Method k (List Blit)) (c : Client k)
        → Maps.get id c.state.surfaces ≡ some s
        → (m c).1.sink ≡ c.sink
        → (m c).1.state ≡ c.state
        → Behaves k c (draw_tile k id s.size dest m c)
    drawn dest m c p e f =
        checked k (ensure_within id s.size dest destination) (λ u. m >>= blit k id s.size) c
          λ u w. ran (m c) (blit k id s.size) c e f λ tile.
            Draws-Behaves (m c).1 (blit k id s.size tile (m c).1)
              (all_pieces tile (m c).1 (ap (λ (t : GfxState). Maps.get id t.surfaces) f ∙ p))

    run_codec-Behaves :
        (type : Codec1Type) (format : PixelFormat) (dest : Rect) (bytes : Bytes) (c : Client k)
        → Maps.get id c.state.surfaces ≡ some s
        → Behaves k c (run_codec k type id s.size format dest bytes c)
    run_codec-Behaves avc420 format dest bytes c p = avc420-Behaves bytes c p
    run_codec-Behaves uncompressed format dest bytes c p =
        drawn dest (decoded k (k.decode_uncompressed dest format bytes)) c p refl refl
    run_codec-Behaves planar format dest bytes c p =
        drawn dest (decoded k (k.decode_planar dest bytes)) c p refl refl
    run_codec-Behaves clear_codec format dest bytes c p =
        drawn dest (run_clear k dest bytes) c p refl refl
    run_codec-Behaves remote_fx format dest bytes c p = (refl, refl)
    run_codec-Behaves alpha format dest bytes c p = (refl, refl)
    run_codec-Behaves avc444 format dest bytes c p = (refl, refl)
    run_codec-Behaves avc444v2 format dest bytes c p = (refl, refl)

  pub wire_to_surface_1-Behaves :
      (id : ℕ) (type : Codec1Type) (format : PixelFormat) (r : Rect16) (bytes : Bytes)
      (c : Client k)
      → Behaves k c (wire_to_surface_1 k id type format r bytes c)
  unfolding wire_to_surface_1
  wire_to_surface_1-Behaves id type format r bytes c =
      let run : Surface → Rect → Method k (Unit {0}) =
        λ s dest. run_codec k type id s.size format dest bytes in
      checked k (surface c.state id) (λ s. check (rect_of k r) >>= run s) c
        λ s p.
          checked k (rect_of k r) (run s) c
            λ dest q. run_codec-Behaves id s type format dest bytes c (surface-get c.state id s p)

  pub wire_to_surface_2-Behaves :
      (id context : ℕ) (bytes : Bytes) (c : Client k)
      → Behaves k c (wire_to_surface_2 k id context bytes c)
  unfolding wire_to_surface_2
  wire_to_surface_2-Behaves id context bytes c =
      let run : Surface → Method k (Unit {0}) =
        λ s. run_progressive k id context s.size bytes >>= blit_tiles k id s.size in
      checked k (surface c.state id) run c λ s p.
        let c' = (run_progressive k id context s.size bytes c).1 in
        ran (run_progressive k id context s.size bytes c) (blit_tiles k id s.size) c refl refl
          λ tiles.
            Draws-Behaves c' (blit_tiles k id s.size tiles c')
              (all_tiles id s tiles c' (surface-get c.state id s p))
