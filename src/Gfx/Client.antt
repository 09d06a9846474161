-- ===== src/Gfx/Client.antt =====
-- crates/drift-gfx/src/client.rs: the client of the graphics channel. The pixel codecs, the H.264
-- decoder and the third-party parsers are the interface of Gfx/Codecs.antt; the sink is the list of the calls
-- that it was made, oldest first.
use drift.Base.{ℕ, Option, none, some, List, [], ◌∷◌, ◌++◌, if◌then◌else◌, Result, ok, err}
use drift.Core.Geometry.{Size, Point, Rect, Bgra, size, fits_within}
use drift.Gfx.Codecs.{Codecs}
use drift.Gfx.Monad.{M, ◌>>=◌, ◌>>◌, return, check, modify, map_err}
use drift.Gfx.State.{
  PixelFormat, xrgb, argb, Surface, GfxState, GfxError, source, destination, decode, h264,
  malformed, initial, reset, surface, cache_store, cache_entry, rect, ensure_within, clip,
}
use drift.Gfx.Ack.{AckState, frame_ended, set_hidden}
use drift.Gfx.Ack as Ack
use drift.Gfx.Pdu.{Bytes, Rect16}
use drift.Gfx.Sink.{Blit, SinkCall, at}
use drift.Gfx.Sink as Sink

module _ (k : Codecs) where
  pub record Client : Type 0 where
    pub sink : List (SinkCall k.Frame)
    pub h264_state : k.H264
    pub progressive : k.Progressive
    pub clear : k.Clear
    pub zgfx_state : k.Zgfx
    pub state : GfxState
    pub acks : AckState
    pub confirmed : Option k.CapabilitySet
    pub output : Size ℕ
    pub error : Option (GfxError k.Detail)

  -- `GfxClient::new`.
  unfoldable pub new : k.H264 → k.Progressive → k.Zgfx → Client
  new h p z = record {
    sink = [];
    h264_state = h;
    progressive = p;
    clear = k.new_clear;
    zgfx_state = z;
    state = initial;
    acks = Ack.initial;
    confirmed = none;
    output = record { width = 0; height = 0 };
    error = none;
  }

  -- A method of the client.
  abbrev pub Method : Type 0 → Type 0
  Method A = M Client k.Detail A

  abbrev pub look_up : ℕ → Method Surface
  look_up id c = (surface c.state id, c)

  -- A call of the sink.
  abbrev pub tell : SinkCall k.Frame → Method (Unit {0})
  tell call c = (ok tt, record c { sink = c.sink ++ call ∷ [] })

  abbrev pub rect_of : Rect16 → Result (GfxError k.Detail) Rect
  rect_of r = rect r.left r.top r.right r.bottom

  abbrev with_surfaces_dropped : List ℕ → k.Progressive → k.Progressive
  with_surfaces_dropped [] p = p
  with_surfaces_dropped (id ∷ ids) p = with_surfaces_dropped ids (k.delete_surface p id)

  -- `GfxClient::reset_graphics`.
  unfoldable pub reset_graphics : Size ℕ → Method (Unit {0})
  reset_graphics output = do
    modify (λ c. record c {
      state = (reset c.state).0;
      progressive = k.reset_progressive (with_surfaces_dropped (reset c.state).1 c.progressive);
      clear = k.new_clear;
      h264_state = k.reset_h264 c.h264_state;
      output = output;
    })
    tell (Sink.resets output)

  abbrev pub keep : Option Rect → List Rect → List Rect
  keep none rs = rs
  keep (some r) rs = r ∷ rs

  -- One rectangle, and the rest of the loop.
  abbrev pub add_clipped :
      Size ℕ
      → Result (GfxError k.Detail) Rect
      → Result (GfxError k.Detail) (List Rect)
      → Result (GfxError k.Detail) (List Rect)
  add_clipped bounds (err e) rest = err e
  add_clipped bounds (ok r) (err e) = err e
  add_clipped bounds (ok r) (ok rs) = ok (keep (clip r bounds) rs)

  -- The loop that clips the rectangles of `solid_fill` and `avc420`.
  unfoldable pub clip_all : Size ℕ → List Rect16 → Result (GfxError k.Detail) (List Rect)
  clip_all bounds [] = ok []
  clip_all bounds (r ∷ rs) = add_clipped bounds (rect_of r) (clip_all bounds rs)

  abbrev pub unless_empty : {A : Type 0} → List A → Method (Unit {0}) → Method (Unit {0})
  unless_empty [] m = return tt
  unless_empty (a ∷ as') m = m

  abbrev pub alpha_of : PixelFormat → ℕ → ℕ
  alpha_of argb xa = xa
  alpha_of xrgb xa = 0xFF

  -- `GfxClient::solid_fill`.
  unfoldable pub solid_fill : ℕ → Bgra → List Rect16 → Method (Unit {0})
  unfolding clip_all
  solid_fill id pixel rectangles = do
    s ← look_up id
    rects ← check (clip_all s.size rectangles)
    unless_empty rects (tell (Sink.fills id (record pixel { a = alpha_of s.format pixel.a }) rects))

  -- One point, after its check, and the rest of the points.
  abbrev pub add_point :
      Point ℕ
      → Result (GfxError k.Detail) (Unit {0})
      → Result (GfxError k.Detail) (List (Point ℕ))
      → Result (GfxError k.Detail) (List (Point ℕ))
  add_point p (err e) rest = err e
  add_point p (ok u) (err e) = err e
  add_point p (ok u) (ok ps) = ok (p ∷ ps)

  -- `GfxClient::destinations`.
  unfoldable pub destinations :
      ℕ → Size ℕ → Size ℕ → List (Point ℕ) → Result (GfxError k.Detail) (List (Point ℕ))
  destinations id bounds s [] = ok []
  destinations id bounds s (p ∷ ps) =
      add_point p (ensure_within id bounds (at s p) destination) (destinations id bounds s ps)

  -- `GfxClient::surface_to_surface`.
  unfoldable pub surface_to_surface : ℕ → ℕ → Rect16 → List (Point ℕ) → Method (Unit {0})
  surface_to_surface from to source_rectangle points = do
    src ← look_up from
    dst ← look_up to
    r ← check (rect_of source_rectangle)
    check (ensure_within from src.size r source)
    dests ← check (destinations to dst.size (size r) points)
    tell (Sink.copies from to r dests)

  -- A state method with `?`: the new state is kept, an error leaves the old one.
  abbrev pub keep_state : Result (GfxError k.Detail) GfxState → Method (Unit {0})
  keep_state (ok state') c = (ok tt, record c { state = state' })
  keep_state (err e) c = (err e, c)

  -- `self.state.cache_store(..)?`.
  abbrev pub store_in_cache : ℕ → Size ℕ → Method (Unit {0})
  store_in_cache slot s c = keep_state (cache_store c.state slot s) c

  -- `GfxClient::surface_to_cache`.
  unfoldable pub surface_to_cache : ℕ → ℕ → Rect16 → Method (Unit {0})
  surface_to_cache id slot source_rectangle = do
    s ← look_up id
    r ← check (rect_of source_rectangle)
    check (ensure_within id s.size r source)
    store_in_cache slot (size r)
    tell (Sink.caches id r slot)

  abbrev look_in_cache : ℕ → Method (Size ℕ)
  look_in_cache slot c = (cache_entry c.state slot, c)

  -- `GfxClient::cache_to_surface`.
  unfoldable pub cache_to_surface : ℕ → ℕ → List (Point ℕ) → Method (Unit {0})
  cache_to_surface slot id points = do
    s ← look_in_cache slot
    target ← look_up id
    dests ← check (destinations id target.size s points)
    tell (Sink.draws slot id dests)

  -- `GfxClient::blit`: the pieces that fit.
  unfoldable pub blit : ℕ → Size ℕ → List Blit → Method (Unit {0})
  blit id bounds [] = return tt
  blit id bounds (b ∷ bs) = do
    if fits_within b.rect bounds then tell (Sink.blits id b) else return tt
    blit id bounds bs

  abbrev pub run_h264 : Bytes → Method (Option k.Frame)
  run_h264 stream c =
      let (r, h) = k.decode_h264 c.h264_state stream in
      (map_err h264 r, record c { h264_state = h })

  abbrev pub show_frame : ℕ → List Rect → Option k.Frame → Method (Unit {0})
  show_frame id regions none = return tt
  show_frame id regions (some f) = unless_empty regions (tell (Sink.blits_nv12 id f regions))

  -- `GfxClient::avc420`; the H.264 decoder runs also when no region is visible.
  unfoldable pub avc420 : ℕ → Size ℕ → Bytes → Method (Unit {0})
  avc420 id bounds payload = do
    (rectangles, stream) ← check (map_err (λ d. decode (malformed d)) (k.parse_avc420 payload))
    regions ← check (clip_all bounds rectangles)
    frame ← run_h264 stream
    show_frame id regions frame
