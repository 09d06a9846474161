-- ===== src/Gfx/Contract/Drawing.antt =====
-- The drawing commands of crates/drift-gfx/src/client.rs and the contract of a FrameSink.
use drift.Base.{ℕ, ◌≡◌, refl, true, some, List, [], ◌∷◌, ok, arith}
use drift.Base.Maps.{nat_key}
use drift.Base.Maps
use drift.Core.Geometry.{Size, Point, Rect, Bgra, size, fits_within}
use drift.Gfx.Codecs.{Codecs}
use drift.Gfx.Monad.{◌>>=◌, check}
use drift.Gfx.State.{GfxState, Surface, surface, cache_entry, ensure_within, What, source}
use drift.Gfx.Sink.{View, SinkCall, Blit, accept, accept_all, and_then, all_fit, all_fit_at, at, on}
use drift.Gfx.Sink as Sink
use drift.Gfx.Pdu.{Rect16}
use drift.Gfx.Client.{
  Client, Method, tell, clip_all, destinations, rect_of, unless_empty, alpha_of, solid_fill,
  surface_to_surface, cache_to_surface,
}
use drift.Gfx.Contract.{
  surface-get, Behaves, silent, tell-Behaves, checked, clip_all-all_fit, destinations-all_fit,
}

module _ (k : Codecs) where
  filled :
      (id : ℕ) (color : Bgra) (s : Surface) (fits : List Rect) (c : Client k)
      → surface {D = k.Detail} c.state id ≡ ok s
      → all_fit s.size fits ≡ true
      → Behaves k c (unless_empty k fits (tell k (Sink.fills id color fits)) c)
  unfolding accept
  filled id color s [] c p q = silent k c c refl refl
  filled id color s (r ∷ rs) c p q =
      tell-Behaves k (Sink.fills id color (r ∷ rs)) c (rw (surface-get c.state id s p, q) refl)

  pub solid_fill-Behaves :
      (id : ℕ) (pixel : Bgra) (rs : List Rect16) (c : Client k)
      → Behaves k c (solid_fill k id pixel rs c)
  unfolding solid_fill
  solid_fill-Behaves id pixel rs c =
      let color : Surface → Bgra = λ s. record pixel { a = alpha_of k s.format pixel.a } in
      let fill : Surface → List Rect → Method k (Unit {0}) =
        λ s fits. unless_empty k fits (tell k (Sink.fills id (color s) fits)) in
      checked k (surface c.state id) (λ s. check (clip_all k s.size rs) >>= fill s) c
        λ s p.
          checked k (clip_all k s.size rs) (fill s) c
            λ fits q. filled id (color s) s fits c p (clip_all-all_fit k s.size rs fits q)

  pub ensure_within-fits :
      (id : ℕ) (b : Size ℕ) (r : Rect) (what : What) (u : Unit {0})
      → ensure_within {D = k.Detail} id b r what ≡ ok u
      → fits_within r b ≡ true
  unfolding ensure_within
  ensure_within-fits id b r what u e = ground arith

  pub surface_to_surface-Behaves :
      (from to : ℕ) (r : Rect16) (ps : List (Point ℕ)) (c : Client k)
      → Behaves k c (surface_to_surface k from to r ps c)
  unfolding surface_to_surface accept
  surface_to_surface-Behaves from to r16 ps c =
      let copy : Rect → List (Point ℕ) → Method k (Unit {0}) =
        λ r dests. tell k (Sink.copies from to r dests) in
      let place : Surface → Rect → Method k (Unit {0}) =
        λ dst r. check (destinations k to dst.size (size r) ps) >>= copy r in
      let within : Surface → Surface → Rect → Method k (Unit {0}) =
        λ src dst r. check (ensure_within from src.size r source) >>= λ u. place dst r in
      let cut : Surface → Surface → Method k (Unit {0}) =
        λ src dst. check (rect_of k r16) >>= within src dst in
      checked k (surface c.state from) (λ src. check (surface c.state to) >>= cut src) c
        λ src p. checked k (surface c.state to) (cut src) c λ dst p'.
          checked k (rect_of k r16) (within src dst) c λ r q.
            checked k (ensure_within from src.size r source) (λ u. place dst r) c
              λ u w. checked k (destinations k to dst.size (size r) ps) (copy r) c λ dests d.
                tell-Behaves k (Sink.copies from to r dests) c (
                  rw
                    (
                      surface-get c.state from src p,
                      surface-get c.state to dst p',
                      ensure_within-fits from src.size r source u w,
                      destinations-all_fit k to dst.size (size r) ps dests d,
                    )
                    refl)

  cache_entry-get :
      (s : GfxState) (slot : ℕ) (b : Size ℕ)
      → cache_entry {D = k.Detail} s slot ≡ ok b
      → Maps.get slot s.cache ≡ some b
  unfolding cache_entry
  cache_entry-get s slot b e = ground arith

  pub cache_to_surface-Behaves :
      (slot id : ℕ) (ps : List (Point ℕ)) (c : Client k)
      → Behaves k c (cache_to_surface k slot id ps c)
  unfolding cache_to_surface accept
  cache_to_surface-Behaves slot id ps c =
      let draw : List (Point ℕ) → Method k (Unit {0}) =
        λ dests. tell k (Sink.draws slot id dests) in
      let place : Size ℕ → Surface → Method k (Unit {0}) =
        λ b target. check (destinations k id target.size b ps) >>= draw in
      checked k (cache_entry c.state slot) (λ b. check (surface c.state id) >>= place b) c
        λ b p. checked k (surface c.state id) (place b) c λ target q.
          checked k (destinations k id target.size b ps) draw c λ dests d.
            tell-Behaves k (Sink.draws slot id dests) c (
              rw
                (
                  cache_entry-get c.state slot b p,
                  surface-get c.state id target q,
                  destinations-all_fit k id target.size b ps dests d,
                )
                refl)
