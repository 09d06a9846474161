-- ===== src/Gfx/Sink.antt =====
-- crates/drift-gfx/src/sink.rs: the calls of `FrameSink`, and its contract as a checker: every
-- surface and slot that a call names is there, and every rectangle lies inside its surface.
use drift.Base.{
  ℕ, Bool, true, false, not, ◌&&◌, Option, none, some, List, [], ◌∷◌, ◌==◌, is_some, if◌then◌else◌,
}
use drift.Core.Geometry.{Size, Point, Rect, Bgra, size, fits_within}
use drift.Gfx.Pdu.{Bytes}

-- One piece of a decoded tile: `BgraBlit` of drift-codec.
pub record Blit : Type 0 where
  pub rect : Rect
  pub stride : ℕ
  pub pixels : Bytes

pub data SinkCall (F : Type 0) : Type 0 where
  resets : Size ℕ → SinkCall F
  creates : ℕ → Size ℕ → SinkCall F
  deletes : ℕ → SinkCall F
  maps : ℕ → Point ℕ → SinkCall F
  blits : ℕ → Blit → SinkCall F
  blits_nv12 : ℕ → F → List Rect → SinkCall F
  fills : ℕ → Bgra → List Rect → SinkCall F
  copies : ℕ → ℕ → Rect → List (Point ℕ) → SinkCall F
  caches : ℕ → Rect → ℕ → SinkCall F
  draws : ℕ → ℕ → List (Point ℕ) → SinkCall F
  evicts : ℕ → SinkCall F
  ends_frame : ℕ → SinkCall F
  shows : Bool → SinkCall F

-- What a sink knows: the sizes of its surfaces and of the images in its cache slots.
pub record View : Type 0 where
  pub surfaces : ℕ → Option (Size ℕ)
  pub slots : ℕ → Option (Size ℕ)

abbrev pub nothing_shown : View
nothing_shown = record { surfaces = λ i. none; slots = λ i. none }

abbrev pub put : (ℕ → Option (Size ℕ)) → ℕ → Option (Size ℕ) → ℕ → Option (Size ℕ)
put f i v j = if j == i then v else f j

abbrev pub all_fit : Size ℕ → List Rect → Bool
all_fit b [] = true
all_fit b (r ∷ rs) = fits_within r b && all_fit b rs

abbrev pub at : Size ℕ → Point ℕ → Rect
at s p = record { x = p.x; y = p.y; width = s.width; height = s.height }

-- An image of a size fits at each of the points.
abbrev pub all_fit_at : Size ℕ → Size ℕ → List (Point ℕ) → Bool
all_fit_at b s [] = true
all_fit_at b s (p ∷ ps) = fits_within (at s p) b && all_fit_at b s ps

-- The surface is there, and its size passes a test.
abbrev pub on : Option (Size ℕ) → (Size ℕ → Bool) → Bool
on none p = false
on (some b) p = p b

abbrev when : Bool → View → Option View
when true v = some v
when false v = none

abbrev pub and_then : Option View → (View → Option View) → Option View
and_then none f = none
and_then (some v) f = f v

module _ {F : Type 0} where
  -- `none` where the call breaks the contract.
  unfoldable pub accept : SinkCall F → View → Option View
  accept (resets output) v = some nothing_shown
  accept (creates id size) v =
      when (not (is_some (v.surfaces id))) (record v { surfaces = put v.surfaces id (some size) })
  accept (deletes id) v =
      when (is_some (v.surfaces id)) (record v { surfaces = put v.surfaces id none })
  accept (maps id origin) v = when (is_some (v.surfaces id)) v
  accept (blits id b) v = when (on (v.surfaces id) (fits_within b.rect)) v
  accept (blits_nv12 id frame regions) v = when (on (v.surfaces id) (λ b. all_fit b regions)) v
  accept (fills id color rects) v = when (on (v.surfaces id) (λ b. all_fit b rects)) v
  accept (copies src dst r dests) v =
      when
        (on (v.surfaces src) (fits_within r)
          && on (v.surfaces dst) (λ b. all_fit_at b (size r) dests))
        v
  accept (caches id r slot) v =
      when (on (v.surfaces id) (fits_within r))
        (record v { slots = put v.slots slot (some (size r)) })
  accept (draws slot id dests) v =
      when (on (v.slots slot) (λ s. on (v.surfaces id) (λ b. all_fit_at b s dests))) v
  accept (evicts slot) v =
      when (is_some (v.slots slot)) (record v { slots = put v.slots slot none })
  accept (ends_frame id) v = some v
  accept (shows visible) v = some v

  unfoldable pub accept_all : List (SinkCall F) → View → Option View
  accept_all [] v = some v
  accept_all (c ∷ cs) v = and_then (accept c v) (accept_all cs)
