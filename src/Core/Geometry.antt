-- ===== src/Core/Geometry.antt =====
-- crates/drift-core/src/geometry.rs: sizes, points and half-open pixel rectangles in u32.
-- `ViewGeometry` holds f64 values and is not modelled.
use drift.Base.{ℕ, ◌+◌, ◌-◌, min, Bool, ◌&&◌, ◌||◌, Option, none, some, leb, ◌==◌, if◌then◌else◌}

pub record Size (T : Type 0) : Type 0 where
  pub width : T
  pub height : T

abbrev pub DesktopSize : Type 0
DesktopSize = Size ℕ

pub record Point (T : Type 0) : Type 0 where
  pub x : T
  pub y : T

pub record Rect : Type 0 where
  pub x : ℕ
  pub y : ℕ
  pub width : ℕ
  pub height : ℕ

-- `u32::MAX`.
abbrev pub u32_max : ℕ
u32_max = 4294967295

-- `u32::saturating_add`.
abbrev pub saturating_add : ℕ → ℕ → ℕ
saturating_add a b = min (a + b) u32_max

-- `u32::checked_sub`.
abbrev pub checked_sub : ℕ → ℕ → Option ℕ
checked_sub a b = if leb b a then some (a - b) else none

infixl 5 ◌>>=◌
abbrev ◌>>=◌ : {A B : Type 0} → Option A → (A → Option B) → Option B
none >>= f = none
some a >>= f = f a

-- `Rect::from_ltrb`.
unfoldable pub from_ltrb : ℕ → ℕ → ℕ → ℕ → Option Rect
from_ltrb left top right bottom = do
  width ← checked_sub right left
  height ← checked_sub bottom top
  some (record { x = left; y = top; width = width; height = height })

-- `Rect::right`, `Rect::bottom`: exclusive edges, saturating.
abbrev pub right : Rect → ℕ
right r = saturating_add r.x r.width

abbrev pub bottom : Rect → ℕ
bottom r = saturating_add r.y r.height

-- `Rect::size`.
abbrev pub size : Rect → Size ℕ
size r = record { width = r.width; height = r.height }

-- `Rect::is_empty`.
unfoldable pub is_empty : Rect → Bool
is_empty r = r.width == 0 || r.height == 0

-- `Rect::fits_within`.
unfoldable pub fits_within : Rect → Size ℕ → Bool
fits_within r bounds = leb (right r) bounds.width && leb (bottom r) bounds.height

pub record Bgra : Type 0 where
  pub b : ℕ
  pub g : ℕ
  pub r : ℕ
  pub a : ℕ
