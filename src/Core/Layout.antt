-- ===== src/Core/Layout.antt =====
-- crates/drift-core/src/layout.rs: the monitor layout that is requested for a view.
pub mod Bounds
mod Examples
use drift.Base.{
  ℕ, zero, suc, ◌+◌, ◌-◌, ◌*◌, ◌%◌, min, max, Bool, true, false, not, ◌&&◌, ◌||◌, Option, none,
  some, List, [], ◌∷◌, ltb, leb, ◌==◌, if◌then◌else◌,
}
use drift.Core.Geometry.{Size, u32_max}
use drift.Core.Floats.{Floats, ViewGeometry}
use drift.Core.Profile.{DisplayPrefs}

abbrev pub min_monitor_dimension : ℕ
min_monitor_dimension = 200

abbrev pub max_monitor_dimension : ℕ
max_monitor_dimension = 8192

abbrev pub device_scale_factors : List ℕ
device_scale_factors = 100 ∷ 140 ∷ 180 ∷ []

pub record DisplayControlCaps : Type 0 where
  pub max_num_monitors : ℕ
  pub max_monitor_area_factor_a : ℕ
  pub max_monitor_area_factor_b : ℕ

-- `u64::saturating_mul`.
abbrev pub saturating_mul_u64 : ℕ → ℕ → ℕ
saturating_mul_u64 a b = min (a * b) 18446744073709551615

-- `DisplayControlCaps::max_area`.
abbrev pub max_area : DisplayControlCaps → ℕ
max_area c =
    saturating_mul_u64 (saturating_mul_u64 c.max_monitor_area_factor_a c.max_monitor_area_factor_b)
      c.max_num_monitors

-- `DisplayControlCaps::default`.
abbrev pub default_caps : DisplayControlCaps
default_caps = record {
  max_num_monitors = 1;
  max_monitor_area_factor_a = max_monitor_dimension;
  max_monitor_area_factor_b = max_monitor_dimension;
}

pub record MonitorLayout : Type 0 where
  pub width : ℕ
  pub height : ℕ
  pub desktop_scale_factor : ℕ
  pub device_scale_factor : ℕ

-- `u32::abs_diff`.
abbrev pub abs_diff : ℕ → ℕ → ℕ
abs_diff a b = (a - b) + (b - a)

-- The loop of `device_scale_for`.
abbrev pub nearest : ℕ → ℕ → List ℕ → ℕ
nearest scale best [] = best
nearest scale best (c ∷ cs) =
    nearest scale (if ltb (abs_diff c scale) (abs_diff best scale) then c else best) cs

-- `device_scale_for`.
unfoldable pub device_scale_for : ℕ → ℕ
device_scale_for desktop_scale = nearest desktop_scale 100 device_scale_factors

-- The closures of `fit_to_caps`: `v.clamp(200, 8192)`, `v & !1` and the product in u64.
abbrev pub clamp : ℕ → ℕ
clamp v = min (max v min_monitor_dimension) max_monitor_dimension

abbrev pub even : ℕ → ℕ
even v = v - v % 2

abbrev pub area : Size ℕ → ℕ
area s = s.width * s.height

-- The condition of the `while` loop.
abbrev pub is_too_large : ℕ → Size ℕ → Bool
is_too_large limit s =
    ltb limit (area s) && (ltb min_monitor_dimension s.width || ltb min_monitor_dimension s.height)

-- Its body: the larger side shrinks.
abbrev pub shrink_side : Size ℕ → Size ℕ
shrink_side s =
    if (leb s.height s.width && ltb min_monitor_dimension s.width)
      || leb s.height min_monitor_dimension
    then record s { width = s.width - 2 }
    else record s { height = s.height - 1 }

-- The loop; `none` when the fuel runs out.
unfoldable pub shrink : ℕ → ℕ → Size ℕ → Option (Size ℕ)
shrink zero limit s = none
shrink (suc fuel) limit s = elim (is_too_large limit s) [
  | true ↦ shrink fuel limit (shrink_side s)
  | false ↦ some s
]

-- The sides are at most 8192 each, and each round takes at least one pixel off their sum.
abbrev pub shrink_fuel : ℕ
shrink_fuel = 16385

module _ (f : Floats) where
  -- `to_pixels`.
  unfoldable pub to_pixels : f.F64 → ℕ
  to_pixels v =
      let r = f.round v in
      if f.is_nan r || f.at_least (f.of_nat 0) r
      then 0
      else if f.at_least r (f.of_nat u32_max)
      then u32_max
      else f.to_nat r

  -- The size scaled down by the square root of the ratio of the areas.
  abbrev pub scaled : ℕ → Size ℕ → Size ℕ
  scaled limit s =
      let ratio = f.sqrt (f.divided_by (f.of_nat limit) (f.of_nat (area s))) in
      record {
        width = even (clamp (to_pixels (f.floor (f.times (f.of_nat s.width) ratio))));
        height = clamp (to_pixels (f.floor (f.times (f.of_nat s.height) ratio)));
      }

  -- `fit_to_caps`.
  unfoldable pub fit_to_caps : ℕ → ℕ → ℕ → Option (Size ℕ)
  fit_to_caps width height limit =
      let s : Size ℕ = record { width = even (clamp width); height = clamp height } in
      if leb (area s) limit then some s else shrink shrink_fuel limit (scaled limit s)

  abbrev layout_of : ℕ → Option (Size ℕ) → Option MonitorLayout
  layout_of scale none = none
  layout_of scale (some s) = some (record {
    width = s.width;
    height = s.height;
    desktop_scale_factor = scale;
    device_scale_factor = device_scale_for scale;
  })

  -- The layout for a factor from points to pixels and a desktop scale.
  abbrev pub layout_at : ViewGeometry f → DisplayControlCaps → ℕ → ℕ → Option MonitorLayout
  layout_at view caps factor scale = layout_of scale (
      fit_to_caps (to_pixels (f.times view.points.width (f.of_nat factor)))
        (to_pixels (f.times view.points.height (f.of_nat factor))) (max_area caps))

  -- `desired_layout`; `none` only when the loop of `fit_to_caps` runs out of fuel.
  unfoldable pub desired_layout :
      ViewGeometry f → DisplayPrefs → DisplayControlCaps → Option MonitorLayout
  desired_layout view prefs caps =
      if prefs.retina && f.at_least view.backing_scale f.three_halves
      then layout_at view caps 2 200
      else layout_at view caps 1 100
