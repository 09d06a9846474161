-- ===== src/Core/Layout/Bounds.antt =====
-- The sizes that the layout policy requests.
use drift.Base.{
  ℕ, zero, suc, ◌+◌, ◌%◌, ◌≤◌, ◌<◌, ◌≡◌, refl, Bool, true, false, some, arith, Bool-cases, inl, inr,
  ◌⊎◌, leb, ltb, if◌then◌else◌,
}
use drift.Core.Geometry.{Size}
use drift.Core.Floats.{Floats, ViewGeometry}
use drift.Core.Profile.{DisplayPrefs}
use drift.Core.Layout.{
  area, is_too_large, shrink_side, shrink, shrink_fuel, scaled, fit_to_caps, even, clamp, to_pixels,
  DisplayControlCaps, MonitorLayout, layout_at, desired_layout, device_scale_for, max_area,
}

-- The bounds of MS-RDPEDISP: sides from 200 to 8192, and an even width.
pub record IsMonitor (s : Size ℕ) : Type 0 where
  pub width_min : 200 ≤ s.width
  pub width_max : s.width ≤ 8192
  pub height_min : 200 ≤ s.height
  pub height_max : s.height ≤ 8192
  pub even_width : s.width % 2 ≡ 0

shrink_side-IsMonitor :
    (limit : ℕ) (s : Size ℕ) → IsMonitor s → is_too_large limit s ≡ true → IsMonitor (shrink_side s)
shrink_side-IsMonitor limit s m e = ground arith

shrink_side_sum :
    (limit : ℕ) (s : Size ℕ)
    → IsMonitor s
    → is_too_large limit s ≡ true
    → (shrink_side s).width + (shrink_side s).height < s.width + s.height
shrink_side_sum limit s m e = ground arith

-- The area fits, or the size is the least one.
abbrev pub Fits : ℕ → Size ℕ → Type 0
Fits limit s = (area s ≤ limit) ⊎ ((s.width ≡ 200) × (s.height ≡ 200))

done-Fits : (limit : ℕ) (s : Size ℕ) → IsMonitor s → is_too_large limit s ≡ false → Fits limit s
done-Fits limit s m e = elim (Bool-cases (ltb limit (area s))) [
  | inl l ↦ inr (ground (arith, e, l))
  | inr l ↦ inl (ground (arith, l))
]

shrink_ends :
    (fuel limit : ℕ) (s : Size ℕ)
    → IsMonitor s
    → s.width + s.height < fuel
    → (t : Size ℕ) × (shrink fuel limit s ≡ some t) × IsMonitor t × Fits limit t
unfolding shrink
shrink_ends zero limit s m h = absurd (omega arith)
shrink_ends (suc fuel) limit s m h = elim (Bool-cases (is_too_large limit s)) [
  | inl e ↦
      rw (e, shrink)
        (shrink_ends fuel limit (shrink_side s) (shrink_side-IsMonitor limit s m e)
          (omega (arith, shrink_side_sum limit s m e)))
  | inr e ↦ rw (e, shrink) (s, refl, m, done-Fits limit s m e)
]

clamped-IsMonitor : (w h : ℕ) → IsMonitor (record { width = even (clamp w); height = clamp h })
clamped-IsMonitor w h = ground arith

fits-cases : (limit : ℕ) (s : Size ℕ) → (area s ≤ limit) ⊎ (leb (area s) limit ≡ false)
fits-cases limit s = elim (Bool-cases (leb (area s) limit)) [
  | inl e ↦ inl (ground (arith, e))
  | inr e ↦ inr e
]

module _ (f : Floats) where
  scaled-IsMonitor : (limit : ℕ) (s : Size ℕ) → IsMonitor (scaled f limit s)
  scaled-IsMonitor limit s =
      let ratio = f.sqrt (f.divided_by (f.of_nat limit) (f.of_nat (area s))) in
      clamped-IsMonitor (to_pixels f (f.floor (f.times (f.of_nat s.width) ratio)))
        (to_pixels f (f.floor (f.times (f.of_nat s.height) ratio)))

  fit_to_caps-cases :
      (w h limit : ℕ) (b : Bool)
      → leb (area (record { width = even (clamp w); height = clamp h })) limit ≡ b
      → (t : Size ℕ) × (fit_to_caps f w h limit ≡ some t) × IsMonitor t × Fits limit t
  unfolding fit_to_caps
  fit_to_caps-cases w h limit true e =
      let s : Size ℕ = record { width = even (clamp w); height = clamp h } in
      (s, rw e refl, clamped-IsMonitor w h, inl (ground (arith, e)))
  fit_to_caps-cases w h limit false e =
      let s : Size ℕ = record { width = even (clamp w); height = clamp h } in
      let m = scaled-IsMonitor limit s in
      rw e (
        shrink_ends shrink_fuel limit (scaled f limit s) m
          (omega (arith, m.width_max, m.height_max)))

  pub fit_to_caps-Fits :
      (w h limit : ℕ)
      → (t : Size ℕ) × (fit_to_caps f w h limit ≡ some t) × IsMonitor t × Fits limit t
  fit_to_caps-Fits w h limit = fit_to_caps-cases w h limit _ refl

  abbrev pub size_of : MonitorLayout → Size ℕ
  size_of l = record { width = l.width; height = l.height }

  -- A layout of the desktop scale, within the bounds.
  abbrev pub IsRequest : DisplayControlCaps → ℕ → ℕ → MonitorLayout → Type 0
  IsRequest caps desktop device l =
      IsMonitor (size_of l)
      × Fits (max_area caps) (size_of l)
      × (l.desktop_scale_factor ≡ desktop)
      × (l.device_scale_factor ≡ device)

  layout_at_fits :
      (view : ViewGeometry f) (caps : DisplayControlCaps) (factor scale : ℕ)
      → (l : MonitorLayout) × (layout_at f view caps factor scale ≡ some l)
        × IsRequest caps scale (device_scale_for scale) l
  layout_at_fits view caps factor scale =
      let (t, e, m, a) =
        fit_to_caps-Fits (to_pixels f (f.times view.points.width (f.of_nat factor)))
          (to_pixels f (f.times view.points.height (f.of_nat factor))) (max_area caps) in
      rw e (_, refl, (m, a, refl, refl))

  either_scale :
      (b : Bool) (view : ViewGeometry f) (caps : DisplayControlCaps)
      → (l : MonitorLayout) × ((if b
            then layout_at f view caps 2 200
            else layout_at f view caps 1 100)
          ≡ some l)
        × (IsRequest caps 100 100 l ⊎ IsRequest caps 200 180 l)
  unfolding device_scale_for
  either_scale true view caps = let (l, e, r) = layout_at_fits view caps 2 200 in (l, e, inr r)
  either_scale false view caps = let (l, e, r) = layout_at_fits view caps 1 100 in (l, e, inl r)

  -- Whatever the view, the preferences, the capabilities and the floating-point arithmetic, a layout
  -- is requested: its sides lie from 200 to 8192, its width is even, the server allows its area unless
  -- it is the least size, 200 by 200, and its scales are 100 and 100, or 200 and 180.
  pub desired_layout_fits :
      (view : ViewGeometry f) (prefs : DisplayPrefs) (caps : DisplayControlCaps)
      → (l : MonitorLayout) × (desired_layout f view prefs caps ≡ some l)
        × (IsRequest caps 100 100 l ⊎ IsRequest caps 200 180 l)
  unfolding desired_layout
  desired_layout_fits view prefs caps = either_scale _ view caps
