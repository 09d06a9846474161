-- ===== src/Core/Layout/Examples.antt =====
-- Witnesses of the desktop layout.
use drift.Base.{◌≡◌, ◌⊎◌, true, some}
use drift.Core.Profile.{DisplayPrefs}
use drift.Core.Floats.Samples.{halves, laptop_view}
use drift.Core.Layout.{MonitorLayout, default_caps, desired_layout}
use drift.Core.Layout.Bounds.{IsRequest, desired_layout_fits}

abbrev retina_prefs : DisplayPrefs
retina_prefs = record { adaptive = true; retina = true }

desired_layout_fits_example :
    (l : MonitorLayout) × (desired_layout halves laptop_view retina_prefs default_caps ≡ some l)
    × (IsRequest halves default_caps 100 100 l ⊎ IsRequest halves default_caps 200 180 l)
desired_layout_fits_example = desired_layout_fits halves laptop_view retina_prefs default_caps
