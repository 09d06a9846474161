-- ===== src/Rdp/Resize/Examples.antt =====
-- Witnesses of the resize driver.
use drift.Base.{◌≡◌, refl, true, some, none, List, [], ◌∷◌, ◌++◌}
use drift.Core.Profile.{DisplayPrefs, headless}
use drift.Core.Floats.Samples.{halves, laptop_view}
use drift.Core.Layout.{MonitorLayout, default_caps, desired_layout}
use drift.Rdp.Resize.{ResizeDriver, new, on_geometry, on_leg_activated, on_display_control_ready}
use drift.Rdp.Resize.Sends.{
  run, leg_activates, becomes_ready, Call, geometry_changes, polls, AreNeeded, run-AreNeeded,
}
use drift.Rdp.Resize.Settles.{shown_after, poll_settles}

abbrev prefs : DisplayPrefs
prefs = record { adaptive = true; retina = true }

abbrev old_layout : MonitorLayout
old_layout = record {
  width = 1024;
  height = 768;
  desktop_scale_factor = 100;
  device_scale_factor = 100;
}

-- A leg that shows a smaller desktop than the view, with the capabilities known.
abbrev driver : ResizeDriver halves
driver = record {
  mode = headless;
  prefs = prefs;
  geometry = none;
  caps = some default_caps;
  current = some old_layout;
  due = none;
}

abbrev calls : List (Call halves)
calls = geometry_changes laptop_view 100 ∷ polls 1000 ∷ polls 300000000 ∷ []

run-AreNeeded_example : AreNeeded halves (some old_layout) driver calls
run-AreNeeded_example = run-AreNeeded halves driver calls

-- A leg that shows another layout, whose capabilities come, and then the geometry of the view.
abbrev start : List (Call halves)
start =
    leg_activates old_layout ∷ becomes_ready default_caps 50 ∷ geometry_changes laptop_view 100 ∷ []

poll_settles_example :
    (l : MonitorLayout) × (desired_layout halves laptop_view
        (run halves (new halves headless prefs) start).prefs
        default_caps
      ≡ some l)
    × (shown_after halves none (new halves headless prefs) (start ++ polls 250000100 ∷ []) ≡ some l)
    × ((run halves (new halves headless prefs) (start ++ polls 250000100 ∷ [])).due ≡ none)
unfolding on_geometry on_leg_activated on_display_control_ready
poll_settles_example =
    poll_settles halves headless prefs start laptop_view default_caps 250000100 refl refl refl refl
