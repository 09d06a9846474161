-- ===== src/Rdp/Resize.antt =====
-- crates/drift-rdp/src/resize.rs: when a new monitor layout is sent to the server.
-- Instants are counts of nanoseconds.
pub mod Sends
pub mod Settles
mod Examples
use drift.Base.{
  ℕ, ◌+◌, Bool, true, false, not, ◌&&◌, ◌||◌, Option, none, some, ltb, ◌==◌, is_some, if◌then◌else◌,
}
use drift.Core.Reconnect.{Instant}
use drift.Core.Floats.{Floats, ViewGeometry, same_geometry}
use drift.Core.Profile.{ConnectMode, remote_login, headless, desktop_sharing, DisplayPrefs}
use drift.Core.Layout.{MonitorLayout, DisplayControlCaps, default_caps, desired_layout}

-- `RESIZE_DEBOUNCE`: 250 ms.
abbrev pub resize_debounce : ℕ
resize_debounce = 250000000

-- `mode_has_display_control`.
abbrev pub mode_has_display_control : ConnectMode → Bool
mode_has_display_control remote_login = true
mode_has_display_control headless = true
mode_has_display_control desktop_sharing = false

-- `==` on layouts.
abbrev pub same_layout : MonitorLayout → MonitorLayout → Bool
same_layout a b =
    a.width == b.width
    && a.height == b.height
    && a.desktop_scale_factor == b.desktop_scale_factor
    && a.device_scale_factor == b.device_scale_factor

-- `self.current == Some(l)`.
abbrev pub is_current : Option MonitorLayout → MonitorLayout → Bool
is_current none l = false
is_current (some c) l = same_layout c l

-- `self.due.is_some_and(|due| now < due)`.
abbrev pub is_early : Option Instant → Instant → Bool
is_early none now = false
is_early (some due) now = ltb now due

module _ (f : Floats) where
  pub record ResizeDriver : Type 0 where
    pub mode : ConnectMode
    pub prefs : DisplayPrefs
    pub geometry : Option (ViewGeometry f)
    pub caps : Option DisplayControlCaps
    pub current : Option MonitorLayout
    pub due : Option Instant

  -- `ResizeDriver::new`.
  abbrev pub new : ConnectMode → DisplayPrefs → ResizeDriver
  new mode prefs = record {
    mode = mode;
    prefs = prefs;
    geometry = none;
    caps = none;
    current = none;
    due = none;
  }

  -- `ResizeDriver::adaptive`.
  abbrev pub adaptive : ResizeDriver → Bool
  adaptive d = d.prefs.adaptive && mode_has_display_control d.mode

  abbrev caps_or_default : Option DisplayControlCaps → DisplayControlCaps
  caps_or_default none = default_caps
  caps_or_default (some c) = c

  abbrev pub desired_for : Option (ViewGeometry f) → ResizeDriver → Option MonitorLayout
  desired_for none d = none
  desired_for (some g) d =
      if adaptive d then desired_layout f g d.prefs (caps_or_default d.caps) else none

  -- `ResizeDriver::desired`, and `connect_layout`.
  unfoldable pub desired : ResizeDriver → Option MonitorLayout
  desired d = desired_for d.geometry d

  -- `self.geometry == Some(geometry)`.
  abbrev pub is_known : Option (ViewGeometry f) → ViewGeometry f → Bool
  is_known none g = false
  is_known (some h) g = same_geometry f h g

  -- `ResizeDriver::on_geometry`.
  unfoldable pub on_geometry : ResizeDriver → ViewGeometry f → Instant → ResizeDriver
  on_geometry d g now = if is_known d.geometry g then d else record d {
    geometry = some g;
    due = if adaptive d then some (now + resize_debounce) else d.due;
  }

  -- `ResizeDriver::on_leg_activated`.
  unfoldable pub on_leg_activated : ResizeDriver → MonitorLayout → ResizeDriver
  on_leg_activated d l = record d { caps = none; current = some l }

  -- `ResizeDriver::on_display_control_ready`.
  unfoldable pub on_display_control_ready :
      ResizeDriver → DisplayControlCaps → Instant → ResizeDriver
  on_display_control_ready d caps now = record d {
    caps = some caps;
    due = if adaptive d && is_some d.geometry && not (is_some d.due) then some now else d.due;
  }

  -- The tail of `poll`, with the debounce window over and the capabilities known.
  abbrev pub offer : ResizeDriver → Option MonitorLayout → ResizeDriver × Option MonitorLayout
  offer d none = (d, none)
  offer d (some l) =
      if is_current d.current l then (d, none) else (record d { current = some l }, some l)

  -- `ResizeDriver::poll`.
  unfoldable pub poll : ResizeDriver → Instant → ResizeDriver × Option MonitorLayout
  poll d now =
      if is_early d.due now || not (is_some d.caps)
      then (d, none)
      else (let d' : ResizeDriver = record d { due = none } in offer d' (desired d'))
