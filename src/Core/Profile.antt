-- ===== src/Core/Profile.antt =====
-- crates/drift-core/src/profile.rs: the modes and preferences of a connection.
use drift.Base.{Bool, true, false}

pub data ConnectMode : Type 0 where
  remote_login headless desktop_sharing : ConnectMode

-- `ConnectMode::supports_display_control`.
abbrev pub supports_display_control : ConnectMode → Bool
supports_display_control desktop_sharing = false
supports_display_control remote_login = true
supports_display_control headless = true

pub record DisplayPrefs : Type 0 where
  pub adaptive : Bool
  pub retina : Bool

pub data ClipboardPrefs : Type 0 where
  off text text_and_images : ClipboardPrefs
