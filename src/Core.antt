-- ===== src/Core.antt =====
-- crates/drift-core: the pure session logic that every other crate shares.
pub mod Geometry
pub mod State
pub mod Reconnect
pub mod Triggers
pub mod Events
pub mod Profile
pub mod Floats
pub mod Layout
