-- ===== src/Codec/Progressive.antt =====
-- crates/drift-codec/src/progressive.rs.
pub mod Rounds
pub mod Blocks
pub mod Tiles
pub mod Running
pub mod Regions
pub mod Loops
pub mod Decoder
pub mod Pixels
pub mod Shown
pub mod Bounds
pub mod Blitted
pub mod Isolation
pub mod Surfaces
mod Examples
