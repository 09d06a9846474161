-- ===== src/Codec.antt =====
-- crates/drift-codec/src: the pixel codecs.
pub mod Tile
pub mod Uncompressed
pub mod Blits
pub mod Progressive
mod Examples
