-- ===== src/Video.antt =====
-- crates/drift-video: the H.264 byte streams.
pub mod Annexb
pub mod Sps
pub mod Metablock
