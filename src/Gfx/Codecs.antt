-- ===== src/Gfx/Codecs.antt =====
-- The interface of crates/drift-gfx/src/client.rs to drift-codec, drift-video and the IronRDP crates.
use drift.Base.{ℕ, Option, List, Result}
use drift.Core.Geometry.{Size, Rect}
use drift.Gfx.State.{PixelFormat}
use drift.Gfx.Pdu.{Bytes, Rect16, GfxPdu}
use drift.Gfx.Sink.{Blit}

-- What the client takes from drift-codec, drift-video and the IronRDP crates. A decoder that keeps
-- state returns it also when it fails.
pub record Codecs : Type 1 where
  pub Detail : Type 0
  pub Frame : Type 0
  pub Progressive : Type 0
  pub Clear : Type 0
  pub Zgfx : Type 0
  pub H264 : Type 0
  pub begin_frame : Progressive → Progressive
  pub end_frame : Progressive → Progressive
  pub delete_surface : Progressive → ℕ → Progressive
  pub delete_context : Progressive → ℕ → ℕ → Progressive
  pub reset_progressive : Progressive → Progressive
  pub decode_progressive :
      Progressive → ℕ → ℕ → Size ℕ → Bytes → Result Detail (List (List Blit)) × Progressive
  pub new_clear : Clear
  pub decode_clear : Clear → Rect → Bytes → Result Detail (List Blit) × Clear
  pub decode_uncompressed : Rect → PixelFormat → Bytes → Result Detail (List Blit)
  pub decode_planar : Rect → Bytes → Result Detail (List Blit)
  pub decode_h264 : H264 → Bytes → Result Detail (Option Frame) × H264
  pub reset_h264 : H264 → H264
  pub parse_avc420 : Bytes → Result Detail (List Rect16 × Bytes)
  pub decompress : Zgfx → Bytes → Result Detail Bytes × Zgfx
  pub CapabilitySet : Type 0
  pub parse_capabilities : Bytes → Result Detail (Option CapabilitySet)
  pub parse_pdu : Bytes → Result Detail GfxPdu
