-- ===== src/Gfx/Pdu.antt =====
-- The PDUs of `ironrdp_egfx::pdu::GfxPdu` with the fields that the client reads. Ids, slots and
-- edges are u16, sizes and frame ids u32; bytes are numbers below 256.
use drift.Base.{ℕ, List}
use drift.Core.Geometry.{Point, Size, Bgra}
use drift.Gfx.State.{PixelFormat}

abbrev pub Bytes : Type 0
Bytes = List ℕ

-- `ExclusiveRectangle`.
pub record Rect16 : Type 0 where
  pub left : ℕ
  pub top : ℕ
  pub right : ℕ
  pub bottom : ℕ

pub data Codec1Type : Type 0 where
  avc420 uncompressed planar clear_codec : Codec1Type
  remote_fx alpha avc444 avc444v2 : Codec1Type

pub data GfxPdu : Type 0 where
  capabilities_confirm : Bytes → GfxPdu
  reset_graphics : Size ℕ → GfxPdu
  create_surface : ℕ → Size ℕ → PixelFormat → GfxPdu
  delete_surface : ℕ → GfxPdu
  map_surface_to_output : ℕ → Point ℕ → GfxPdu
  map_surface_to_scaled_output : ℕ → Point ℕ → GfxPdu
  map_surface_to_window map_surface_to_scaled_window : GfxPdu
  start_frame : GfxPdu
  end_frame : ℕ → GfxPdu
  solid_fill : ℕ → Bgra → List Rect16 → GfxPdu
  surface_to_surface : ℕ → ℕ → Rect16 → List (Point ℕ) → GfxPdu
  surface_to_cache : ℕ → ℕ → Rect16 → GfxPdu
  cache_to_surface : ℕ → ℕ → List (Point ℕ) → GfxPdu
  evict_cache_entry : ℕ → GfxPdu
  cache_import_reply : GfxPdu
  delete_encoding_context : ℕ → ℕ → GfxPdu
  wire_to_surface_1 : ℕ → Codec1Type → PixelFormat → Rect16 → Bytes → GfxPdu
  wire_to_surface_2 : ℕ → ℕ → Bytes → GfxPdu
  -- What only a client sends, and the types that this build does not know.
  capabilities_advertise frame_acknowledge qoe_frame_acknowledge cache_import_offer : GfxPdu
  unknown_pdu : GfxPdu
