-- ===== src/Gfx/Samples.antt =====
-- Sample decoders that keep no state, for the tests of the graphics client.
use drift.Base.{ℕ, none, List, [], ◌∷◌, Result, ok, err, ◌==◌, if◌then◌else◌}
use drift.Core.Geometry.{Size, Bgra}
use drift.Gfx.Codecs.{Codecs}
use drift.Gfx.State.{xrgb}
use drift.Gfx.Pdu.{Bytes, Rect16, GfxPdu}
use drift.Gfx.Client.{Client, new}

abbrev desktop : Size ℕ
desktop = record { width = 64; height = 48 }

abbrev black : Bgra
black = record { b = 0; g = 0; r = 0; a = 0 }

-- It overlaps the right and the lower edge.
abbrev corner : Rect16
corner = record { left = 60; top = 40; right = 80; bottom = 70 }

-- A server that creates surfaces (9), fills their lower right corner (4) and ends frames (12); anything
-- else is malformed.
abbrev pub three_commands : Codecs
three_commands = record {
  Detail = Unit {0};
  Frame = Unit {0};
  Progressive = Unit {0};
  Clear = Unit {0};
  Zgfx = Unit {0};
  H264 = Unit {0};
  begin_frame = λ p. p;
  end_frame = λ p. p;
  delete_surface = λ p id. p;
  delete_context = λ p id context. p;
  reset_progressive = λ p. p;
  decode_progressive = λ p id context s bytes. (ok [], p);
  new_clear = tt;
  decode_clear = λ c dest bytes. (ok [], c);
  decode_uncompressed = λ dest format bytes. ok [];
  decode_planar = λ dest bytes. ok [];
  decode_h264 = λ h bytes. (ok none, h);
  reset_h264 = λ h. h;
  parse_avc420 = λ bytes. ok ([], bytes);
  decompress = λ z bytes. (ok bytes, z);
  CapabilitySet = Unit {0};
  parse_capabilities = λ bytes. ok none;
  parse_pdu = parse;
}
  where
    parse : Bytes → Result (Unit {0}) GfxPdu
    parse (command ∷ _ ∷ _ ∷ _ ∷ _ ∷ _ ∷ _ ∷ _ ∷ id ∷ rest) =
        if command == 9
        then ok (GfxPdu.create_surface id desktop xrgb)
        else if command == 4
        then ok (GfxPdu.solid_fill id black (corner ∷ []))
        else if command == 12
        then ok (GfxPdu.end_frame id)
        else err tt
    parse _ = err tt

abbrev pub client : Client three_commands
client = new three_commands tt tt tt

-- A surface, its corner, the end of the frame, and a PDU of another kind.
abbrev pub frames : List Bytes
frames =
    (9 ∷ 0 ∷ 0 ∷ 0 ∷ 12 ∷ 0 ∷ 0 ∷ 0 ∷ 1 ∷ 0 ∷ 0 ∷ 0 ∷ [])
    ∷ (4 ∷ 0 ∷ 0 ∷ 0 ∷ 12 ∷ 0 ∷ 0 ∷ 0 ∷ 1 ∷ 0 ∷ 0 ∷ 0 ∷ [])
    ∷ (12 ∷ 0 ∷ 0 ∷ 0 ∷ 12 ∷ 0 ∷ 0 ∷ 0 ∷ 6 ∷ 0 ∷ 0 ∷ 0 ∷ [])
    ∷ (99 ∷ 0 ∷ 0 ∷ 0 ∷ 8 ∷ 0 ∷ 0 ∷ 0 ∷ [])
    ∷ []
