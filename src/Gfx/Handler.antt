-- ===== src/Gfx/Handler.antt =====
-- crates/drift-gfx/src/client.rs: the handler of one PDU and the loops over a payload.
use drift.Base.{ℕ, Bool, not, List, [], ◌∷◌, if◌then◌else◌, Result, ok, err}
use drift.Core.Geometry.{Size, Point, Rect}
use drift.Gfx.Codecs.{Codecs}
use drift.Gfx.Monad.{◌>>=◌, ◌>>◌, return, check, modify, map_err}
use drift.Gfx.State.{
  PixelFormat, GfxState, GfxError, destination, decode, unsupported_codec, unexpected_pdu, codec,
  malformed, create, delete, cache_evict, ensure_within,
}
use drift.Gfx.Ack.{frame_ended, set_hidden}
use drift.Gfx.Pdu.{
  Bytes, Rect16, Codec1Type, avc420, uncompressed, planar, clear_codec, remote_fx, alpha, avc444,
  avc444v2, GfxPdu,
}
use drift.Gfx.Sink.{Blit}
use drift.Gfx.Sink as Sink
use drift.Gfx.Client
use drift.Gfx.Client.{Client, Method, look_up, tell, keep_state, blit, rect_of}

module _ (k : Codecs) where
  -- A codec that keeps no state.
  abbrev pub decoded : Result k.Detail (List Blit) → Method k (List Blit)
  decoded r = check (map_err codec r)

  abbrev pub run_clear : Rect → Bytes → Method k (List Blit)
  run_clear dest payload c =
      let (r, clear) = k.decode_clear c.clear dest payload in
      (map_err codec r, record c { clear = clear })

  -- The arms of `wire_to_surface_1` that decode into the checked destination.
  abbrev pub draw_tile : ℕ → Size ℕ → Rect → Method k (List Blit) → Method k (Unit {0})
  draw_tile id bounds dest decoder = do
    check (ensure_within id bounds dest destination)
    tile ← decoder
    blit k id bounds tile

  -- The `match` on the codec.
  abbrev pub run_codec : Codec1Type → ℕ → Size ℕ → PixelFormat → Rect → Bytes → Method k (Unit {0})
  run_codec avc420 id bounds format dest payload = Client.avc420 k id bounds payload
  run_codec uncompressed id bounds format dest payload =
      draw_tile id bounds dest (decoded (k.decode_uncompressed dest format payload))
  run_codec planar id bounds format dest payload =
      draw_tile id bounds dest (decoded (k.decode_planar dest payload))
  run_codec clear_codec id bounds format dest payload =
      draw_tile id bounds dest (run_clear dest payload)
  run_codec remote_fx id bounds format dest payload = check (err unsupported_codec)
  run_codec alpha id bounds format dest payload = check (err unsupported_codec)
  run_codec avc444 id bounds format dest payload = check (err unsupported_codec)
  run_codec avc444v2 id bounds format dest payload = check (err unsupported_codec)

  -- `GfxClient::wire_to_surface_1`.
  unfoldable pub wire_to_surface_1 :
      ℕ → Codec1Type → PixelFormat → Rect16 → Bytes → Method k (Unit {0})
  wire_to_surface_1 id type format destination_rectangle payload = do
    s ← look_up k id
    dest ← check (rect_of k destination_rectangle)
    run_codec type id s.size format dest payload

  unfoldable pub blit_tiles : ℕ → Size ℕ → List (List Blit) → Method k (Unit {0})
  blit_tiles id bounds [] = return tt
  blit_tiles id bounds (tile ∷ tiles) = do blit k id bounds tile; blit_tiles id bounds tiles

  abbrev pub run_progressive : ℕ → ℕ → Size ℕ → Bytes → Method k (List (List Blit))
  run_progressive id context bounds payload c =
      let (r, p) = k.decode_progressive c.progressive id context bounds payload in
      (map_err codec r, record c { progressive = p })

  -- `GfxClient::wire_to_surface_2`.
  unfoldable pub wire_to_surface_2 : ℕ → ℕ → Bytes → Method k (Unit {0})
  wire_to_surface_2 id context payload = do
    s ← look_up k id
    tiles ← run_progressive id context s.size payload
    blit_tiles id s.size tiles

  -- `self.state.create(..)?`.
  abbrev pub create_surface : ℕ → Size ℕ → PixelFormat → Method k (Unit {0})
  create_surface id size format c = keep_state k (create c.state id size format) c

  abbrev pub forget_tiles : ℕ → Method k (Unit {0})
  forget_tiles id = modify (λ c. record c { progressive = k.delete_surface c.progressive id })

  abbrev pub delete_surface : ℕ → Method k Bool
  delete_surface id c =
      let (state', found) = delete c.state id in (ok found, record c { state = state' })

  abbrev pub keep_found : Result (GfxError k.Detail) (GfxState × Bool) → Method k Bool
  keep_found (ok (state', found)) c = (ok found, record c { state = state' })
  keep_found (err e) c = (err e, c)

  abbrev pub evict : ℕ → Method k Bool
  evict slot c = keep_found (cache_evict c.state slot) c

  abbrev pub map_surface : ℕ → Point ℕ → Method k (Unit {0})
  map_surface id origin = do s ← look_up k id; tell k (Sink.maps id origin)

  -- `GfxClient::handle_pdu`.
  unfoldable pub handle_pdu : GfxPdu → Method k (Unit {0})
  handle_pdu (GfxPdu.capabilities_confirm raw) = do
    caps ← check (map_err (λ d. decode (malformed d)) (k.parse_capabilities raw))
    modify (λ c. record c { confirmed = caps })
  handle_pdu (GfxPdu.reset_graphics output) = Client.reset_graphics k output
  handle_pdu (GfxPdu.create_surface id size format) = do
    create_surface id size format
    forget_tiles id
    tell k (Sink.creates id size)
  handle_pdu (GfxPdu.delete_surface id) = do
    found ← delete_surface id
    if found then (forget_tiles id >> tell k (Sink.deletes id)) else return tt
  handle_pdu (GfxPdu.map_surface_to_output id origin) = map_surface id origin
  handle_pdu (GfxPdu.map_surface_to_scaled_output id origin) = map_surface id origin
  handle_pdu GfxPdu.map_surface_to_window = return tt
  handle_pdu GfxPdu.map_surface_to_scaled_window = return tt
  handle_pdu GfxPdu.start_frame =
      modify (λ c. record c { progressive = k.begin_frame c.progressive })
  handle_pdu (GfxPdu.end_frame id) = do
    modify (λ c. record c { progressive = k.end_frame c.progressive; acks = frame_ended c.acks })
    tell k (Sink.ends_frame id)
  handle_pdu (GfxPdu.solid_fill id color rectangles) = Client.solid_fill k id color rectangles
  handle_pdu (GfxPdu.surface_to_surface from to r points) =
      Client.surface_to_surface k from to r points
  handle_pdu (GfxPdu.surface_to_cache id slot r) = Client.surface_to_cache k id slot r
  handle_pdu (GfxPdu.cache_to_surface slot id points) = Client.cache_to_surface k slot id points
  handle_pdu (GfxPdu.evict_cache_entry slot) = do
    found ← evict slot
    if found then tell k (Sink.evicts slot) else return tt
  handle_pdu GfxPdu.cache_import_reply = return tt
  handle_pdu (GfxPdu.delete_encoding_context id context) =
      modify (λ c. record c { progressive = k.delete_context c.progressive id context })
  handle_pdu (GfxPdu.wire_to_surface_1 id type format r payload) =
      wire_to_surface_1 id type format r payload
  handle_pdu (GfxPdu.wire_to_surface_2 id context payload) = wire_to_surface_2 id context payload
  handle_pdu GfxPdu.capabilities_advertise = check (err unexpected_pdu)
  handle_pdu GfxPdu.frame_acknowledge = check (err unexpected_pdu)
  handle_pdu GfxPdu.qoe_frame_acknowledge = check (err unexpected_pdu)
  handle_pdu GfxPdu.cache_import_offer = check (err unexpected_pdu)
  handle_pdu GfxPdu.unknown_pdu = check (err unexpected_pdu)

  -- `GfxClient::set_visible`.
  unfoldable pub set_visible : Bool → Method k (Unit {0})
  set_visible visible = do
    modify (λ c. record c { acks = set_hidden c.acks (not visible) })
    tell k (Sink.shows visible)
