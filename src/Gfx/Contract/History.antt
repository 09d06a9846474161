-- ===== src/Gfx/Contract/History.antt =====
-- The contract of a FrameSink over whole payloads and any history of calls of
-- crates/drift-gfx/src/client.rs.
use drift.Base.{
  ℕ, zero, suc, ◌≡◌, refl, ap, ◌∙◌, Bool, Option, none, some, List, [], ◌∷◌, Result, ok, err,
  length,
}
use drift.Base.Maps
use drift.Gfx.Codecs.{Codecs}
use drift.Gfx.Monad.{map_err}
use drift.Gfx.State.{GfxError, decode, malformed, zgfx}
use drift.Gfx.Ack.{FrameAcknowledge}
use drift.Gfx.Sink.{SinkCall, View, accept_all, accept, nothing_shown}
use drift.Gfx.Sink as Sink
use drift.Gfx.Pdu.{GfxPdu, Bytes}
use drift.Gfx.Client.{Client, new}
use drift.Gfx.Handler.{handle_pdu, set_visible}
use drift.Gfx.Payload.{
  Outcome, handle_bytes, after, with_first, split_pdu, pdus_loop, process_pdus, process_payload,
  process, take_error, answer,
}
use drift.Gfx.Contract.{view, Keeps, Behaves, silent, told, followed_by, checked}
use drift.Gfx.Contract.Drawing.{
  solid_fill-Behaves, surface_to_surface-Behaves, cache_to_surface-Behaves,
}
use drift.Gfx.Contract.Tiles.{wire_to_surface_1-Behaves, wire_to_surface_2-Behaves}
use drift.Gfx.Contract.Handling.{
  reset_graphics-Behaves, create-Behaves, delete-Behaves, map-Behaves, evict-Behaves,
  surface_to_cache-Behaves,
}

module _ (k : Codecs) where
  -- Whatever PDU the server sends: a PDU that is handled makes only calls that the contract of the
  -- sink allows, and leaves the sink with exactly the surfaces and cache slots of the new state; a
  -- PDU that fails makes no call, and leaves surfaces and cache slots as they were.
  pub handle_pdu-Behaves : (pdu : GfxPdu) (c : Client k) → Behaves k c (handle_pdu k pdu c)
  unfolding handle_pdu accept
  handle_pdu-Behaves (GfxPdu.capabilities_confirm raw) c =
      checked k (map_err (λ d. decode (malformed d)) (k.parse_capabilities raw))
        (λ caps c'. (ok tt, record c' { confirmed = caps })) c
        λ caps e. silent k c (record c { confirmed = caps }) refl refl
  handle_pdu-Behaves (GfxPdu.reset_graphics output) c = reset_graphics-Behaves k output c
  handle_pdu-Behaves (GfxPdu.create_surface id size format) c = create-Behaves k id size format c
  handle_pdu-Behaves (GfxPdu.delete_surface id) c = delete-Behaves k id c
  handle_pdu-Behaves (GfxPdu.map_surface_to_output id origin) c = map-Behaves k id origin c
  handle_pdu-Behaves (GfxPdu.map_surface_to_scaled_output id origin) c = map-Behaves k id origin c
  handle_pdu-Behaves GfxPdu.map_surface_to_window c = silent k c c refl refl
  handle_pdu-Behaves GfxPdu.map_surface_to_scaled_window c = silent k c c refl refl
  handle_pdu-Behaves GfxPdu.start_frame c =
      silent k c (handle_pdu k GfxPdu.start_frame c).1 refl refl
  handle_pdu-Behaves (GfxPdu.end_frame id) c =
      told k (Sink.ends_frame id) c (handle_pdu k (GfxPdu.end_frame id) c).1 refl refl
  handle_pdu-Behaves (GfxPdu.solid_fill id color rectangles) c =
      solid_fill-Behaves k id color rectangles c
  handle_pdu-Behaves (GfxPdu.surface_to_surface from to r points) c =
      surface_to_surface-Behaves k from to r points c
  handle_pdu-Behaves (GfxPdu.surface_to_cache id slot r) c = surface_to_cache-Behaves k id slot r c
  handle_pdu-Behaves (GfxPdu.cache_to_surface slot id points) c =
      cache_to_surface-Behaves k slot id points c
  handle_pdu-Behaves (GfxPdu.evict_cache_entry slot) c = evict-Behaves k slot c
  handle_pdu-Behaves GfxPdu.cache_import_reply c = silent k c c refl refl
  handle_pdu-Behaves (GfxPdu.delete_encoding_context id context) c =
      silent k c (handle_pdu k (GfxPdu.delete_encoding_context id context) c).1 refl refl
  handle_pdu-Behaves (GfxPdu.wire_to_surface_1 id type format r payload) c =
      wire_to_surface_1-Behaves k id type format r payload c
  handle_pdu-Behaves (GfxPdu.wire_to_surface_2 id context payload) c =
      wire_to_surface_2-Behaves k id context payload c
  handle_pdu-Behaves GfxPdu.capabilities_advertise c = (refl, refl)
  handle_pdu-Behaves GfxPdu.frame_acknowledge c = (refl, refl)
  handle_pdu-Behaves GfxPdu.qoe_frame_acknowledge c = (refl, refl)
  handle_pdu-Behaves GfxPdu.cache_import_offer c = (refl, refl)
  handle_pdu-Behaves GfxPdu.unknown_pdu c = (refl, refl)

  -- Either way, the calls made keep the contract.
  Behaves-Keeps :
      {A : Type 0} (c : Client k) (o : Result (GfxError k.Detail) A × Client k)
      → Behaves k c o
      → Keeps k c o.1
  Behaves-Keeps c (ok a, c') b = b
  Behaves-Keeps c (err e, c') (f, g) = silent k c c' f g

  handle_bytes-Keeps : (bytes : Bytes) (c : Client k) → Keeps k c (handle_bytes k bytes c).1
  unfolding handle_bytes
  handle_bytes-Keeps bytes c = Behaves-Keeps c (handle_bytes k bytes c) (
      checked k (map_err (λ d. decode (malformed d)) (k.parse_pdu bytes)) (handle_pdu k) c
        λ pdu e. handle_pdu-Behaves pdu c)

  -- The client of an outcome, or the old one when the fuel ran out.
  abbrev left : Client k → Option (Outcome k) → Client k
  left c none = c
  left c (some o) = o.1

  after-Keeps :
      (o : Outcome k) (f : Client k → Option (Outcome k)) (c : Client k)
      → Keeps k c o.1
      → ((d : Client k) → Keeps k d (left d (f d)))
      → Keeps k c (left c (after k o f))
  after-Keeps (ok u, c') f c h g = continued (f c') (g c')
    where
      continued : (r : Option (Outcome k)) → Keeps k c' (left c' r) → Keeps k c (left c r)
      continued none h' = silent k c c refl refl
      continued (some o) h' = followed_by k c c' o.1 h h'
  after-Keeps (err e, c') f c h g = h

  with_first-Keeps :
      (r : Result (GfxError k.Detail) (Bytes × Bytes)) (c : Client k)
      (f : Bytes → Client k → Option (Outcome k))
      → ((rest : Bytes) (d : Client k) → Keeps k d (left d (f rest d)))
      → Keeps k c (left c (with_first k r c f))
  with_first-Keeps (err e) c f g = silent k c c refl refl
  with_first-Keeps (ok (first, rest)) c f g =
      after-Keeps (handle_bytes k first c) (f rest) c (handle_bytes-Keeps first c) (g rest)

  loop-Keeps : (n : ℕ) (data' : Bytes) (c : Client k) → Keeps k c (left c (pdus_loop k n data' c))
  unfolding pdus_loop
  loop-Keeps n [] c = silent k c c refl refl
  loop-Keeps zero (b ∷ bs) c = silent k c c refl refl
  loop-Keeps (suc n) (b ∷ bs) c =
      with_first-Keeps (split_pdu (b ∷ bs)) c (pdus_loop k n) (λ rest d. loop-Keeps n rest d)

  process_pdus-Keeps : (data' : Bytes) (c : Client k) → Keeps k c (left c (process_pdus k data' c))
  unfolding process_pdus
  process_pdus-Keeps data' c = loop-Keeps (length data') data' c

  process_payload-Keeps :
      (payload : Bytes) (c : Client k) → Keeps k c (left c (process_payload k payload c))
  unfolding process_payload
  process_payload-Keeps payload c =
      let (r, z) = k.decompress c.zgfx_state payload in
      decompressed r (record c { zgfx_state = z }) refl refl
    where
      decompressed :
          (r : Result k.Detail Bytes) (c' : Client k)
          → c'.sink ≡ c.sink
          → c'.state ≡ c.state
          → Keeps k c (
              left c
                (elim r [ ok buffer ↦ process_pdus k buffer c' | err e ↦ some (err (zgfx e), c') ]))
      decompressed (ok buffer) c' e s =
          continued (process_pdus k buffer c') (process_pdus-Keeps buffer c')
        where
          continued : (o : Option (Outcome k)) → Keeps k c' (left c' o) → Keeps k c (left c o)
          continued none h = silent k c c refl refl
          continued (some o) h = followed_by k c c' o.1 (silent k c c' e s) h
      decompressed (err x) c' e s = silent k c c' e s

  -- What the session does with a client.
  pub data Call : Type 0 where
    receives : Bytes → Call
    shows : Bool → Call
    takes_error : Call

  abbrev answered :
      Client k → Option (Result (GfxError k.Detail) (List FrameAcknowledge) × Client k) → Client k
  answered c none = c
  answered c (some (r, c')) = c'

  abbrev pub call : Call → Client k → Client k
  call (receives payload) c = answered c (process k payload c)
  call (shows visible) c = (set_visible k visible c).1
  call takes_error c = (take_error k c).1

  abbrev pub run : List Call → Client k → Client k
  run [] c = c
  run (x ∷ xs) c = run xs (call x c)

  call-Keeps : (x : Call) (c : Client k) → Keeps k c (call x c)
  unfolding process set_visible take_error accept
  call-Keeps (receives payload) c =
      answer-Keeps (process_payload k payload c) (process_payload-Keeps payload c)
    where
      answer-Keeps :
          (o : Option (Outcome k))
          → Keeps k c (left c o)
          → Keeps k c (answered c (elim o [ none ↦ none | some r ↦ some (answer k r) ]))
      answer-Keeps none h = h
      answer-Keeps (some (ok u, c')) h =
          followed_by k c c' (answer k (ok u, c')).1 h
            (silent k c' (answer k (ok u, c')).1 refl refl)
      answer-Keeps (some (err e, c')) h =
          followed_by k c c' (answer k (err e, c')).1 h
            (silent k c' (answer k (err e, c')).1 refl refl)
  call-Keeps (shows visible) c = told k (Sink.shows visible) c (set_visible k visible c).1 refl refl
  call-Keeps takes_error c = silent k c (take_error k c).1 refl refl

  run-Keeps : (xs : List Call) (c : Client k) → Keeps k c (run xs c)
  run-Keeps [] c = silent k c c refl refl
  run-Keeps (x ∷ xs) c =
      followed_by k c (call x c) (run xs (call x c)) (call-Keeps x c) (run-Keeps xs (call x c))

  -- Whatever payloads a new client receives, malformed ones too, and however it is shown and hidden:
  -- every call that it made of the sink is allowed by the contract, and the sink has exactly the
  -- surfaces and cache slots of the client.
  pub accept_all-run :
      (h : k.H264) (p : k.Progressive) (z : k.Zgfx) (xs : List Call)
      → let c = run xs (new k h p z) in accept_all c.sink nothing_shown ≡ some (view c.state)
  unfolding new Maps.get
  accept_all-run h p z xs =
      let (calls, e, a) = run-Keeps xs (new k h p z) in ap (λ l. accept_all l nothing_shown) e ∙ a
