-- ===== src/Gfx/Payload.antt =====
-- crates/drift-gfx/src/client.rs: the loop over the PDUs of a payload, and the channel processor.
-- A slice of bytes is the list of its numbers.
pub mod Framing
mod Examples
use drift.Base.{
  ℕ, zero, suc, ◌+◌, ◌*◌, ◌^◌, ◌||◌, Option, none, some, List, [], ◌∷◌, ltb, if◌then◌else◌, Result,
  ok, err, length, take, drop,
}
use drift.Gfx.Codecs.{Codecs}
use drift.Gfx.Monad.{map_err, check, ◌>>=◌}
use drift.Gfx.State.{GfxError, zgfx, decode, malformed, truncated_header, length_outside}
use drift.Gfx.Ack.{FrameAcknowledge}
use drift.Gfx.Ack as Ack
use drift.Gfx.Pdu.{Bytes}
use drift.Gfx.Client.{Client, Method}
use drift.Gfx.Handler.{handle_pdu}

abbrev pub gfx_header_size : ℕ
gfx_header_size = 8

-- `u32::from_le_bytes`.
abbrev pub from_le_bytes : ℕ → ℕ → ℕ → ℕ → ℕ
from_le_bytes a b c d = a + 2 ^ 8 * b + 2 ^ 16 * c + 2 ^ 24 * d

-- The `pduLength` of a header, at the bytes 4 to 7.
unfoldable pub pdu_length : Bytes → Option ℕ
pdu_length (_ ∷ _ ∷ _ ∷ _ ∷ a ∷ b ∷ c ∷ d ∷ rest) = some (from_le_bytes a b c d)
pdu_length _ = none

module _ {D : Type 0} where
  -- The bytes of the first PDU, and the rest.
  unfoldable pub split_pdu : Bytes → Result (GfxError D) (Bytes × Bytes)
  split_pdu data' = elim (pdu_length data') [
    | none ↦ err (decode truncated_header)
    | some len ↦
        if ltb len gfx_header_size || ltb (length data') len
        then err (decode (length_outside len))
        else ok (take len data', drop len data')
  ]

module _ (k : Codecs) where
  -- The result of a method and the client that it leaves.
  abbrev pub Outcome : Type 0
  Outcome = Result (GfxError k.Detail) (Unit {0}) × Client k

  -- One PDU from its bytes.
  unfoldable pub handle_bytes : Bytes → Method k (Unit {0})
  handle_bytes bytes = do
    pdu ← check (map_err (λ d. decode (malformed d)) (k.parse_pdu bytes))
    handle_pdu k pdu

  -- `?`: an error ends the loop.
  abbrev pub after : Outcome → (Client k → Option Outcome) → Option Outcome
  after (ok u, c) continue = continue c
  after (err e, c) continue = some (err e, c)

  -- The body of the loop, from the split payload.
  abbrev pub with_first :
      Result (GfxError k.Detail) (Bytes × Bytes)
      → Client k
      → (Bytes → Client k → Option Outcome)
      → Option Outcome
  with_first (err e) c continue = some (err e, c)
  with_first (ok (first, rest)) c continue = after (handle_bytes first c) (continue rest)

  -- The loop of `GfxClient::process_pdus`; `none` when the fuel runs out.
  unfoldable pub pdus_loop : ℕ → Bytes → Client k → Option Outcome
  pdus_loop n [] c = some (ok tt, c)
  pdus_loop zero (b ∷ bs) c = none
  pdus_loop (suc n) (b ∷ bs) c = with_first (split_pdu (b ∷ bs)) c (pdus_loop n)

  -- `GfxClient::process_pdus`, with one unit of fuel for each byte.
  unfoldable pub process_pdus : Bytes → Client k → Option Outcome
  process_pdus data' c = pdus_loop (length data') data' c

  -- `GfxClient::process_payload`.
  unfoldable pub process_payload : Bytes → Client k → Option Outcome
  process_payload payload c =
      let (r, z) = k.decompress c.zgfx_state payload in
      let c' : Client k = record c { zgfx_state = z } in
      elim r [ ok buffer ↦ process_pdus buffer c' | err e ↦ some (err (zgfx e), c') ]

  abbrev pub answer : Outcome → Result (GfxError k.Detail) (List FrameAcknowledge) × Client k
  answer (ok u, c) = (ok (Ack.drain c.acks).1, record c { acks = (Ack.drain c.acks).0 })
  answer (err e, c) = (err e, record c { error = some e })

  -- `DvcProcessor::process`.
  unfoldable pub process :
      Bytes → Client k → Option (Result (GfxError k.Detail) (List FrameAcknowledge) × Client k)
  process payload c = elim (process_payload payload c) [ none ↦ none | some o ↦ some (answer o) ]

  -- `GfxClient::take_error`.
  unfoldable pub take_error : Client k → Option (GfxError k.Detail) × Client k
  take_error c = (c.error, record c { error = none })
