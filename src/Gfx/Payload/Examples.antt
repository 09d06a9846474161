-- ===== src/Gfx/Payload/Examples.antt =====
-- Witnesses of the payload loop, on the sample server.
use drift.Base.{◌≡◌, refl, some, [], ◌∷◌, ◌++◌, ok, arith}
use drift.Gfx.Samples.{three_commands, client, frames}
use drift.Gfx.Pdu.{Bytes}
use drift.Gfx.Payload.{split_pdu, pdu_length, process_pdus, Outcome}
use drift.Gfx.Payload.Framing.{
  AreFrames, joined, handle_frames, process_pdus-joined, process_pdus_ends,
}

frames-AreFrames : AreFrames frames
unfolding pdu_length
frames-AreFrames = (
  record { declared = refl; has_header = omega arith },
  (
    record { declared = refl; has_header = omega arith },
    (
      record { declared = refl; has_header = omega arith },
      (record { declared = refl; has_header = omega arith }, tt),
    ),
  ),
)

process_pdus-joined_example :
    process_pdus three_commands (joined frames) client
    ≡ some (handle_frames three_commands frames client)
process_pdus-joined_example = process_pdus-joined three_commands frames client frames-AreFrames

-- A header that declares more bytes than there are.
abbrev cut_short : Bytes
cut_short = 12 ∷ 0 ∷ 0 ∷ 0 ∷ 200 ∷ 0 ∷ 0 ∷ 0 ∷ 5 ∷ []

process_pdus_ends_example :
    (o : Outcome three_commands) × (process_pdus three_commands cut_short client ≡ some o)
process_pdus_ends_example = process_pdus_ends three_commands cut_short client

abbrev header_only : Bytes
header_only = 99 ∷ 0 ∷ 0 ∷ 0 ∷ 8 ∷ 0 ∷ 0 ∷ 0 ∷ []

abbrev what_follows : Bytes
what_follows = 1 ∷ 2 ∷ []

header_split :
    split_pdu {D = Unit {0}} (header_only ++ what_follows) ≡ ok (header_only, what_follows)
unfolding split_pdu pdu_length
header_split = refl
