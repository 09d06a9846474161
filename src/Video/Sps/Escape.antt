-- ===== src/Video/Sps/Escape.antt =====
-- crates/drift-video/src/sps.rs: the emulation-prevention bytes of a NAL unit.
use drift.Base.{ℕ, ◌+◌, ◌≡◌, refl, ◌&&◌, [], ◌∷◌, leb, ◌==◌, if◌then◌else◌, arith}
use drift.Gfx.Pdu.{Bytes}

abbrev pub run_after : ℕ → ℕ → ℕ
run_after run b = if b == 0 then run + 1 else 0

unfoldable pub unescape_from : ℕ → Bytes → Bytes
unescape_from run [] = []
unescape_from run (b ∷ bs) =
    let skipped = unescape_from 0 bs in
    let rest = b ∷ unescape_from (run_after run b) bs in
    if leb 2 run && b == 3 then skipped else rest

unfoldable pub unescape : Bytes → Bytes
unescape ebsp = unescape_from 0 ebsp

unfoldable pub escape_from : ℕ → Bytes → Bytes
escape_from run [] = []
escape_from run (b ∷ bs) =
    let guarded = 3 ∷ b ∷ escape_from (run_after 0 b) bs in
    let rest = b ∷ escape_from (run_after run b) bs in
    if leb 2 run && leb b 3 then guarded else rest

unfoldable pub escape : Bytes → Bytes
escape rbsp = escape_from 0 rbsp

unescape-escape_from : (run : ℕ) (bs : Bytes) → unescape_from run (escape_from run bs) ≡ bs
unfolding unescape_from escape_from
unescape-escape_from run [] = refl
unescape-escape_from run (b ∷ bs) =
    ground
      (arith, unescape-escape_from (run_after 0 b) bs, unescape-escape_from (run_after run b) bs)

pub unescape-escape : (rbsp : Bytes) → unescape (escape rbsp) ≡ rbsp
unfolding unescape escape
unescape-escape rbsp = unescape-escape_from 0 rbsp
