-- ===== src/Video/Sps/Rewriting.antt =====
-- The copied parts of the VUI: what is written, and that the parser passes over the same bits.
use drift.Base.{
  ℕ, zero, suc, ◌+◌, ◌*◌, ◌%◌, ◌^◌, ◌≡◌, ◌∙◌, Bool, true, false, List, [], ◌∷◌, ◌++◌, arith, ◌==◌,
  if◌then◌else◌, Bool-cases, inl, inr, ok,
}
use drift.Gfx.Pdu.{Bytes}
use drift.Video.Sps.Reader.{Read, ◌>>=◌, give, digit, bit, bits_from, bits}
use drift.Video.Sps.Writer.{BitWriter, write_bit, write_bits, copy}
use drift.Video.Sps.Syntax.{extended_sar, skip_if, skip_aspect}
use drift.Video.Sps.Vui.{copy_sar, copy_aspect, copy_overscan}
use drift.Video.Sps.Streams.{>>=-eq-ok, >>=-ok}
use drift.Video.Sps.Written.{Holds, write_bit-Holds}
use drift.Video.Sps.Copied.{
  spell, write_bits-Holds, Copied, give-Copied, Copied-bit, copy-Copied, Copied-byte,
}

-- If bits can be copied, they can be read.
copied_bits :
    (n v : ℕ) (w : BitWriter) (d : Bytes) (p : ℕ) (w' : BitWriter) (q : ℕ)
    → copy w n d p ≡ ok (w', q)
    → (x : ℕ) × (bits_from v n d p ≡ ok (x, q))
unfolding copy bits_from give
copied_bits zero v w d p w' q h = (v, ground (arith, h))
copied_bits (suc n) v w d p w' q h =
    let (b, p', read, e) = >>=-eq-ok bit (λ b. copy (write_bit w b) n) d p w' q h in
    let next = (v * 2 + digit b) % 2 ^ 32 in
    let (x, k) = copied_bits n next (write_bit w b) d p' w' q e in
    (x, >>=-ok bit (λ b. bits_from ((v * 2 + digit b) % 2 ^ 32) n) d p read ∙ k)

copied_skip :
    (n : ℕ) (w : BitWriter) (d : Bytes) (p : ℕ) (w' : BitWriter) (q : ℕ)
    → copy w n d p ≡ ok (w', q)
    → skip_if true n d p ≡ ok (tt, q)
unfolding skip_if give
copied_skip n w d p w' q h = let (x, k) = copied_bits n 0 w d p w' q h in >>=-ok (bits n) _ d p k

no_skip :
    (w : BitWriter) (d : Bytes) (p : ℕ) (w' : BitWriter) (q n : ℕ)
    → give w d p ≡ ok (w', q)
    → skip_if false n d p ≡ ok (tt, q)
unfolding skip_if give
no_skip w d p w' q n e = ground (arith, e)

sar_end : BitWriter → ℕ → Read BitWriter
sar_end w idc =
    if idc == extended_sar then copy (write_bits w idc 8) 32 else give (write_bits w idc 8)

sar_end_lem :
    (idc : ℕ) (w : BitWriter) (d : Bytes) (p : ℕ) (w' : BitWriter) (q : ℕ) (bs : List Bool)
    → Holds (write_bits w idc 8) bs
    → sar_end w idc d p ≡ ok (w', q)
    → Copied d p q w' bs × (skip_if (idc == extended_sar) 32 d p ≡ ok (tt, q))
unfolding sar_end
sar_end_lem idc w d p w' q bs h e = elim (Bool-cases (idc == extended_sar)) [
  | inl wide ↦
      let e' : copy (write_bits w idc 8) 32 d p ≡ ok (w', q) = ground (arith, e, wide) in
      (
        (copy-Copied 32 (write_bits w idc 8) d p w' q bs h e').0,
        rw wide (copied_skip 32 (write_bits w idc 8) d p w' q e'),
      )
  | inr short ↦
      let e' : give (write_bits w idc 8) d p ≡ ok (w', q) = ground (arith, e, short) in
      (
        (give-Copied (write_bits w idc 8) d p w' q bs h e').0,
        rw short (no_skip (write_bits w idc 8) d p w' q 32 e'),
      )
]

copy_sar_lem :
    (w : BitWriter) (b : Bool) (d : Bytes) (p : ℕ) (w' : BitWriter) (q : ℕ) (bs : List Bool)
    → Holds w bs
    → copy_sar w b d p ≡ ok (w', q)
    → Copied d p q w' bs × (skip_aspect b d p ≡ ok (tt, q))
unfolding copy_sar skip_aspect give sar_end
copy_sar_lem w false d p w' q bs h e = ((give-Copied w d p w' q bs h e).0, ground (arith, e))
copy_sar_lem w true d p w' q bs h e =
    let (idc, p', read, e') = >>=-eq-ok (bits 8) (sar_end w) d p w' q e in
    let (c, k) =
      sar_end_lem idc w d p' w' q (bs ++ spell idc 8) (write_bits-Holds w idc 8 bs h) e' in
    (Copied-byte read c, >>=-ok (bits 8) (λ idc. skip_if (idc == extended_sar) 32) d p read ∙ k)

pub copy_aspect_lem :
    (w : BitWriter) (d : Bytes) (p : ℕ) (w' : BitWriter) (q : ℕ) (bs : List Bool)
    → Holds w bs
    → copy_aspect w d p ≡ ok (w', q)
    → Copied d p q w' bs × ((bit >>= skip_aspect) d p ≡ ok (tt, q))
unfolding copy_aspect
copy_aspect_lem w d p w' q bs h e =
    let (b, p', read, e') = >>=-eq-ok bit (λ b. copy_sar (write_bit w b) b) d p w' q e in
    let (c, k) =
      copy_sar_lem (write_bit w b) b d p' w' q (bs ++ b ∷ []) (write_bit-Holds w b bs h) e' in
    (Copied-bit read c, >>=-ok bit skip_aspect d p read ∙ k)

pub copy_overscan_lem :
    (w : BitWriter) (d : Bytes) (p : ℕ) (w' : BitWriter) (q : ℕ) (bs : List Bool)
    → Holds w bs
    → copy_overscan w d p ≡ ok (w', q)
    → Copied d p q w' bs × ((bit >>= λ overscan. skip_if overscan 1) d p ≡ ok (tt, q))
unfolding copy_overscan
copy_overscan_lem w d p w' q bs h e =
    let (b, p', read, e') = >>=-eq-ok bit overscan_end d p w' q e in
    let (c, k) = overscan_end_lem b d p' w' q (bs ++ b ∷ []) (write_bit-Holds w b bs h) e' in
    (Copied-bit read c, >>=-ok bit (λ overscan. skip_if overscan 1) d p read ∙ k)
  where
    overscan_end : Bool → Read BitWriter
    overscan_end b = if b then copy (write_bit w b) 1 else give (write_bit w b)

    overscan_end_lem :
        (b : Bool) (d : Bytes) (p : ℕ) (w' : BitWriter) (q : ℕ) (bs : List Bool)
        → Holds (write_bit w b) bs
        → overscan_end b d p ≡ ok (w', q)
        → Copied d p q w' bs × (skip_if b 1 d p ≡ ok (tt, q))
    overscan_end_lem true d p w' q bs h e = (
      (copy-Copied 1 (write_bit w true) d p w' q bs h e).0,
      copied_skip 1 (write_bit w true) d p w' q e,
    )
    overscan_end_lem false d p w' q bs h e = (
      (give-Copied (write_bit w false) d p w' q bs h e).0,
      no_skip (write_bit w false) d p w' q 1 e,
    )
