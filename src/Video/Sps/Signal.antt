-- ===== src/Video/Sps/Signal.antt =====
-- The signal type of BT.709 full range, as written and as read.
use drift.Base.{
  ℕ, ◌+◌, ◌*◌, ◌%◌, ◌^◌, ap, subst, ◌∙◌, Bool, true, some, List, [], ◌∷◌, ◌++◌, length,
  append_assoc, arith, ok,
}
use drift.Video.Sps.Reader.{give, digit, bit, bits_from, bits, test_bit}
use drift.Video.Sps.Writer.{BitWriter}
use drift.Video.Sps.Syntax.{SignalType, to_u8, read_matrix, signal_type, read_signal_type}
use drift.Video.Sps.Vui.{write_bt709_full_range}
use drift.Video.Sps.Streams.{Takes, Takes-bind, >>=-ok, bit-Takes}
use drift.Video.Sps.Written.{Holds, write_bit-Holds}
use drift.Video.Sps.Copied.{spell, write_bits-Holds}

-- What `write_bt709_full_range` writes.
abbrev colours : List Bool
colours = spell 1 8 ++ (spell 1 8 ++ spell 1 8)

abbrev pub signal_bits : List Bool
signal_bits = true ∷ (spell 5 3 ++ (true ∷ true ∷ colours))

abbrev pub bt709 : SignalType
bt709 = record { full_range = true; matrix = some 1 }

pub write_bt709-Holds :
    (w : BitWriter) (bs : List Bool)
    → Holds w bs
    → Holds (write_bt709_full_range w) (bs ++ signal_bits)
unfolding write_bt709_full_range
write_bt709-Holds w bs h =
    let h = write_bit-Holds _ true _ h in
    let h = write_bits-Holds _ 5 3 _ h in
    let h = write_bit-Holds _ true _ (write_bit-Holds _ true _ h) in
    let h = write_bits-Holds _ 1 8 _ (write_bits-Holds _ 1 8 _ (write_bits-Holds _ 1 8 _ h)) in
    subst (Holds (write_bt709_full_range w)) (simp append_assoc) h

read_value : ℕ → List Bool → ℕ
read_value v [] = v
read_value v (b ∷ bs) = read_value ((v * 2 + digit b) % 2 ^ 32) bs

bits_from-Takes : (v : ℕ) (bs : List Bool) → Takes (bits_from v (length bs)) bs (read_value v bs)
unfolding bits_from read_value give
bits_from-Takes v [] d p h = ground arith
bits_from-Takes v (b ∷ bs) d p h =
    >>=-ok bit (λ b. bits_from ((v * 2 + digit b) % 2 ^ 32) (length bs)) d p
      (bit-Takes b d p (h.0, tt))
    ∙ bits_from-Takes ((v * 2 + digit b) % 2 ^ 32) bs d (p + 1) h.1
    ∙ ap (λ n. ok (read_value ((v * 2 + digit b) % 2 ^ 32) bs, n)) (omega arith)

pub give-Takes : {A : Type 0} (a : A) → Takes (give a) [] a
unfolding give
give-Takes a d p h = ground arith

matrix-Takes : Takes (read_matrix true) colours (some 1)
unfolding read_matrix to_u8 read_value test_bit
matrix-Takes =
    Takes-bind (bits 16) _ (spell 1 8 ++ spell 1 8) (spell 1 8) _ (some 1)
      (bits_from-Takes 0 (spell 1 8 ++ spell 1 8))
      (Takes-bind (bits 8) _ (spell 1 8) [] 1 (some 1) (bits_from-Takes 0 (spell 1 8))
        (Takes-bind (give 1) _ [] [] 1 _ (give-Takes 1) (give-Takes (some 1))))

pub read_signal_type-Takes : Takes read_signal_type signal_bits (some bt709)
unfolding read_signal_type signal_type read_value test_bit
read_signal_type-Takes =
    Takes-bind bit signal_type (true ∷ []) (spell 5 3 ++ (true ∷ true ∷ colours)) true (some bt709)
      (bit-Takes true)
      (Takes-bind (bits 3) _ (spell 5 3) (true ∷ true ∷ colours) 5 (some bt709)
        (bits_from-Takes 0 (spell 5 3))
        (Takes-bind bit _ (true ∷ []) (true ∷ colours) true (some bt709) (bit-Takes true) (
          Takes-bind bit _ (true ∷ []) colours true (some bt709) (bit-Takes true) (
            Takes-bind (read_matrix true) _ colours [] (some 1) (some bt709) matrix-Takes
              (give-Takes (some bt709))))))
