-- ===== src/Video/Sps/Copied.antt =====
-- The steps of the rewriting: what each writes, and how it is read back.
use drift.Base.{
  ℕ, zero, suc, ◌+◌, ◌*◌, ◌/◌, ◌%◌, ◌^◌, ◌≤◌, ◌<◌, ◌≡◌, refl, sym, ap, subst, ◌∙◌, Bool, true,
  false, some, List, [], ◌∷◌, ◌++◌, length, length-append, append_assoc, append-nil, arith, ◌==◌,
  ok,
}
use drift.Gfx.Pdu.{Bytes}
use drift.Video.Sps.Reader.{test_bit, digit, bit, bits_from, bits, give}
use drift.Video.Sps.Writer.{BitWriter, write_bit, write_bits, copy}
use drift.Video.Sps.Streams.{HasBits, HasBits-append, >>=-eq-ok, bit-eq-ok}
use drift.Video.Sps.Written.{Holds, write_bit-Holds}

-- The lowest bits of a number, the highest of them first.
abbrev pub spell : ℕ → ℕ → List Bool
spell v zero = []
spell v (suc n) = test_bit v n ∷ spell v n

pub write_bits-Holds :
    (w : BitWriter) (v n : ℕ) (bs : List Bool)
    → Holds w bs
    → Holds (write_bits w v n) (bs ++ spell v n)
unfolding write_bits
write_bits-Holds w v zero bs h = subst (Holds w) (sym (append-nil bs)) h
write_bits-Holds w v (suc n) bs h =
    subst (Holds (write_bits w v (suc n))) (append_assoc bs (test_bit v n ∷ []) (spell v n)) (
      write_bits-Holds (write_bit w (test_bit v n)) v n (bs ++ test_bit v n ∷ [])
        (write_bit-Holds w (test_bit v n) bs h))

-- From a position to another, the reader's bits are appended to the writer's.
pub record Copied (d : Bytes) (p : ℕ) (q : ℕ) (w' : BitWriter) (bs : List Bool) : Type 0 where
  pub taken : List Bool
  pub has : HasBits d p taken
  pub reach : q ≡ p + length taken
  pub holds : Holds w' (bs ++ taken)

pub Copied-none :
    {d : Bytes} {p : ℕ} {w : BitWriter} {bs : List Bool} → Holds w bs → Copied d p p w bs
Copied-none {w} {bs} h = record {
  taken = [];
  has = tt;
  reach = omega arith;
  holds = subst (Holds w) (sym (append-nil bs)) h;
}

pub Copied-append :
    {d : Bytes} {p q r : ℕ} {w : BitWriter} {bs : List Bool} (xs : List Bool)
    → HasBits d p xs
    → q ≡ p + length xs
    → Copied d q r w (bs ++ xs)
    → Copied d p r w bs
Copied-append {d} {p} {q} {r} {w} {bs} xs has reach c = record {
  taken = xs ++ c.taken;
  has = HasBits-append d p xs c.taken has (subst (λ n. HasBits d n c.taken) reach c.has);
  reach = omega (arith, c.reach, length-append {0} xs c.taken);
  holds = subst (Holds w) (append_assoc bs xs c.taken) c.holds;
}

pub Copied-bit :
    {d : Bytes} {p : ℕ} {b : Bool} {q r : ℕ} {w : BitWriter} {bs : List Bool}
    → bit d p ≡ ok (b, q)
    → Copied d q r w (bs ++ b ∷ [])
    → Copied d p r w bs
Copied-bit {d} {p} {b} {q} e c =
    let k = bit-eq-ok d p b q e in Copied-append (b ∷ []) (k.0, tt) (omega arith) c

pub give-Copied :
    (w : BitWriter) (d : Bytes) (p : ℕ) (w' : BitWriter) (q : ℕ) (bs : List Bool)
    → Holds w bs
    → give w d p ≡ ok (w', q)
    → Copied d p q w' bs × (q ≡ p)
unfolding give
give-Copied w d p w' q bs h e =
    let stays : p ≡ q = ground (arith, e) in
    let same : w ≡ w' = ground (arith, e) in
    (
      subst (λ n. Copied d p n w' bs) stays (Copied-none (subst (λ v. Holds v bs) same h)),
      omega arith,
    )

pub copy-Copied :
    (n : ℕ) (w : BitWriter) (d : Bytes) (p : ℕ) (w' : BitWriter) (q : ℕ) (bs : List Bool)
    → Holds w bs
    → copy w n d p ≡ ok (w', q)
    → Copied d p q w' bs × (q ≡ p + n)
unfolding copy
copy-Copied zero w d p w' q bs h e = let k = give-Copied w d p w' q bs h e in (k.0, omega arith)
copy-Copied (suc n) w d p w' q bs h e =
    let (b, p', read, e') = >>=-eq-ok bit (λ b. copy (write_bit w b) n) d p w' q e in
    let rest =
      copy-Copied n (write_bit w b) d p' w' q (bs ++ b ∷ []) (write_bit-Holds w b bs h) e' in
    (Copied-bit read rest.0, omega (arith, rest.1, (bit-eq-ok d p b p' read).1))

-- `n` doublings.
doubled : ℕ → ℕ → ℕ
doubled zero x = x
doubled (suc n) x = doubled n (2 * x)

doubled_mono : (n x y : ℕ) → x ≤ y → doubled n x ≤ doubled n y
unfolding doubled
doubled_mono zero x y h = h
doubled_mono (suc n) x y h = doubled_mono n (2 * x) (2 * y) (omega arith)

le-doubled : (n x : ℕ) → x ≤ doubled n x
unfolding doubled
le-doubled zero x = omega arith
le-doubled (suc n) x = omega (arith, le-doubled n (2 * x))

shifted : ℕ → ℕ → ℕ
shifted v zero = v
shifted v (suc n) = shifted v n / 2

test_bit-shifted : (v n : ℕ) → test_bit v n ≡ (shifted v n % 2 == 1)
unfolding test_bit shifted
test_bit-shifted v zero = refl
test_bit-shifted v (suc n) = test_bit-shifted (v / 2) n ∙ ap (λ x. x % 2 == 1) (shifted_half v n)
  where
    shifted_half : (v n : ℕ) → shifted (v / 2) n ≡ shifted v n / 2
    shifted_half v zero = refl
    shifted_half v (suc n) = ap (λ x. x / 2) (shifted_half v n)

digit_lt : (b : Bool) → digit b < 2
digit_lt true = omega arith
digit_lt false = omega arith

-- A number read has the bits that were read.
bits_from-spell :
    (n v : ℕ) (d : Bytes) (p x q : ℕ)
    → doubled n (v + 1) ≤ 2 ^ 32
    → bits_from v n d p ≡ ok (x, q)
    → (shifted x n ≡ v) × HasBits d p (spell x n) × (q ≡ p + n)
unfolding bits_from give doubled shifted
bits_from-spell zero v d p x q h e = (ground (arith, e), tt, ground (arith, e))
bits_from-spell (suc n) v d p x q h e =
    let (b, p', read, e') =
      >>=-eq-ok bit (λ b. bits_from ((v * 2 + digit b) % 2 ^ 32) n) d p x q e in
    let k = bit-eq-ok d p b p' read in
    let small = le-doubled n (2 * (v + 1)) in
    let next = (v * 2 + digit b) % 2 ^ 32 in
    let wraps : next ≡ v * 2 + digit b = omega (arith, digit_lt b) in
    let room : next + 1 ≤ 2 * (v + 1) = omega (arith, digit_lt b) in
    let rest =
      bits_from-spell n next d p' x q (omega (arith, doubled_mono n (next + 1) (2 * (v + 1)) room))
        e' in
    (
      ground (arith, rest.0, wraps),
      (
        k.0
            ∙ ap some
                (sym (test_bit-shifted x n ∙ ap (λ y. y % 2 == 1) (rest.0 ∙ wraps) ∙ odd v b)),
        subst (λ r. HasBits d r (spell x n)) k.1 rest.1,
      ),
      omega (arith, rest.2, k.1),
    )
  where
    odd : (v : ℕ) (b : Bool) → ((v * 2 + digit b) % 2 == 1) ≡ b
    odd v true = ground arith
    odd v false = ground arith

length-spell : (v n : ℕ) → length (spell v n) ≡ n
length-spell v zero = refl
length-spell v (suc n) = ap suc (length-spell v n)

pub Copied-byte :
    {d : Bytes} {p v q r : ℕ} {w : BitWriter} {bs : List Bool}
    → bits 8 d p ≡ ok (v, q)
    → Copied d q r w (bs ++ spell v 8)
    → Copied d p r w bs
unfolding doubled
Copied-byte {d} {p} {v} {q} e c =
    let k = bits_from-spell 8 0 d p v q (omega arith) e in
    Copied-append (spell v 8) k.1 (omega (arith, k.2, length-spell v 8)) c
