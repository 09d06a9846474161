-- ===== src/Video/Sps/Written.antt =====
-- What BitWriter has written: the bits, in order.
use drift.Base.{
  get_elem?, ℕ, zero, suc, ◌+◌, ◌-◌, ◌*◌, ◌/◌, ◌%◌, ◌≤◌, ◌<◌, ◌≡◌, refl, ap, ◌∙◌, Bool, true, false,
  ◌&&◌, Option, none, some, List, [], ◌∷◌, ◌++◌, length, length-append, arith, ltb, ◌==◌,
  if◌then◌else◌, Bool-cases, ==_iff, inl, inr,
}
use drift.Gfx.Pdu.{Bytes}
use drift.Video.Sps.Reader.{test_bit, bit_at}
use drift.Video.Sps.Writer.{BitWriter, empty, set_bit, set_in_last, pushed, write_bit}
use drift.Video.Sps.Streams.{HasBits, HasBits-append}

test_bit-set_bit : (x k j : ℕ) → test_bit (set_bit x k) j ≡ (if j == k then true else test_bit x j)
unfolding test_bit set_bit
test_bit-set_bit x zero zero = ground arith
test_bit-set_bit x zero (suc j) =
    ap (λ n. test_bit n j) (let e : (x / 2 * 2 + 1) / 2 ≡ x / 2 = omega arith in e) ∙ ground arith
test_bit-set_bit x (suc k) zero = ground arith
test_bit-set_bit x (suc k) (suc j) =
    ap (λ n. test_bit n j)
      (let e : (set_bit (x / 2) k * 2 + x % 2) / 2 ≡ set_bit (x / 2) k = omega arith in e)
    ∙ ground (arith, test_bit-set_bit (x / 2) k j)

test_bit-zero : (j : ℕ) → test_bit 0 j ≡ false
unfolding test_bit
test_bit-zero zero = refl
test_bit-zero (suc j) = test_bit-zero j

get_elem?-append : (bs cs : Bytes) (i : ℕ) → i < length bs → get_elem? (bs ++ cs) i ≡ get_elem? bs i
get_elem?-append [] cs i h = absurd (omega arith)
get_elem?-append (b ∷ bs) cs zero h = refl
get_elem?-append (b ∷ bs) cs (suc i) h = get_elem?-append bs cs i (omega arith)

get_elem?-length : (bs : Bytes) (b : ℕ) → get_elem? (bs ++ b ∷ []) (length bs) ≡ some b
get_elem?-length [] b = refl
get_elem?-length (c ∷ bs) b = get_elem?-length bs b

set_byte : ℕ → Option ℕ → Option ℕ
set_byte k none = none
set_byte k (some b) = some (set_bit b k)

get_elem?-set_in_last :
    (bs : Bytes) (k i : ℕ)
    → get_elem? (set_in_last k bs) i
      ≡ (if i + 1 == length bs then set_byte k (get_elem? bs i) else get_elem? bs i)
unfolding set_in_last set_byte
get_elem?-set_in_last [] k i = ground arith
get_elem?-set_in_last (b ∷ []) k zero = refl
get_elem?-set_in_last (b ∷ []) k (suc i) = ground arith
get_elem?-set_in_last (b ∷ c ∷ bs) k zero = ground arith
get_elem?-set_in_last (b ∷ c ∷ bs) k (suc i) = ground (arith, get_elem?-set_in_last (c ∷ bs) k i)

length-set_in_last : (bs : Bytes) (k : ℕ) → length (set_in_last k bs) ≡ length bs
unfolding set_in_last
length-set_in_last [] k = refl
length-set_in_last (b ∷ []) k = refl
length-set_in_last (b ∷ c ∷ bs) k = omega (arith, length-set_in_last (c ∷ bs) k)

get_elem?-lt : (bs : Bytes) (i : ℕ) → i < length bs → (b : ℕ) × (get_elem? bs i ≡ some b)
get_elem?-lt [] i h = absurd (omega arith)
get_elem?-lt (b ∷ bs) zero h = (b, refl)
get_elem?-lt (b ∷ bs) (suc i) h = get_elem?-lt bs i (omega arith)

-- Setting the bit at a position of the last byte.
bit_at-set :
    (bs : Bytes) (n i : ℕ)
    → n / 8 + 1 ≡ length bs
    → i / 8 < length bs
    → bit_at (set_in_last (7 - n % 8) bs) i ≡ (if i == n then some true else bit_at bs i)
unfolding bit_at set_byte
bit_at-set bs n i e h =
    let (b, g) = get_elem?-lt bs (i / 8) h in
    ground (
      arith,
      g,
      get_elem?-set_in_last bs (7 - n % 8) (i / 8),
      test_bit-set_bit b (7 - n % 8) (7 - i % 8),
    )

bit_at-push :
    (bs : Bytes) (i : ℕ)
    → i / 8 < length bs + 1
    → bit_at (bs ++ 0 ∷ []) i ≡ (if ltb (i / 8) (length bs) then bit_at bs i else some false)
unfolding bit_at
bit_at-push bs i h = elim (Bool-cases (ltb (i / 8) (length bs))) [
  | inl e ↦ rw (get_elem?-append bs (0 ∷ []) (i / 8) (ground arith)) (ground arith)
  | inr e ↦
      let last : i / 8 ≡ length bs = ground arith in
      rw (last, get_elem?-length bs 0) (ground (arith, e, last, test_bit-zero (7 - i % 8)))
]

-- The bytes are as many as the bits need, and the bits behind the last one are 0.
record IsFilled (w : BitWriter) : Type 0 where
  enough : w.len ≤ 8 * length w.bytes
  tight : 8 * length w.bytes < w.len + 8
  blank : (i : ℕ) → w.len ≤ i → i / 8 < length w.bytes → bit_at w.bytes i ≡ some false

length-pushed : (w : BitWriter) → IsFilled w → length (pushed w) ≡ w.len / 8 + 1
length-pushed w f = elim (Bool-cases (w.len % 8 == 0)) [
  | inl e ↦ rw e (
      omega
        (arith, length-append {0} w.bytes (0 ∷ []), f.enough, f.tight, (==_iff (w.len % 8) 0).0 e))
  | inr e ↦ rw e (ground (arith, f.enough, f.tight, e))
]

bit_at-pushed :
    (w : BitWriter) (i : ℕ)
    → IsFilled w
    → i / 8 < w.len / 8 + 1
    → bit_at (pushed w) i ≡ (if ltb i w.len then bit_at w.bytes i else some false)
bit_at-pushed w i f h = elim (Bool-cases (w.len % 8 == 0)) [
  | inl e ↦ rw e (ground (arith, e, f.enough, f.tight, f.blank i, bit_at-push w.bytes i))
  | inr e ↦ rw e (ground (arith, e, f.enough, f.tight, f.blank i))
]

bit_at-write_bit :
    (w : BitWriter) (b : Bool) (i : ℕ)
    → IsFilled w
    → i / 8 < w.len / 8 + 1
    → bit_at (write_bit w b).bytes i
      ≡ (if ltb i w.len then bit_at w.bytes i else some (b && i == w.len))
unfolding write_bit
bit_at-write_bit w true i f h =
    ground (arith, length-pushed w f, bit_at-set (pushed w) w.len i, bit_at-pushed w i f)
bit_at-write_bit w false i f h = ground (arith, bit_at-pushed w i f)

length-write_bit :
    (w : BitWriter) (b : Bool) → IsFilled w → length (write_bit w b).bytes ≡ w.len / 8 + 1
unfolding write_bit
length-write_bit w true f = length-set_in_last (pushed w) (7 - w.len % 8) ∙ length-pushed w f
length-write_bit w false f = length-pushed w f

len-write_bit : (w : BitWriter) (b : Bool) → (write_bit w b).len ≡ w.len + 1
unfolding write_bit
len-write_bit w b = refl

write_bit-IsFilled : (w : BitWriter) (b : Bool) → IsFilled w → IsFilled (write_bit w b)
write_bit-IsFilled w b f = record {
  enough = omega (arith, length-write_bit w b f, len-write_bit w b);
  tight = omega (arith, length-write_bit w b f, len-write_bit w b);
  blank =
      λ i h k. ground (arith, length-write_bit w b f, len-write_bit w b, bit_at-write_bit w b i f);
}

HasBits-same :
    (d d' : Bytes) (p : ℕ) (bits : List Bool)
    → ((i : ℕ) → i < p + length bits → bit_at d' i ≡ bit_at d i)
    → HasBits d p bits
    → HasBits d' p bits
HasBits-same d d' p [] same h = tt
HasBits-same d d' p (b ∷ bits) same h =
    (same p (omega arith) ∙ h.0, HasBits-same d d' (p + 1) bits (λ i k. same i (omega arith)) h.1)

-- These are the bits that the writer has.
pub record Holds (w : BitWriter) (bits : List Bool) : Type 0 where
  filled : IsFilled w
  pub has : HasBits w.bytes 0 bits
  pub count : length bits ≡ w.len

pub Holds-empty : Holds empty []
unfolding bit_at
Holds-empty = record {
  filled = record {
    enough = omega arith;
    tight = omega arith;
    blank = λ i h k. absurd (omega arith);
  };
  has = tt;
  count = refl;
}

pub write_bit-Holds :
    (w : BitWriter) (b : Bool) (bits : List Bool)
    → Holds w bits
    → Holds (write_bit w b) (bits ++ b ∷ [])
write_bit-Holds w b bits h = record {
  filled = write_bit-IsFilled w b h.filled;
  has =
      HasBits-append (write_bit w b).bytes 0 bits (b ∷ [])
        (HasBits-same w.bytes (write_bit w b).bytes 0 bits
          (λ i k. ground (arith, h.count, bit_at-write_bit w b i h.filled)) h.has)
        (written, tt);
  count = omega (arith, length-append {0} bits (b ∷ []), h.count, len-write_bit w b);
}
  where
    written : bit_at (write_bit w b).bytes (0 + length bits) ≡ some b
    written = rw h.count (ground (arith, bit_at-write_bit w b w.len h.filled))
