-- ===== src/Video/Sps/Reader.antt =====
-- crates/drift-video/src/sps.rs: BitReader, as a monad over the bytes and the position, with the
-- Exp-Golomb codes.
use drift.Base.{
  get_elem?, ℕ, zero, suc, ◌+◌, ◌-◌, ◌*◌, ◌/◌, ◌%◌, ◌^◌, Bool, true, false, Option, none, some, ltb,
  ◌==◌, if◌then◌else◌, Result, ok, err,
}
use drift.Base.Int.{ℤ, pos, negsuc}
use drift.Gfx.Pdu.{Bytes}

pub data SpsError : Type 0 where
  not_sps malformed : SpsError

-- A read at a position of the data, with the position behind it.
abbrev pub Read : Type 0 → Type 0
Read A = Bytes → ℕ → Result SpsError (A × ℕ)

infixl 5 ◌>>=◌ ◌>>◌
unfoldable pub ◌>>=◌ : {A B : Type 0} → Read A → (A → Read B) → Read B
◌>>=◌ m f d p = elim (m d p) [ err e ↦ err e | ok (a, q) ↦ f a d q ]

abbrev pub ◌>>◌ : {A B : Type 0} → Read A → Read B → Read B
m >> k = m >>= λ _. k

unfoldable pub give : {A : Type 0} → A → Read A
give a d p = ok (a, p)

unfoldable pub fail : {A : Type 0} → Read A
fail d p = err malformed

-- `o.ok_or(SpsError::Malformed)?`.
abbrev pub or_malformed : {A : Type 0} → Option A → Read A
or_malformed none = fail
or_malformed (some a) = give a

-- Bit `i` of a number: `(x >> i) & 1 == 1`.
unfoldable pub test_bit : ℕ → ℕ → Bool
test_bit x zero = x % 2 == 1
test_bit x (suc i) = test_bit (x / 2) i

abbrev pub bit_of : Option ℕ → ℕ → Option Bool
bit_of none i = none
bit_of (some byte) i = some (test_bit byte (7 - i))

-- The bit at a position, from the highest of the first byte on.
unfoldable pub bit_at : Bytes → ℕ → Option Bool
bit_at d p = bit_of (get_elem? d (p / 8)) (p % 8)

unfoldable pub bit : Read Bool
bit d p = elim (bit_at d p) [ none ↦ err malformed | some b ↦ ok (b, p + 1) ]

abbrev pub digit : Bool → ℕ
digit true = 1
digit false = 0

unfoldable pub bits_from : ℕ → ℕ → Read ℕ
bits_from v zero = give v
bits_from v (suc n) = do b ← bit; bits_from ((v * 2 + digit b) % 2 ^ 32) n

abbrev pub bits : ℕ → Read ℕ
bits n = bits_from 0 n

-- The loop of `ue`: `left` is 31 less the number of zeros read.
unfoldable pub leading_zeros : ℕ → ℕ → Read ℕ
leading_zeros n zero = do b ← bit; if b then give n else fail
leading_zeros n (suc left) = do
  b ← bit
  let rest = leading_zeros (n + 1) left
  if b then give n else rest

unfoldable pub ue : Read ℕ
ue = do
  n ← leading_zeros 0 31
  suffix ← bits n
  let v = 2 ^ n - 1 + suffix
  if ltb v (2 ^ 32) then give v else fail

unfoldable pub ue_max : ℕ → Read ℕ
ue_max limit = do v ← ue; if ltb limit v then fail else give v

-- `if k % 2 == 1 { (k + 1) / 2 } else { -(k / 2) }`.
abbrev pub signed : ℕ → ℤ
signed k =
    if k % 2 == 1 then pos ((k + 1) / 2) else if k / 2 == 0 then pos 0 else negsuc (k / 2 - 1)

abbrev pub fits_i32 : ℤ → Bool
fits_i32 (pos n) = ltb n (2 ^ 31)
fits_i32 (negsuc n) = ltb n (2 ^ 31)

unfoldable pub se : Read ℤ
se = do k ← ue; if fits_i32 (signed k) then give (signed k) else fail
