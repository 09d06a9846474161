-- ===== src/Video/Sps/Streams.antt =====
-- What a read depends on: a run of bits from its position, and nothing else. The rules are about
-- the reads of sps.rs, one for each construct.
use drift.Base.{
  ℕ, zero, suc, ◌+◌, ◌≡◌, refl, ap, subst, ◌∙◌, Bool, true, false, Option, none, some, List, [],
  ◌∷◌, ◌++◌, length, length-append, arith, if◌then◌else◌, ok, Result-cases, Option-cases, inl, inr,
}
use drift.Gfx.Pdu.{Bytes}
use drift.Video.Sps.Reader.{
  Read, ◌>>=◌, give, fail, or_malformed, bit_at, bit, bits_from, leading_zeros, ue, ue_max, se,
}

-- The data has these bits from the position on.
abbrev pub HasBits : Bytes → ℕ → List Bool → Type 0
HasBits d p [] = Unit
HasBits d p (b ∷ bits) = (bit_at d p ≡ some b) × HasBits d (p + 1) bits

pub HasBits-append :
    (d : Bytes) (p : ℕ) (xs ys : List Bool)
    → HasBits d p xs
    → HasBits d (p + length xs) ys
    → HasBits d p (xs ++ ys)
HasBits-append d p [] ys h k = subst (λ q. HasBits d q ys) (omega arith) k
HasBits-append d p (x ∷ xs) ys h k =
    (h.0, HasBits-append d (p + 1) xs ys h.1 (subst (λ q. HasBits d q ys) (omega arith) k))

pub HasBits-split :
    (d : Bytes) (p : ℕ) (xs ys : List Bool)
    → HasBits d p (xs ++ ys)
    → HasBits d p xs × HasBits d (p + length xs) ys
HasBits-split d p [] ys h = (tt, subst (λ q. HasBits d q ys) (omega arith) h)
HasBits-split d p (x ∷ xs) ys h =
    let r = HasBits-split d (p + 1) xs ys h.1 in
    ((h.0, r.0), subst (λ q. HasBits d q ys) (omega arith) r.1)

pub HasBits-unique :
    (d : Bytes) (p : ℕ) (xs ys : List Bool)
    → HasBits d p xs
    → HasBits d p ys
    → length xs ≡ length ys
    → xs ≡ ys
HasBits-unique d p [] [] h k e = refl
HasBits-unique d p [] (y ∷ ys) h k e = absurd (omega arith)
HasBits-unique d p (x ∷ xs) [] h k e = absurd (omega arith)
HasBits-unique d p (x ∷ xs) (y ∷ ys) h k e =
    ground (arith, h.0, k.0, HasBits-unique d (p + 1) xs ys h.1 k.1 (omega arith))

-- Wherever these bits stand, the read takes them and has this value.
abbrev pub Takes : {A : Type 0} → Read A → List Bool → A → Type 0
Takes m xs a = (d : Bytes) (p : ℕ) → HasBits d p xs → m d p ≡ ok (a, p + length xs)

abbrev pub Stretch : {A : Type 0} → Read A → Bytes → ℕ → A → ℕ → Type 0
Stretch m d p a q = (xs : List Bool) × HasBits d p xs × (q ≡ p + length xs) × Takes m xs a

pub record IsStream {A : Type 0} (m : Read A) : Type 0 where
  pub at : (d : Bytes) (p : ℕ) (a : A) (q : ℕ) → m d p ≡ ok (a, q) → Stretch m d p a q

pub >>=-eq-ok :
    {A B : Type 0} (m : Read A) (f : A → Read B) (d : Bytes) (p : ℕ) (b : B) (r : ℕ)
    → (m >>= f) d p ≡ ok (b, r)
    → (a : A) × (q : ℕ) × (m d p ≡ ok (a, q)) × (f a d q ≡ ok (b, r))
unfolding ◌>>=◌
>>=-eq-ok m f d p b r h = elim (Result-cases (m d p)) [
  | inl ((a, q), e) ↦ (a, q, e, ground (arith, e, h))
  | inr (x, e) ↦ absurd (ground (arith, e, h))
]

pub >>=-ok :
    {A B : Type 0} (m : Read A) (f : A → Read B) (d : Bytes) (p : ℕ) {a : A} {q : ℕ}
    → m d p ≡ ok (a, q)
    → (m >>= f) d p ≡ f a d q
unfolding ◌>>=◌
>>=-ok m f d p e = rw (e, ◌>>=◌)

pub Takes-bind :
    {A B : Type 0} (m : Read A) (f : A → Read B) (xs ys : List Bool) (a : A) (b : B)
    → Takes m xs a
    → Takes (f a) ys b
    → Takes (m >>= f) (xs ++ ys) b
Takes-bind m f xs ys a b s t d p h =
    let k = HasBits-split d p xs ys h in
    >>=-ok m f d p (s d p k.0)
    ∙ t d (p + length xs) k.1
    ∙ ap (λ n. ok (b, n)) (omega (arith, length-append {0} xs ys))

pub IsStream-bind :
    {A B : Type 0} {m : Read A} {f : A → Read B}
    → IsStream m
    → ((a : A) → IsStream (f a))
    → IsStream (m >>= f)
IsStream-bind {m} {f} s t = record {
  at = λ d p b r h.
      let (a, q, e, k) = >>=-eq-ok m f d p b r h in
      let (xs, has, reach, takes) = s.at d p a q e in
      let (ys, has', reach', takes') = (t a).at d q b r k in
      (
        xs ++ ys,
        HasBits-append d p xs ys has (subst (λ n. HasBits d n ys) reach has'),
        omega (arith, length-append {0} xs ys),
        Takes-bind m f xs ys a b takes takes',
      );
}

pub IsStream-give : {A : Type 0} (a : A) → IsStream (give a)
unfolding give
IsStream-give a = record {
  at = λ d p b q h. ([], tt, ground (arith, h), λ d' p' k. ground (arith, h));
}

pub IsStream-fail : {A : Type 0} → IsStream (fail {A = A})
unfolding fail
IsStream-fail = record { at = λ d p b q h. absurd (cc) }

pub IsStream-or_malformed : {A : Type 0} (o : Option A) → IsStream (or_malformed o)
IsStream-or_malformed none = IsStream-fail
IsStream-or_malformed (some a) = IsStream-give a

pub IsStream-if :
    {A : Type 0} {m n : Read A} (b : Bool) → IsStream m → IsStream n → IsStream (if b then m else n)
IsStream-if true s t = s
IsStream-if false s t = t

pub bit-Takes : (b : Bool) → Takes bit (b ∷ []) b
unfolding bit
bit-Takes b d p h = rw (h.0, bit)

pub bit-eq-ok :
    (d : Bytes) (p : ℕ) (b : Bool) (q : ℕ)
    → bit d p ≡ ok (b, q)
    → (bit_at d p ≡ some b) × (q ≡ p + 1)
unfolding bit
bit-eq-ok d p b q h = elim (Option-cases (bit_at d p)) [
  | inl e ↦ absurd (ground (arith, e, h))
  | inr (c, e) ↦ (ground (arith, e, h), ground (arith, e, h))
]

pub IsStream-bit : IsStream bit
IsStream-bit = record {
  at = λ d p b q h. let k = bit-eq-ok d p b q h in (b ∷ [], (k.0, tt), omega arith, bit-Takes b);
}

pub ruleset stream_rules = (IsStream-bind, IsStream-give, IsStream-fail, IsStream-if, IsStream-bit)

pub IsStream-bits : (n v : ℕ) → IsStream (bits_from v n)
unfolding bits_from
IsStream-bits zero v = search stream_rules
IsStream-bits (suc n) v = IsStream-bind IsStream-bit (λ b. IsStream-bits n _)

IsStream-leading_zeros : (left n : ℕ) → IsStream (leading_zeros n left)
unfolding leading_zeros
IsStream-leading_zeros zero n = search stream_rules
IsStream-leading_zeros (suc left) n =
    IsStream-bind IsStream-bit
      (λ b. IsStream-if b (IsStream-give n) (IsStream-leading_zeros left (n + 1)))

pub IsStream-ue : IsStream ue
unfolding ue
IsStream-ue = search (stream_rules, IsStream-leading_zeros, IsStream-bits)

pub IsStream-ue_max : (limit : ℕ) → IsStream (ue_max limit)
unfolding ue_max
IsStream-ue_max limit = search (stream_rules, IsStream-ue)

pub IsStream-se : IsStream se
unfolding se
IsStream-se = search (stream_rules, IsStream-ue)

pub ruleset read_rules = (stream_rules, IsStream-bits, IsStream-ue, IsStream-ue_max, IsStream-se)
