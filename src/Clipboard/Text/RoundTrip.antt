-- ===== src/Clipboard/Text/RoundTrip.antt =====
-- Text that is encoded for the remote clipboard and decoded again.
use drift.Base.{
  ℕ, ◌+◌, ◌-◌, ◌*◌, ◌/◌, ◌%◌, ◌≡◌, refl, sym, ap, ◌∙◌, Bool, true, false, not, ◌&&◌, ◌||◌, List, [],
  ◌∷◌, ◌++◌, arith, Bool-cases, inl, inr, leb, ltb, ◌==◌, if◌then◌else◌,
}
use drift.Input.Unicode.{Text, encode_utf16}
use drift.Clipboard.Text.{
  le_bytes, encode_chars, encode_unicode_text, units, decode_utf16, crlf_to_lf, decode_unicode_text,
  is_high, is_low, pair,
}

-- A Unicode scalar value other than NUL.
abbrev pub is_char : ℕ → Bool
is_char c = not (c == 0) && (ltb c 0xD800 || (leb 0xE000 c && ltb c 0x110000))

abbrev pub all_chars : Text → Bool
all_chars [] = true
all_chars (c ∷ cs) = is_char c && all_chars cs

-- The text on the wire: a carriage return before each line feed that has none.
abbrev wire_text : ℕ → Text → Text
wire_text prev [] = []
wire_text prev (c ∷ cs) =
    let rest = wire_text c cs in if c == 10 && not (prev == 13) then 13 ∷ c ∷ rest else c ∷ rest

abbrev utf16 : Text → List ℕ
utf16 [] = []
utf16 (c ∷ cs) = encode_utf16 c ++ utf16 cs

abbrev all_units : List ℕ → Bool
all_units [] = true
all_units (u ∷ us) = (not (u == 0) && ltb u 0x10000) && all_units us

le_bytes-append : (us vs : List ℕ) → le_bytes (us ++ vs) ≡ le_bytes us ++ le_bytes vs
le_bytes-append [] vs = refl
le_bytes-append (u ∷ us) vs = ap (λ l. u % 256 ∷ u / 256 ∷ l) (le_bytes-append us vs)

encode_chars_wire :
    (prev : ℕ) (t : Text) → encode_chars prev t ≡ le_bytes (utf16 (wire_text prev t))
unfolding encode_chars
encode_chars_wire prev [] = refl
encode_chars_wire prev (c ∷ cs) = elim (Bool-cases (c == 10 && not (prev == 13))) [
  | inl e ↦ rw e (
      ap (λ l. 13 ∷ 0 ∷ l)
        (ap (λ l. le_bytes (encode_utf16 c) ++ l) (encode_chars_wire c cs)
          ∙ sym (le_bytes-append (encode_utf16 c) (utf16 (wire_text c cs)))))
  | inr e ↦ rw e (
      ap (λ l. le_bytes (encode_utf16 c) ++ l) (encode_chars_wire c cs)
      ∙ sym (le_bytes-append (encode_utf16 c) (utf16 (wire_text c cs))))
]

joined : (u : ℕ) → u % 256 + 256 * (u / 256) ≡ u
joined u = omega arith

units-le_bytes : (us : List ℕ) → all_units us ≡ true → units (le_bytes us ++ (0 ∷ 0 ∷ [])) ≡ us
unfolding units
units-le_bytes [] h = refl
units-le_bytes (u ∷ us) h = rw (joined u) (ground (arith, units-le_bytes us))

lone_unit :
    (c : ℕ) → is_char c ≡ true → ltb c 0x10000 ≡ true → (is_high c ≡ false) × (is_low c ≡ false)
lone_unit c h e = ground arith

-- The surrogates of a character above the basic plane.
abbrev high_of : ℕ → ℕ
high_of c = 0xD800 + (c - 0x10000) / 1024

abbrev low_of : ℕ → ℕ
low_of c = 0xDC00 + (c - 0x10000) % 1024

surrogates :
    (c : ℕ)
    → is_char c ≡ true
    → ltb c 0x10000 ≡ false
    → (is_high (high_of c) ≡ true) × (is_low (low_of c) ≡ true) × (pair (high_of c) (low_of c) ≡ c)
surrogates c h e = (ground (arith, e), ground (arith, e), paired (c - 0x10000) ∙ ground (arith, e))
  where
    paired :
        (m : ℕ)
        → 0x10000 + ((0xD800 + m / 1024) - 0xD800) * 1024 + ((0xDC00 + m % 1024) - 0xDC00)
          ≡ 0x10000 + m
    paired m = omega arith

lone_decodes :
    (c : ℕ) (us : List ℕ)
    → is_high c ≡ false
    → is_low c ≡ false
    → decode_utf16 (c ∷ us) ≡ c ∷ decode_utf16 us
unfolding decode_utf16
lone_decodes c [] h l = rw (h, l) refl
lone_decodes c (v ∷ us) h l = rw (h, l) refl

pair_decodes :
    (u v : ℕ) (us : List ℕ)
    → is_high u ≡ true
    → is_low v ≡ true
    → decode_utf16 (u ∷ v ∷ us) ≡ pair u v ∷ decode_utf16 us
unfolding decode_utf16
pair_decodes u v us h l = rw (h, l) refl

decode_char :
    (c : ℕ) (us : List ℕ)
    → is_char c ≡ true
    → decode_utf16 (encode_utf16 c ++ us) ≡ c ∷ decode_utf16 us
decode_char c us h = elim (Bool-cases (ltb c 0x10000)) [
  | inl e ↦ (let (p, q) = lone_unit c h e in rw e (lone_decodes c us p q))
  | inr e ↦
      (let (p, q, r) = surrogates c h e in
        rw e (pair_decodes (high_of c) (low_of c) us p q ∙ ap (λ x. x ∷ decode_utf16 us) r))
]

utf16_decodes : (t : Text) → all_chars t ≡ true → decode_utf16 (utf16 t) ≡ t
unfolding decode_utf16
utf16_decodes [] h = refl
utf16_decodes (c ∷ cs) h =
    decode_char c (utf16 cs) (ground (arith, h))
    ∙ ap (λ l. c ∷ l) (utf16_decodes cs (ground (arith, h)))

char_units :
    (c : ℕ) (us : List ℕ)
    → is_char c ≡ true
    → all_units us ≡ true
    → all_units (encode_utf16 c ++ us) ≡ true
char_units c us h k = ground arith

text_units : (t : Text) → all_chars t ≡ true → all_units (utf16 t) ≡ true
text_units [] h = refl
text_units (c ∷ cs) h =
    char_units c (utf16 cs) (ground (arith, h)) (text_units cs (ground (arith, h)))

wire_chars : (prev : ℕ) (t : Text) → all_chars t ≡ true → all_chars (wire_text prev t) ≡ true
wire_chars prev [] h = refl
wire_chars prev (c ∷ cs) h = ground (arith, wire_chars c cs)

crlf_plain : (c : ℕ) (cs : Text) → (c == 13) ≡ false → crlf_to_lf (c ∷ cs) ≡ c ∷ crlf_to_lf cs
unfolding crlf_to_lf
crlf_plain c [] h = refl
crlf_plain c (d ∷ ds) h = rw h refl

crlf-wire_text : (prev : ℕ) (t : Text) → crlf_to_lf (wire_text prev t) ≡ crlf_to_lf t
unfolding crlf_to_lf
crlf-wire_text prev [] = refl
crlf-wire_text prev (c ∷ []) = ground arith
crlf-wire_text prev (c ∷ d ∷ cs) = elim (Bool-cases (c == 13)) [
  | inl e ↦ ground (arith, e, crlf-wire_text d cs, crlf-wire_text c (d ∷ cs))
  | inr e ↦
      ground (
        arith,
        crlf-wire_text c (d ∷ cs),
        crlf_plain c (d ∷ cs),
        crlf_plain c (wire_text c (d ∷ cs)),
      )
]

-- A text without NUL characters, encoded for the remote and decoded again, is the text with each
-- CRLF replaced by LF, whatever other characters it has, also those of two UTF-16 units.
pub decode-encode_unicode_text :
    (t : Text) → all_chars t ≡ true → decode_unicode_text (encode_unicode_text t) ≡ crlf_to_lf t
unfolding decode_unicode_text encode_unicode_text
decode-encode_unicode_text t h =
    let wire = wire_text 0 t in
    ap (λ b. crlf_to_lf (decode_utf16 (units (b ++ (0 ∷ 0 ∷ []))))) (encode_chars_wire 0 t)
    ∙ ap (λ us. crlf_to_lf (decode_utf16 us))
        (units-le_bytes (utf16 wire) (text_units wire (wire_chars 0 t h)))
    ∙ ap crlf_to_lf (utf16_decodes wire (wire_chars 0 t h))
    ∙ crlf-wire_text 0 t
