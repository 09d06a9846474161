-- ===== src/Clipboard/Text.antt =====
-- crates/drift-clipboard/src/formats.rs: text on the clipboard. A text is the list of its scalar
-- values; bytes are numbers below 256.
pub mod RoundTrip
mod Examples
use drift.Base.{
  ℕ, ◌+◌, ◌-◌, ◌*◌, ◌/◌, ◌%◌, Bool, true, false, Option, none, some, not, ◌&&◌, ◌||◌, List, [], ◌∷◌,
  ◌++◌, leb, ltb, ◌==◌, if◌then◌else◌,
}
use drift.Gfx.Pdu.{Bytes}
use drift.Input.Unicode.{Text, encode_utf16}

-- `u16::to_le_bytes`, for each unit.
abbrev pub le_bytes : List ℕ → Bytes
le_bytes [] = []
le_bytes (u ∷ us) = u % 256 ∷ u / 256 ∷ le_bytes us

-- The loop of `encode_unicode_text`, with the character before.
unfoldable pub encode_chars : ℕ → Text → Bytes
encode_chars prev [] = []
encode_chars prev (c ∷ cs) =
    let rest = encode_chars c cs in
    if c == 10 && not (prev == 13)
    then le_bytes (13 ∷ []) ++ le_bytes (encode_utf16 c) ++ rest
    else le_bytes (encode_utf16 c) ++ rest

-- `encode_unicode_text`.
unfoldable pub encode_unicode_text : Text → Bytes
encode_unicode_text text = encode_chars 0 text ++ (0 ∷ 0 ∷ [])

-- `chunks_exact(2)` as little-endian units, up to the first NUL.
unfoldable pub units : Bytes → List ℕ
units (a ∷ b ∷ bs) = let rest = units bs in let u = a + 256 * b in if u == 0 then [] else u ∷ rest
units _ = []

abbrev pub is_high : ℕ → Bool
is_high u = leb 0xD800 u && ltb u 0xDC00

abbrev pub is_low : ℕ → Bool
is_low u = leb 0xDC00 u && ltb u 0xE000

-- `char::REPLACEMENT_CHARACTER`.
abbrev replacement : ℕ
replacement = 0xFFFD

abbrev pub pair : ℕ → ℕ → ℕ
pair hi lo = 0x10000 + (hi - 0xD800) * 1024 + (lo - 0xDC00)

-- `char::decode_utf16`, with the replacement for an unpaired surrogate.
unfoldable pub decode_utf16 : List ℕ → Text
decode_utf16 [] = []
decode_utf16 (u ∷ []) = (if is_high u || is_low u then replacement else u) ∷ []
decode_utf16 (u ∷ v ∷ us) =
    let after = decode_utf16 us in
    let rest = decode_utf16 (v ∷ us) in
    if is_high u && is_low v
    then pair u v ∷ after
    else if is_high u || is_low u
    then replacement ∷ rest
    else u ∷ rest

-- `crlf_to_lf`: `replace("\r\n", "\n")`.
unfoldable pub crlf_to_lf : Text → Text
crlf_to_lf [] = []
crlf_to_lf (c ∷ []) = c ∷ []
crlf_to_lf (c ∷ d ∷ cs) =
    let after = crlf_to_lf cs in
    let rest = crlf_to_lf (d ∷ cs) in if c == 13 && d == 10 then 10 ∷ after else c ∷ rest

-- `decode_unicode_text`.
unfoldable pub decode_unicode_text : Bytes → Text
decode_unicode_text bytes = crlf_to_lf (decode_utf16 (units bytes))

-- The bytes before the first NUL.
unfoldable pub until_nul : Bytes → Bytes
until_nul [] = []
until_nul (b ∷ bs) = let rest = until_nul bs in if b == 0 then [] else b ∷ rest

-- `decode_ansi_text`: UTF-8 where it is valid, and Latin-1, whose bytes are the characters, elsewhere.
-- `utf8` decodes a valid text.
unfoldable pub decode_ansi_text : (Bytes → Option Text) → Bytes → Text
decode_ansi_text utf8 bytes = crlf_to_lf (or_latin1 (utf8 (until_nul bytes)) (until_nul bytes))
  where
    or_latin1 : Option Text → Bytes → Text
    or_latin1 none b = b
    or_latin1 (some t) b = t
