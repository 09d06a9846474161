-- ===== src/Clipboard/Text/Examples.antt =====
-- Witness of the text round trip.
use drift.Base.{◌≡◌, refl, [], ◌∷◌}
use drift.Input.Unicode.{Text}
use drift.Clipboard.Text.{encode_unicode_text, decode_unicode_text, crlf_to_lf}
use drift.Clipboard.Text.RoundTrip.{decode-encode_unicode_text}

-- "a", LF, CR, LF, U+1F600.
abbrev two_lines : Text
two_lines = 97 ∷ 10 ∷ 13 ∷ 10 ∷ 0x1F600 ∷ []

decode-encode_unicode_text_example :
    decode_unicode_text (encode_unicode_text two_lines) ≡ crlf_to_lf two_lines
decode-encode_unicode_text_example = decode-encode_unicode_text two_lines refl
