-- ===== src/Rdp/Redirect/Examples.antt =====
-- Witnesses and tests of the redirections.
use drift.Base.{◌≡◌, ◌↔◌, refl, true, false, some, none, List, [], ◌∷◌, ◌++◌, ok}
use drift.Core.Profile.{remote_login}
use drift.Gfx.Pdu.{Bytes}
use drift.Rdp.Redirect.{new, ServerRedirectionPdu, CertificateDecoder, routing_token, is_utf8}
use drift.Rdp.Redirect.Tokens.{IsCookie, token_found_iff}
use drift.Rdp.Redirect.Following.{AreAnswered, new-AreAnswered}

-- "Cookie: msts=7", CR, LF.
abbrev cookie : Bytes
cookie = 67 ∷ 111 ∷ 111 ∷ 107 ∷ 105 ∷ 101 ∷ 58 ∷ 32 ∷ 109 ∷ 115 ∷ 116 ∷ 115 ∷ 61 ∷ 55 ∷ []

abbrev blob : Bytes
blob = cookie ++ (13 ∷ 10 ∷ [])

token_found_iff_example : (routing_token blob ≡ some cookie) ↔ IsCookie blob cookie
token_found_iff_example = token_found_iff blob cookie

-- U+00E9 is UTF-8, a lone continuation byte is not.
accent : is_utf8 (195 ∷ 169 ∷ []) ≡ true
unfolding is_utf8
accent = refl

lone : is_utf8 (169 ∷ []) ≡ false
unfolding is_utf8
lone = refl

-- Decodes nothing.
abbrev no_certificate : CertificateDecoder
no_certificate container = ok none

abbrev pdu : ServerRedirectionPdu
pdu = record {
  target_net_address = none;
  load_balance_info = some blob;
  username = some (103 ∷ []);
  domain = none;
  password = some (1 ∷ 2 ∷ 3 ∷ []);
  redirection_guid = some (9 ∷ []);
  container = none;
}

-- The second PDU has no password, the third one an address with a NUL.
abbrev pdus : List ServerRedirectionPdu
pdus =
    pdu
    ∷ record pdu { password = none }
    ∷ record pdu { target_net_address = some (105 ∷ 0 ∷ []); load_balance_info = none }
    ∷ []

new-AreAnswered_example :
    AreAnswered no_certificate 0 (104 ∷ []) 3389 (new remote_login (104 ∷ []) 3389) pdus
new-AreAnswered_example = new-AreAnswered no_certificate remote_login (104 ∷ []) 3389 pdus
