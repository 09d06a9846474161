-- ===== src/Rdp/Redirect.antt =====
-- crates/drift-rdp/src/redirect.rs and the credentials of crates/drift-rdp/src/rdstls.rs: the legs of
-- a Server Redirection. A `String` is its UTF-8 bytes, as a list of numbers below 256; a DER blob and
-- a one-time password are byte lists. The decoder of the target certificate container is IronRDP's.
pub mod Tokens
pub mod Legs
pub mod Following
mod Examples
use Prim.Native.String.{String}
use Prim.Native.String
use drift.Base.{
  ℕ, ◌+◌, ◌-◌, Bool, true, false, not, ◌&&◌, ◌||◌, Option, none, some, List, [], ◌∷◌, leb, ltb,
  ◌==◌, if◌then◌else◌, Result, ok, err, ok_or, ◌>>=◌, ◌>>◌,
}
use drift.Core.Geometry.{DesktopSize}
use drift.Core.Profile.{ConnectMode, remote_login, headless, desktop_sharing}
use drift.Core.State.{
  max_redirects, SessionState, awaiting_greeter_login, connected, DisconnectReason, redirect_loop,
  protocol_error, cert_mismatch,
}
use drift.Gfx.Pdu.{Bytes}

-- The fields of `ServerRedirectionPdu` that are read or cleared here; `container` is the encoded
-- target certificate.
pub record ServerRedirectionPdu : Type 0 where
  pub target_net_address : Option Bytes
  pub load_balance_info : Option Bytes
  pub username : Option Bytes
  pub domain : Option Bytes
  pub password : Option Bytes
  pub redirection_guid : Option Bytes
  pub container : Option Bytes

-- `OneTimeCredentials`.
pub record OneTimeCredentials : Type 0 where
  pub redirection_guid : Bytes
  pub username : Bytes
  pub domain : Bytes
  pub password : Bytes

-- `unwrap_or_default` of an optional string.
abbrev pub or_empty : Option Bytes → Bytes
or_empty none = []
or_empty (some b) = b

abbrev credentials_of :
    Option Bytes → Option Bytes → Bytes → Option Bytes → Option OneTimeCredentials
credentials_of (some guid) (some user) dom (some pass) =
    some (record { redirection_guid = guid; username = user; domain = dom; password = pass })
credentials_of _ _ dom _ = none

-- `OneTimeCredentials::from_redirection`.
unfoldable pub from_redirection : ServerRedirectionPdu → Option OneTimeCredentials
from_redirection pdu =
    credentials_of pdu.redirection_guid pdu.username (or_empty pdu.domain) pdu.password

-- `NextLeg`.
pub record NextLeg : Type 0 where
  pub leg : ℕ
  pub host : Bytes
  pub port : ℕ
  pub routing_token : Option Bytes
  pub credentials : OneTimeCredentials
  pub target_certificate : Option Bytes

-- `RedirectLoop`.
pub record RedirectLoop : Type 0 where
  pub mode : ConnectMode
  pub host : Bytes
  pub port : ℕ
  pub leg : ℕ

-- `RedirectLoop::new`.
unfoldable pub new : ConnectMode → Bytes → ℕ → RedirectLoop
new mode host port = record { mode = mode; host = host; port = port; leg = 1 }

abbrev state_of : ConnectMode → Bool → Bool → DesktopSize → ℕ → Option SessionState
state_of remote_login true second desktop scale = none
state_of remote_login false true desktop scale = some awaiting_greeter_login
state_of _ first second desktop scale = some (connected desktop scale)

-- `RedirectLoop::on_activated`.
unfoldable pub on_activated : RedirectLoop → DesktopSize → ℕ → Option SessionState
on_activated l desktop scale = state_of l.mode (l.leg == 1) (l.leg == 2) desktop scale

-- `str::from_utf8`: whether the bytes are UTF-8. `need` continuation bytes are due, and the next one
-- is in `lo..=hi`.
pub record Utf8 : Type 0 where
  pub need : ℕ
  pub lo : ℕ
  pub hi : ℕ

abbrev pub due : ℕ → ℕ → ℕ → Utf8
due need lo hi = record { need = need; lo = lo; hi = hi }

abbrev within : ℕ → ℕ → ℕ → Bool
within lo hi b = leb lo b && leb b hi

abbrev lead : ℕ → Option Utf8
lead b =
    if ltb b 128
    then some (due 0 128 191)
    else if within 194 223 b
    then some (due 1 128 191)
    else if b == 224
    then some (due 2 160 191)
    else if b == 237
    then some (due 2 128 159)
    else if within 225 239 b
    then some (due 2 128 191)
    else if b == 240
    then some (due 3 144 191)
    else if within 241 243 b
    then some (due 3 128 191)
    else if b == 244
    then some (due 3 128 143)
    else none

abbrev utf8_step : Utf8 → ℕ → Option Utf8
utf8_step u b =
    if u.need == 0
    then lead b
    else if within u.lo u.hi b
    then some (due (u.need - 1) 128 191)
    else none

abbrev pub utf8_from : Option Utf8 → Bytes → Bool
utf8_from none bs = false
utf8_from (some u) [] = u.need == 0
utf8_from (some u) (b ∷ bs) = utf8_from (utf8_step u b) bs

unfoldable pub is_utf8 : Bytes → Bool
is_utf8 bs = utf8_from (some (due 0 128 191)) bs

abbrev pub is_empty : Bytes → Bool
is_empty [] = true
is_empty (b ∷ bs) = false

-- `trim_end_matches` for single-byte characters.
unfoldable pub trim_end : (ℕ → Bool) → Bytes → Bytes
trim_end p [] = []
trim_end p (b ∷ bs) = let rest = trim_end p bs in if is_empty rest && p b then [] else b ∷ rest

abbrev pub is_nul : ℕ → Bool
is_nul b = b == 0

-- `['\r', '\n', '\0']`.
abbrev pub is_line_end : ℕ → Bool
is_line_end b = b == 13 || b == 10 || b == 0

-- `b.is_ascii_graphic() || b == b' '`.
abbrev pub is_printable : ℕ → Bool
is_printable b = (leb 33 b && leb b 126) || b == 32

unfoldable pub all_printable : Bytes → Bool
all_printable [] = true
all_printable (b ∷ bs) = is_printable b && all_printable bs

-- `routing_token`.
unfoldable pub routing_token : Bytes → Option Bytes
routing_token info =
    let token = trim_end is_line_end info in
    if is_utf8 info && not (is_empty token) && all_printable token then some token else none

abbrev pub token_of : Option Bytes → Option Bytes
token_of none = none
token_of (some info) = routing_token info

-- The `host` that a `TargetNetAddress` leaves.
abbrev pub host_of : Option Bytes → Bytes → Bytes
host_of none host = host
host_of (some address) host =
    let trimmed = trim_end is_nul address in if is_empty trimmed then host else trimmed

-- The four `zeroize` calls of `on_redirect`: an optional field is wiped and then `None`.
abbrev pub cleared : ServerRedirectionPdu → ServerRedirectionPdu
cleared pdu = record pdu {
  username = none;
  domain = none;
  password = none;
  redirection_guid = none;
}

-- `verify_target_certificate`, on the comparison of the two certificates.
abbrev pub same_bytes : Bytes → Bytes → Bool
same_bytes [] [] = true
same_bytes (a ∷ xs) (b ∷ ys) = a == b && same_bytes xs ys
same_bytes _ _ = false

unfoldable pub verify_target_certificate : Bytes → Bytes → Result DisconnectReason (Unit {0})
verify_target_certificate expected leaf =
    if same_bytes expected leaf then ok tt else err cert_mismatch

-- `decode_target_certificate` followed by `der_certificate`, with the error's text.
abbrev pub CertificateDecoder : Type 0
CertificateDecoder = Option Bytes → Result String (Option Bytes)

abbrev pub or_protocol_error : Result String (Option Bytes) → Result DisconnectReason (Option Bytes)
or_protocol_error (ok c) = ok c
or_protocol_error (err e) =
    err (protocol_error (String.◌++◌ "malformed redirect target certificate: " e))

module _ (decode : CertificateDecoder) where
  -- The tail of `next_leg`, once the PDU is accepted.
  abbrev pub advance :
      RedirectLoop
      → ServerRedirectionPdu
      → OneTimeCredentials
      → Option Bytes
      → RedirectLoop × Result DisconnectReason NextLeg
  advance l pdu credentials certificate =
      let next : RedirectLoop = record l {
        host = host_of pdu.target_net_address l.host;
        leg = l.leg + 1;
      } in
      (
        next,
        ok (record {
          leg = next.leg;
          host = next.host;
          port = next.port;
          routing_token = token_of pdu.load_balance_info;
          credentials = credentials;
          target_certificate = certificate;
        }),
      )

  -- `?` on the certificate, and on the credentials.
  abbrev with_certificate :
      RedirectLoop
      → ServerRedirectionPdu
      → OneTimeCredentials
      → Result DisconnectReason (Option Bytes)
      → RedirectLoop × Result DisconnectReason NextLeg
  with_certificate l pdu credentials (err e) = (l, err e)
  with_certificate l pdu credentials (ok certificate) = advance l pdu credentials certificate

  abbrev with_credentials :
      RedirectLoop
      → ServerRedirectionPdu
      → Option OneTimeCredentials
      → RedirectLoop × Result DisconnectReason NextLeg
  with_credentials l pdu none =
      (l, err (protocol_error "Server Redirection PDU without one-time credentials"))
  with_credentials l pdu (some credentials) =
      with_certificate l pdu credentials (or_protocol_error (decode pdu.container))

  -- `RedirectLoop::next_leg`: the loop that it leaves, and the result.
  unfoldable pub next_leg :
      RedirectLoop → ServerRedirectionPdu → RedirectLoop × Result DisconnectReason NextLeg
  next_leg l pdu =
      if leb max_redirects (l.leg - 1)
      then (l, err redirect_loop)
      else with_credentials l pdu (from_redirection pdu)

  -- `RedirectLoop::on_redirect`: the loop and the PDU that it leaves, and the result.
  unfoldable pub on_redirect :
      RedirectLoop
      → ServerRedirectionPdu
      → RedirectLoop × ServerRedirectionPdu × Result DisconnectReason NextLeg
  on_redirect l pdu = let (l', r) = next_leg l pdu in (l', cleared pdu, r)
