-- ===== src/Rdp/Certificates.antt =====
-- crates/drift-rdp/src/connect.rs and the certificate prompt of actor.rs: whether a leg trusts the
-- certificate of its server. A fingerprint is the digest of the leaf; the digest is a parameter.
pub mod Trust
mod Examples
use drift.Base.{
  ℕ, Bool, true, false, Option, none, some, List, [], ◌∷◌, if◌then◌else◌, Result, ok, err,
}
use drift.Core.State.{DisconnectReason, cert_mismatch, user_closed}
use drift.Gfx.Pdu.{Bytes}
use drift.Rdp.Redirect.{same_bytes}

pub data CertExpectation : Type 0 where
  pinned : Bytes → CertExpectation
  trust_on_first_use : CertExpectation
  exact : Bytes → CertExpectation

pub data CertVerdict : Type 0 where
  trusted mismatch : CertVerdict
  unknown : Bytes → CertVerdict

-- The commands that `decide_certificate` tells apart.
pub data Command : Type 0 where
  accept_certificate : Bytes → Bool → Command
  reject_certificate close other : Command

pub data CertDecision : Type 0 where
  accept : Bool → CertDecision
  reject closed : CertDecision

-- The events of a decision, without the host, the port and the role that a prompt shows.
pub data Event : Type 0 where
  certificate_prompt certificate_pinned : Bytes → Event

-- The decision, the accepted certificate of the session, and the events.
pub record Decided : Type 0 where
  pub decision : CertDecision
  pub session_pin : Option Bytes
  pub events : List Event

-- The prompt and the loop of `decide_certificate` over the commands received (`none` in the list: every handle is
-- dropped); `none` while it waits for more.
unfoldable pub prompt : Option Bytes → Bytes → List (Option Command) → Option Decided
prompt pin fp [] = none
prompt pin fp (none ∷ cs) =
    some (record { decision = closed; session_pin = pin; events = certificate_prompt fp ∷ [] })
prompt pin fp (some close ∷ cs) =
    some (record { decision = closed; session_pin = pin; events = certificate_prompt fp ∷ [] })
prompt pin fp (some reject_certificate ∷ cs) =
    some (record { decision = reject; session_pin = pin; events = certificate_prompt fp ∷ [] })
prompt pin fp (some other ∷ cs) = prompt pin fp cs
prompt pin fp (some (accept_certificate accepted keep) ∷ cs) =
    let rest = prompt pin fp cs in
    if same_bytes accepted fp
    then some (record {
      decision = accept keep;
      session_pin = some fp;
      events = certificate_prompt fp ∷ (if keep then certificate_pinned fp ∷ [] else []);
    })
    else rest

-- `self.session_pin == Some(fingerprint)`.
abbrev pub is_pin : Option Bytes → Bytes → Bool
is_pin none fp = false
is_pin (some pin) fp = same_bytes pin fp

-- `Io::decide_certificate`.
unfoldable pub decide_certificate : Option Bytes → Bytes → List (Option Command) → Option Decided
decide_certificate pin fp cs =
    if is_pin pin fp
    then some (record { decision = accept false; session_pin = pin; events = [] })
    else prompt pin fp cs

abbrev allowed : CertDecision → Result DisconnectReason (Unit {0})
allowed (accept keep) = ok tt
allowed reject = err cert_mismatch
allowed closed = err user_closed

abbrev pub outcome : Option Decided → Option (Result DisconnectReason (Unit {0}))
outcome none = none
outcome (some d) = some (allowed d.decision)

module _ (digest : Bytes → Bytes) where
  -- `check_certificate`.
  unfoldable pub check_certificate : CertExpectation → Bytes → CertVerdict
  check_certificate (pinned pin) leaf = if same_bytes pin (digest leaf) then trusted else mismatch
  check_certificate (exact der) leaf = if same_bytes der leaf then trusted else mismatch
  check_certificate trust_on_first_use leaf = unknown (digest leaf)

  abbrev pub of_verdict :
      Option Bytes
      → List (Option Command)
      → CertVerdict
      → Option (Result DisconnectReason (Unit {0}))
  of_verdict pin cs trusted = some (ok tt)
  of_verdict pin cs mismatch = some (err cert_mismatch)
  of_verdict pin cs (unknown fp) = outcome (decide_certificate pin fp cs)

  -- The certificate decision of `connect_leg`, for the commands that the user sends meanwhile.
  unfoldable pub leg_certificate :
      CertExpectation
      → Option Bytes
      → Bytes
      → List (Option Command)
      → Option (Result DisconnectReason (Unit {0}))
  leg_certificate expectation pin leaf cs = of_verdict pin cs (check_certificate expectation leaf)
