-- ===== src/Rdp/Redirect/Legs.antt =====
-- The legs of one connection attempt over any redirections of the server.
use drift.Base.{
  ℕ, ◌+◌, ◌-◌, ◌≤◌, ◌≡◌, refl, none, some, List, [], ◌∷◌, arith, Bool-cases, Option-cases, inl, inr,
  leb, Result, ok, err, Result-cases,
}
use drift.Core.State.{max_redirects, max_leg, DisconnectReason}
use drift.Rdp.Redirect.{
  ServerRedirectionPdu, from_redirection, NextLeg, RedirectLoop, next_leg, CertificateDecoder,
  or_protocol_error, on_redirect,
}

module _ (decode : CertificateDecoder) where
  -- The loop after redirections, each of which it accepts or refuses, and how many it accepts.
  abbrev pub accepted : Result DisconnectReason NextLeg → ℕ
  accepted (ok n) = 1
  accepted (err e) = 0

  abbrev pub follow : RedirectLoop → List ServerRedirectionPdu → RedirectLoop
  follow l [] = l
  follow l (pdu ∷ pdus) = follow (on_redirect decode l pdu).0 pdus

  abbrev pub redirects : RedirectLoop → List ServerRedirectionPdu → ℕ
  redirects l [] = 0
  redirects l (pdu ∷ pdus) =
      accepted (on_redirect decode l pdu).2 + redirects (on_redirect decode l pdu).0 pdus

  pub step_counts :
      (l : RedirectLoop) (pdu : ServerRedirectionPdu)
      → 1 ≤ l.leg
      → l.leg ≤ max_leg
      → ((on_redirect decode l pdu).0.leg ≡ l.leg + accepted (on_redirect decode l pdu).2)
        × ((on_redirect decode l pdu).0.leg ≤ max_leg)
  unfolding on_redirect next_leg
  step_counts l pdu h k = ground arith

  -- From a leg in 1..=MAX_LEG, whatever the server sends, the leg grows by one with each accepted
  -- redirection and with nothing else, and stays at most MAX_LEG.
  pub follow_counts :
      (l : RedirectLoop) (pdus : List ServerRedirectionPdu)
      → 1 ≤ l.leg
      → l.leg ≤ max_leg
      → ((follow l pdus).leg ≡ l.leg + redirects l pdus) × ((follow l pdus).leg ≤ max_leg)
  follow_counts l [] h k = (omega arith, k)
  follow_counts l (pdu ∷ pdus) h k =
      let (e, b) = step_counts l pdu h k in
      let (e', b') = follow_counts (on_redirect decode l pdu).0 pdus (omega (arith, e)) b in
      (omega (arith, e, e'), b')

  -- None of the four secrets is in the PDU.
  abbrev pub IsWiped : ServerRedirectionPdu → Type 0
  IsWiped pdu =
      (pdu.username ≡ none)
      × (pdu.domain ≡ none)
      × (pdu.password ≡ none)
      × (pdu.redirection_guid ≡ none)

  -- The next leg goes on from the loop with the secrets that the PDU had.
  abbrev pub Continues : RedirectLoop → ServerRedirectionPdu → RedirectLoop → NextLeg → Type 0
  Continues l pdu l' n =
      (from_redirection pdu ≡ some n.credentials)
      × (or_protocol_error (decode pdu.container) ≡ ok n.target_certificate)
      × (n.leg ≡ l.leg + 1)
      × (n.port ≡ l.port)
      × (l' ≡ record l { host = n.host; leg = n.leg })

  abbrev pub Outcome :
      RedirectLoop → ServerRedirectionPdu → RedirectLoop → Result DisconnectReason NextLeg → Type 0
  Outcome l pdu l' (ok n) = Continues l pdu l' n
  Outcome l pdu l' (err r) = l' ≡ l

  -- The PDU is wiped whatever comes out. If a leg follows, it has the credentials that the PDU had,
  -- the decoded target certificate, the next leg number and the same port, and the loop keeps its
  -- host and number; if the redirection is refused, the loop is as before.
  pub on_redirect_outcome :
      (l : RedirectLoop) (pdu : ServerRedirectionPdu)
      → IsWiped (on_redirect decode l pdu).1
        × Outcome l pdu (on_redirect decode l pdu).0 (on_redirect decode l pdu).2
  unfolding on_redirect next_leg
  on_redirect_outcome l pdu = (
    (refl, refl, refl, refl),
    elim (Bool-cases (leb max_redirects (l.leg - 1))) [
      | inl full ↦ rw full refl
      | inr room ↦ elim (Option-cases (from_redirection pdu)) [
        | inl e ↦ rw (room, e) refl
        | inr (c, e) ↦ elim (Result-cases (or_protocol_error (decode pdu.container))) [
          | inl (cert, e') ↦ rw (room, e, e') (e, e', refl, refl, refl)
          | inr (r, e') ↦ rw (room, e, e') refl
        ]
      ]
    ],
  )
