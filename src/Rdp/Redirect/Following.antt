-- ===== src/Rdp/Redirect/Following.antt =====
-- What follows from each Server Redirection PDU of any sequence of them.
use Prim.Native.String.{String}
use drift.Base.{
  ℕ, ◌+◌, ◌-◌, ◌≤◌, ◌<◌, ◌≡◌, ◌⊎◌, inl, inr, refl, ap, ◌∙◌, Bool, true, false, ◌&&◌, Option, none,
  some, List, [], ◌∷◌, ◌++◌, arith, Bool-cases, Option-cases, Result-cases, leb, is_some, Result,
  ok, err,
}
use drift.Core.Profile.{ConnectMode}
use drift.Core.State.{max_redirects, DisconnectReason, redirect_loop, protocol_error}
use drift.Gfx.Pdu.{Bytes}
use drift.Rdp.Redirect.{
  ServerRedirectionPdu, or_empty, from_redirection, NextLeg, RedirectLoop, new, next_leg,
  CertificateDecoder, on_redirect, host_of, token_of, trim_end, is_nul, is_empty, routing_token,
}
use drift.Rdp.Redirect.Tokens.{empty_nil, all_of, trim_split, IsCookie, token_found_iff}
use drift.Rdp.Redirect.Legs.{IsWiped, accepted, Outcome, on_redirect_outcome}

abbrev pub ends_in_nul : Bytes → Bool
ends_in_nul [] = false
ends_in_nul (b ∷ []) = is_nul b
ends_in_nul (b ∷ c ∷ bs) = ends_in_nul (c ∷ bs)

-- The address of a PDU, less the NULs at its end; where nothing is left, or there is no address, the host
-- stays.
abbrev pub IsHost : Option Bytes → Bytes → Bytes → Type 0
IsHost none before host = host ≡ before
IsHost (some address) before host =
    ((all_of is_nul address ≡ true) × (host ≡ before))
    ⊎ ((is_empty host ≡ false)
        × (ends_in_nul host ≡ false)
        × ((nuls : Bytes) × (address ≡ host ++ nuls) × (all_of is_nul nuls ≡ true)))

abbrev pub IsToken : Option Bytes → Option Bytes → Type 0
IsToken none token = token ≡ none
IsToken (some info) (some token) = IsCookie info token
IsToken (some info) none = (token : Bytes) → IsCookie info token → ⊥

cons-nul :
    (b : ℕ) (rest : Bytes)
    → ends_in_nul rest ≡ false
    → (is_empty rest && is_nul b) ≡ false
    → ends_in_nul (b ∷ rest) ≡ false
cons-nul b [] h e = e
cons-nul b (c ∷ cs) h e = h

trim_end-nul : (bs : Bytes) → ends_in_nul (trim_end is_nul bs) ≡ false
unfolding trim_end
trim_end-nul [] = refl
trim_end-nul (b ∷ bs) =
    let rest = trim_end is_nul bs in
    elim (Bool-cases (is_empty rest && is_nul b)) [
      | inl e ↦ rw e refl
      | inr e ↦ rw e (cons-nul b rest (trim_end-nul bs) e)
    ]

host_of-IsHost :
    (address : Option Bytes) (before : Bytes) → IsHost address before (host_of address before)
host_of-IsHost none before = refl
host_of-IsHost (some address) before =
    let (nuls, split, all) = trim_split is_nul address in
    elim (Bool-cases (is_empty (trim_end is_nul address))) [
      | inl e ↦
          let bare : address ≡ nuls =
            split ∙ ap (λ h. h ++ nuls) (empty_nil (trim_end is_nul address) e) in
          rw e (inl (ap (all_of is_nul) bare ∙ all, refl))
      | inr e ↦ rw e (inr (e, trim_end-nul address, (nuls, split, all)))
    ]

token_of-IsToken : (info : Option Bytes) → IsToken info (token_of info)
token_of-IsToken none = refl
token_of-IsToken (some info) = elim (Option-cases (routing_token info)) [
  | inl e ↦ rw e (λ token c. cc (e, (token_found_iff info token).1 c))
  | inr (token, e) ↦ rw e ((token_found_iff info token).0 e)
]

module _ (decode : CertificateDecoder) where
  abbrev pub is_decoded : Result String (Option Bytes) → Bool
  is_decoded (ok c) = true
  is_decoded (err e) = false

  -- The one-time credentials are there, and the target certificate is not malformed.
  abbrev pub is_acceptable : ServerRedirectionPdu → Bool
  is_acceptable pdu =
      is_some pdu.redirection_guid
      && is_some pdu.username
      && is_some pdu.password
      && is_decoded (decode pdu.container)

  -- The leg behind `k` redirections and this one.
  pub record IsLeg (k : ℕ) (host : Bytes) (port : ℕ) (pdu : ServerRedirectionPdu) (n : NextLeg)
      : Type 0 where
    pub leg : n.leg ≡ k + 2
    pub dialed : IsHost pdu.target_net_address host n.host
    pub same_port : n.port ≡ port
    pub token : IsToken pdu.load_balance_info n.routing_token
    pub guid : pdu.redirection_guid ≡ some n.credentials.redirection_guid
    pub user : pdu.username ≡ some n.credentials.username
    pub domain : or_empty pdu.domain ≡ n.credentials.domain
    pub password : pdu.password ≡ some n.credentials.password
    pub certificate : decode pdu.container ≡ ok n.target_certificate

  -- A PDU is followed while there were fewer than MAX_REDIRECTS before it.
  abbrev pub IsAnswer :
      ℕ → Bytes → ℕ → ServerRedirectionPdu → Result DisconnectReason NextLeg → Type 0
  IsAnswer k host port pdu (ok n) = (k < max_redirects) × IsLeg k host port pdu n
  IsAnswer k host port pdu (err redirect_loop) = max_redirects ≤ k
  IsAnswer k host port pdu (err (protocol_error text)) =
      (k < max_redirects) × (is_acceptable pdu ≡ false)
  IsAnswer k host port pdu (err _) = ⊥

  abbrev pub host_after : Bytes → Result DisconnectReason NextLeg → Bytes
  host_after host (ok n) = n.host
  host_after host (err e) = host

  -- The answers to PDUs, of which `k` were followed before, the last one to `host`.
  abbrev pub AreAnswered : ℕ → Bytes → ℕ → RedirectLoop → List ServerRedirectionPdu → Type 0
  AreAnswered k host port l [] = Unit {0}
  AreAnswered k host port l (pdu ∷ pdus) =
      let (l', wiped, answer) = on_redirect decode l pdu in
      IsWiped decode wiped
      × IsAnswer k host port pdu answer
      × AreAnswered (k + accepted decode answer) (host_after host answer) port l' pdus

  next_leg-IsAnswer :
      (l : RedirectLoop) (pdu : ServerRedirectionPdu) (k : ℕ)
      → l.leg ≡ k + 1
      → IsAnswer k l.host l.port pdu (on_redirect decode l pdu).2
  unfolding on_redirect next_leg from_redirection
  next_leg-IsAnswer l pdu k e = elim (Bool-cases (leb max_redirects (l.leg - 1))) [
    | inl full ↦ rw full (ground (arith, full, e))
    | inr room ↦
        let more : k < max_redirects = ground (arith, room, e) in
        elim (Option-cases pdu.redirection_guid) [
          | inl g ↦ rw (room, g) (more, refl)
          | inr (guid, g) ↦ elim (Option-cases pdu.username) [
            | inl u ↦ rw (room, g, u) (more, refl)
            | inr (user, u) ↦ elim (Option-cases pdu.password) [
              | inl p ↦ rw (room, g, u, p) (more, refl)
              | inr (pass, p) ↦ elim (Result-cases (decode pdu.container)) [
                | inr (text, d) ↦ rw (room, g, u, p, d) (more, ap is_decoded d)
                | inl (certificate, d) ↦
                    rw (room, g, u, p, d)
                      (
                        more,
                        record {
                          leg = omega (arith, e);
                          dialed = host_of-IsHost pdu.target_net_address l.host;
                          same_port = refl;
                          token = token_of-IsToken pdu.load_balance_info;
                          guid = refl;
                          user = refl;
                          domain = refl;
                          password = refl;
                          certificate = d;
                        },
                      )
              ]
            ]
          ]
        ]
  ]

  Follows : ℕ → Bytes → ℕ → RedirectLoop → Type 0
  Follows k host port l = (l.leg ≡ k + 1) × (l.host ≡ host) × (l.port ≡ port)

  outcome-Follows :
      (l l' : RedirectLoop) (pdu : ServerRedirectionPdu) (k : ℕ)
      (r : Result DisconnectReason NextLeg)
      → l.leg ≡ k + 1
      → Outcome decode l pdu l' r
      → Follows (k + accepted decode r) (host_after l.host r) l.port l'
  unfolding Follows
  outcome-Follows l l' pdu k (ok n) e (c, d, g, p, h) =
      (omega (arith, ap (λ x. x.leg) h, g, e), ap (λ x. x.host) h, ap (λ x. x.port) h)
  outcome-Follows l l' pdu k (err r) e h =
      (omega (arith, ap (λ x. x.leg) h, e), ap (λ x. x.host) h, ap (λ x. x.port) h)

  all-AreAnswered :
      (l : RedirectLoop) (k : ℕ) (host : Bytes) (port : ℕ) (pdus : List ServerRedirectionPdu)
      → Follows k host port l
      → AreAnswered k host port l pdus
  unfolding Follows
  all-AreAnswered l k host port [] h = tt
  all-AreAnswered l k host port (pdu ∷ pdus) (e, same_host, same_port) =
      let (wiped, o) = on_redirect_outcome decode l pdu in
      let next =
        outcome-Follows l (on_redirect decode l pdu).0 pdu k (on_redirect decode l pdu).2 e o in
      rw (← same_host, ← same_port)
        (
          wiped,
          next_leg-IsAnswer l pdu k e,
          all-AreAnswered (on_redirect decode l pdu).0 _ _ l.port pdus next,
        )

  -- Whatever Server Redirection PDUs a new attempt receives: each is wiped of its four secrets, and it is
  -- followed exactly if fewer than MAX_REDIRECTS were followed before it and its one-time
  -- credentials and target certificate are in order; else the error says which of the two failed.
  -- The leg that follows is numbered one above the last, and has the credentials and the certificate
  -- of the PDU, the port of the attempt, the routing token of the load balance information, if it
  -- is one, and as its host the address of the PDU without its trailing NULs, or else the host so far.
  pub new-AreAnswered :
      (mode : ConnectMode) (host : Bytes) (port : ℕ) (pdus : List ServerRedirectionPdu)
      → AreAnswered 0 host port (new mode host port) pdus
  unfolding new Follows
  new-AreAnswered mode host port pdus =
      all-AreAnswered (new mode host port) 0 host port pdus (refl, refl, refl)
