-- ===== src/Rdp/Certificates/Trust.antt =====
-- Which certificates a leg goes on with.
use drift.Base.{
  ◌≡◌, refl, ◌⊎◌, inl, inr, Bool, true, false, ◌||◌, Option, none, some, List, [], ◌∷◌, arith,
  Bool-cases, ok,
}
use drift.Gfx.Pdu.{Bytes}
use drift.Rdp.Redirect.{same_bytes}
use drift.Rdp.Certificates.{
  CertExpectation, pinned, trust_on_first_use, exact, Command, accept_certificate,
  reject_certificate, close, other, prompt, is_pin, decide_certificate, outcome, check_certificate,
  leg_certificate,
}

same_bytes-eq : (a b : Bytes) → same_bytes a b ≡ true → a ≡ b
same_bytes-eq [] [] h = refl
same_bytes-eq (x ∷ xs) (y ∷ ys) h = ground (arith, h, same_bytes-eq xs ys)
same_bytes-eq [] (y ∷ ys) h = absurd cc
same_bytes-eq (x ∷ xs) [] h = absurd cc

-- The user accepts the certificate with this fingerprint.
abbrev accepts : Bytes → Option Command → Bool
accepts fp (some (accept_certificate accepted keep)) = same_bytes accepted fp
accepts fp _ = false

abbrev pub any_accepts : Bytes → List (Option Command) → Bool
any_accepts fp [] = false
any_accepts fp (c ∷ cs) = accepts fp c || any_accepts fp cs

prompt_accepted :
    (pin : Option Bytes) (fp : Bytes) (cs : List (Option Command))
    → outcome (prompt pin fp cs) ≡ some (ok tt)
    → any_accepts fp cs ≡ true
unfolding prompt
prompt_accepted pin fp [] h = absurd cc
prompt_accepted pin fp (none ∷ cs) h = absurd cc
prompt_accepted pin fp (some close ∷ cs) h = absurd cc
prompt_accepted pin fp (some reject_certificate ∷ cs) h = absurd cc
prompt_accepted pin fp (some other ∷ cs) h = prompt_accepted pin fp cs h
prompt_accepted pin fp (some (accept_certificate accepted keep) ∷ cs) h =
    ground (arith, h, prompt_accepted pin fp cs)

module _ (digest : Bytes → Bytes) where
  -- The certificate is the pinned one, the one that the redirection named, or one that the user
  -- accepted by its fingerprint, in this prompt or before in the session.
  abbrev pub IsTrusted : CertExpectation → Option Bytes → Bytes → List (Option Command) → Type 0
  IsTrusted (pinned fp) pin leaf cs = fp ≡ digest leaf
  IsTrusted (exact der) pin leaf cs = der ≡ leaf
  IsTrusted trust_on_first_use pin leaf cs =
      (is_pin pin (digest leaf) ≡ true) ⊎ (any_accepts (digest leaf) cs ≡ true)

  -- If the certificate decision lets a leg go on, then the leaf is the pinned certificate, the one that
  -- the redirection named, or, with neither, one whose fingerprint the user accepted in this prompt or
  -- before in the session.
  pub leg_certificate-IsTrusted :
      (expectation : CertExpectation) (pin : Option Bytes) (leaf : Bytes)
      (cs : List (Option Command))
      → leg_certificate digest expectation pin leaf cs ≡ some (ok tt)
      → IsTrusted expectation pin leaf cs
  unfolding leg_certificate check_certificate decide_certificate
  leg_certificate-IsTrusted (pinned fp) pin leaf cs h =
      same_bytes-eq fp (digest leaf) (ground (arith, h))
  leg_certificate-IsTrusted (exact der) pin leaf cs h = same_bytes-eq der leaf (ground (arith, h))
  leg_certificate-IsTrusted trust_on_first_use pin leaf cs h =
      elim (Bool-cases (is_pin pin (digest leaf))) [
        | inl e ↦ inl e
        | inr e ↦ inr (prompt_accepted pin (digest leaf) cs (ground (arith, h, e)))
      ]
