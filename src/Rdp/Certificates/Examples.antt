-- ===== src/Rdp/Certificates/Examples.antt =====
-- Witness of the certificate decision.
use drift.Base.{◌≡◌, refl, true, false, Option, none, some, List, [], ◌∷◌, ok}
use drift.Gfx.Pdu.{Bytes}
use drift.Rdp.Certificates.{
  trust_on_first_use, Command, accept_certificate, other, prompt, decide_certificate,
  check_certificate, leg_certificate,
}
use drift.Rdp.Certificates.Trust.{IsTrusted, leg_certificate-IsTrusted}

-- A digest that keeps the first byte.
abbrev first_byte : Bytes → Bytes
first_byte [] = []
first_byte (b ∷ bs) = b ∷ []

-- An acceptance of another certificate, and one of this.
abbrev answers : List (Option Command)
answers =
    some other
    ∷ some (accept_certificate (9 ∷ []) true)
    ∷ some (accept_certificate (7 ∷ []) false)
    ∷ []

goes_on : leg_certificate first_byte trust_on_first_use none (7 ∷ 1 ∷ []) answers ≡ some (ok tt)
unfolding leg_certificate check_certificate decide_certificate prompt
goes_on = refl

leg_certificate-IsTrusted_example :
    IsTrusted first_byte trust_on_first_use none (7 ∷ 1 ∷ []) answers
leg_certificate-IsTrusted_example =
    leg_certificate-IsTrusted first_byte trust_on_first_use none (7 ∷ 1 ∷ []) answers goes_on
