-- ===== src/Rdp/Redirect/Tokens.antt =====
-- What the routing token of a `LoadBalanceInfo` blob is.
use drift.Base.{
  ℕ, ◌≡◌, ◌↔◌, refl, ap, ◌∙◌, Bool, true, false, ◌&&◌, some, [], ◌∷◌, ◌++◌, arith, Bool-cases, inl,
  inr, ltb,
}
use drift.Gfx.Pdu.{Bytes}
use drift.Rdp.Redirect.{
  due, utf8_from, is_utf8, is_empty, trim_end, is_line_end, all_printable, routing_token,
}

abbrev pub all_of : (ℕ → Bool) → Bytes → Bool
all_of p [] = true
all_of p (b ∷ bs) = p b && all_of p bs

abbrev pub all_line_ends : Bytes → Bool
all_line_ends bs = all_of is_line_end bs

abbrev pub all_plain : Bytes → Bool
all_plain [] = true
all_plain (b ∷ bs) = ltb b 128 && all_plain bs

-- Single-byte characters are UTF-8.
plain_utf8 : (bs : Bytes) → all_plain bs ≡ true → utf8_from (some (due 0 128 191)) bs ≡ true
plain_utf8 [] h = refl
plain_utf8 (b ∷ bs) h = ground (arith, plain_utf8 bs)

plain_token :
    (token trail : Bytes)
    → all_printable token ≡ true
    → all_line_ends trail ≡ true
    → all_plain (token ++ trail) ≡ true
unfolding all_printable
plain_token [] [] h e = refl
plain_token [] (b ∷ bs) h e = ground (arith, plain_token [] bs h)
plain_token (b ∷ bs) trail h e = ground (arith, plain_token bs trail)

trimmed : (trail : Bytes) → all_line_ends trail ≡ true → trim_end is_line_end trail ≡ []
unfolding trim_end
trimmed [] e = refl
trimmed (b ∷ bs) e = ground (arith, trimmed bs)

trimmed_token :
    (token trail : Bytes)
    → all_printable token ≡ true
    → all_line_ends trail ≡ true
    → trim_end is_line_end (token ++ trail) ≡ token
unfolding trim_end all_printable
trimmed_token [] trail h e = trimmed trail e
trimmed_token (b ∷ bs) trail h e = ground (arith, trimmed_token bs trail)

pub empty_nil : (bs : Bytes) → is_empty bs ≡ true → bs ≡ []
empty_nil [] h = refl
empty_nil (b ∷ bs) h = absurd cc

-- What is trimmed off.
pub trim_split :
    (p : ℕ → Bool) (bs : Bytes)
    → (trail : Bytes) × (bs ≡ trim_end p bs ++ trail) × (all_of p trail ≡ true)
unfolding trim_end
trim_split p [] = ([], refl, refl)
trim_split p (b ∷ bs) =
    let (trail, e, h) = trim_split p bs in
    elim (Bool-cases (is_empty (trim_end p bs) && p b)) [
      | inl c ↦ rw c (
          let nil = empty_nil (trim_end p bs) (ground (arith, c)) in
          (b ∷ trail, ap (λ l. b ∷ l) (e ∙ ap (λ l. l ++ trail) nil), ground (arith, c, h)))
      | inr c ↦ (trail, rw c (ap (λ l. b ∷ l) e), h)
    ]

-- A non-empty text of printable ASCII characters, followed in the blob only by CR, LF and NUL.
abbrev pub IsCookie : Bytes → Bytes → Type 0
IsCookie info token =
    (is_empty token ≡ false)
    × (all_printable token ≡ true)
    × ((trail : Bytes) × (info ≡ token ++ trail) × (all_line_ends trail ≡ true))

token_found : (info token : Bytes) → IsCookie info token → routing_token info ≡ some token
unfolding routing_token is_utf8
token_found info token (filled, printable, (trail, e, h)) =
    rw
      (
        e,
        trimmed_token token trail printable h,
        plain_utf8 (token ++ trail) (plain_token token trail printable h),
        filled,
        printable,
      )
      refl

token_only : (info token : Bytes) → routing_token info ≡ some token → IsCookie info token
unfolding routing_token
token_only info token h =
    let (trail, e, ends) = trim_split is_line_end info in
    let same : trim_end is_line_end info ≡ token = ground (arith, h) in
    (ground (arith, h), ground (arith, h), (trail, e ∙ ap (λ t. t ++ trail) same, ends))

-- A routing token is found in a `LoadBalanceInfo` blob exactly when the blob is a non-empty text of
-- printable ASCII characters followed only by carriage returns, line feeds and NULs; the token is
-- that text.
pub token_found_iff : (info token : Bytes) → (routing_token info ≡ some token) ↔ IsCookie info token
token_found_iff info token = (token_only info token, token_found info token)
