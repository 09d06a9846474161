-- ===== src/Video/Sps/Headed.antt =====
-- The header of an SPS, when the VUI flag is set.
use drift.Base.{
  ℕ, ◌+◌, ◌≡◌, refl, sym, ap, subst, ◌∙◌, Bool, true, List, [], ◌∷◌, ◌++◌, length, arith, ok,
}
use drift.Gfx.Pdu.{Bytes}
use drift.Video.Sps.Reader.{Read, ◌>>=◌, give, fail, bit}
use drift.Video.Sps.Syntax.{
  Header, Fields, fields, width_of, height_of, position, sized, parse_header,
}
use drift.Video.Sps.Streams.{HasBits, HasBits-split, >>=-eq-ok, >>=-ok, bit-Takes}
use drift.Video.Sps.Elements.{IsStream-fields}

-- What was cut out of `parse_header`, when the VUI flag becomes 1.
sized_present :
    (f : Fields) (flag : ℕ) (present : Bool) (d d' : Bytes) (p p' : ℕ) (h : Header) (q : ℕ)
    → sized f flag present d p ≡ ok (h, q)
    → (sized f flag true d' p' ≡ ok (record h { vui_present = true }, p'))
      × (h.vui_flag_pos ≡ flag)
      × (h.vui_present ≡ present)
unfolding sized width_of height_of ◌>>=◌ give fail
sized_present f flag present d d' p p' h q e = ground (arith, e)

-- The header depends on the bits up to the VUI flag, which can be set.
pub record Headed (d : Bytes) (h : Header) : Type 0 where
  pub xs : List Bool
  pub has : HasBits d 0 xs
  pub reach : h.vui_flag_pos ≡ length xs
  pub again :
      (d' : Bytes)
      → HasBits d' 0 (xs ++ true ∷ [])
      → parse_header d' 0 ≡ ok (record h { vui_present = true }, length xs + 1)

position-bind : {A : Type 0} (k : ℕ → Read A) (d : Bytes) (p : ℕ) → (position >>= k) d p ≡ k p d p
unfolding position give ◌>>=◌
position-bind k d p = refl

headed :
    (d : Bytes) (h : Header) (q : ℕ) (f : Fields) (p : ℕ) (present : Bool) (r : ℕ)
    → fields d 0 ≡ ok (f, p)
    → sized f p present d r ≡ ok (h, q)
    → Headed d h
unfolding parse_header
headed d h q f p present r read made =
    let (xs, has, reach, takes) = IsStream-fields.at d 0 f p read in
    record {
      xs = xs;
      has = has;
      reach = omega (arith, (sized_present f p present d d r r h q made).1, reach);
      again = λ d' k.
          let (k1, k2) = HasBits-split d' 0 xs (true ∷ []) k in
          >>=-ok fields _ d' 0 (subst (λ n. fields d' 0 ≡ ok (f, n)) (sym reach) (takes d' 0 k1))
          ∙ position-bind (λ flag. bit >>= λ present. sized f flag present) d' p
          ∙ >>=-ok bit (λ present. sized f p present) d' p
              (bit-Takes true d' p (subst (λ n. HasBits d' n (true ∷ [])) (sym reach) k2))
          ∙ (sized_present f p present d d' r (p + 1) h q made).0
          ∙ ap (λ n. ok (record h { vui_present = true }, n)) (omega arith);
    }

pub parse_header_lem : (d : Bytes) (h : Header) (q : ℕ) → parse_header d 0 ≡ ok (h, q) → Headed d h
unfolding parse_header
parse_header_lem d h q e =
    let (f, p, read, e1) = >>=-eq-ok fields _ d 0 h q e in
    let e2 = sym (position-bind (λ flag. bit >>= λ present. sized f flag present) d p) ∙ e1 in
    let (present, r, read2, e3) = >>=-eq-ok bit (λ present. sized f p present) d p h q e2 in
    headed d h q f p present r read e3
