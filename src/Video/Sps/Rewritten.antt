-- ===== src/Video/Sps/Rewritten.antt =====
-- The VUI that the rewriting writes: what it holds, and that it is parsed.
use drift.Base.{
  ℕ, zero, suc, ◌+◌, ◌%◌, ◌≡◌, refl, sym, subst, ◌∙◌, Bool, true, false, Option, none, List, [],
  ◌∷◌, ◌++◌, append_assoc, append-nil, arith, ◌==◌, Bool-cases, inl, inr, Result, ok, err,
}
use drift.Gfx.Pdu.{Bytes}
use drift.Video.Sps.Reader.{SpsError, ◌>>=◌, give, bit}
use drift.Video.Sps.Writer.{BitWriter, write_bit, copy, align, trailing_bits}
use drift.Video.Sps.Syntax.{
  Header, SignalType, skip_if, skip_aspect, skip_aspect_and_overscan, read_signal_type,
}
use drift.Video.Sps.Vui.{
  rest_length, write_bt709_full_range, copy_aspect, copy_overscan, rewrite_vui, new_vui,
}
use drift.Video.Sps.Streams.{HasBits-unique, Takes, Takes-bind, >>=-eq-ok, >>=-ok, bit-Takes}
use drift.Video.Sps.Elements.{IsStream-skip_aspect_and_overscan}
use drift.Video.Sps.Written.{Holds, write_bit-Holds}
use drift.Video.Sps.Copied.{Copied, Copied-append, copy-Copied}
use drift.Video.Sps.Signal.{signal_bits, write_bt709-Holds, give-Takes}
use drift.Video.Sps.Rewriting.{copy_aspect_lem, copy_overscan_lem}
use drift.Video.Sps.{value_of, vui_signal, info_of, with_signal, info_from, vui_from}

-- A zero VUI flag, or the bits copied, then the new signal type.
pub record VuiWritten (rbsp : Bytes) (h : Header) (w : BitWriter) (bs : List Bool) : Type 0 where
  pub pre : List Bool
  pub post : List Bool
  pub skipped : Takes skip_aspect_and_overscan pre tt
  pub holds : Holds w (bs ++ (pre ++ (signal_bits ++ post)))
  pub old : Option SignalType
  pub info : info_from rbsp h ≡ ok (with_signal (info_of h) old)

align-Holds :
    (left : ℕ) (w : BitWriter) (bs : List Bool)
    → Holds w bs
    → (ys : List Bool) × Holds (align left w) (bs ++ ys)
unfolding align
align-Holds zero w bs h = ([], subst (Holds w) (sym (append-nil bs)) h)
align-Holds (suc left) w bs h = elim (Bool-cases (w.len % 8 == 0)) [
  | inl e ↦ ([], subst (Holds _) (sym (append-nil bs)) (rw e h))
  | inr e ↦
      let (ys, k) =
        align-Holds left (write_bit w false) (bs ++ false ∷ []) (write_bit-Holds w false bs h) in
      (false ∷ ys, rw e (subst (Holds _) (append_assoc bs (false ∷ []) ys) k))
]

pub trailing_bits-Holds :
    (w : BitWriter) (bs : List Bool)
    → Holds w bs
    → (ys : List Bool) × Holds (trailing_bits w) (bs ++ ys)
unfolding trailing_bits
trailing_bits-Holds w bs h =
    let (ys, k) =
      align-Holds 7 (write_bit w true) (bs ++ true ∷ []) (write_bit-Holds w true bs h) in
    (true ∷ ys, subst (Holds _) (append_assoc bs (true ∷ []) ys) k)

skip_lem :
    (d : Bytes) (p p1 p2 : ℕ)
    → (bit >>= skip_aspect) d p ≡ ok (tt, p1)
    → (bit >>= λ overscan. skip_if overscan 1) d p1 ≡ ok (tt, p2)
    → skip_aspect_and_overscan d p ≡ ok (tt, p2)
unfolding skip_aspect_and_overscan
skip_lem d p p1 p2 e1 e2 =
    let (b, p', read, k) = >>=-eq-ok bit skip_aspect d p tt p1 e1 in
    >>=-ok bit _ d p read ∙ >>=-ok (skip_aspect b) _ d p' k ∙ e2

vui_signal_lem :
    (d : Bytes) (p p2 p3 : ℕ) (old : Option SignalType)
    → skip_aspect_and_overscan d p ≡ ok (tt, p2)
    → read_signal_type d p2 ≡ ok (old, p3)
    → vui_signal d p ≡ ok (old, p3)
unfolding vui_signal
vui_signal_lem d p p2 p3 old e1 e2 = >>=-ok skip_aspect_and_overscan _ d p e1 ∙ e2

Copied-vui :
    (w : BitWriter) (d : Bytes) (p : ℕ) (w1 : BitWriter) (p1 : ℕ) (w2 : BitWriter) (p2 : ℕ)
    (bs : List Bool)
    → Holds w bs
    → copy_aspect w d p ≡ ok (w1, p1)
    → copy_overscan w1 d p1 ≡ ok (w2, p2)
    → Copied d p p2 w2 bs × (skip_aspect_and_overscan d p ≡ ok (tt, p2))
Copied-vui w d p w1 p1 w2 p2 bs h e1 e2 =
    let (c1, k1) = copy_aspect_lem w d p w1 p1 bs h e1 in
    let (c2, k2) = copy_overscan_lem w1 d p1 w2 p2 (bs ++ c1.taken) c1.holds e2 in
    (Copied-append c1.taken c1.has c1.reach c2, skip_lem d p p1 p2 k1 k2)

-- The bits copied are those that the parser passes over.
taken-Takes :
    (d : Bytes) (p p2 : ℕ) (w2 : BitWriter) (bs : List Bool) (c : Copied d p p2 w2 bs)
    → skip_aspect_and_overscan d p ≡ ok (tt, p2)
    → Takes skip_aspect_and_overscan c.taken tt
taken-Takes d p p2 w2 bs c k =
    let (xs, has, reach, takes) = IsStream-skip_aspect_and_overscan.at d p tt p2 k in
    subst (λ l. Takes skip_aspect_and_overscan l tt)
      (HasBits-unique d p xs c.taken has c.has (omega (arith, reach, c.reach))) takes

old_info :
    (d : Bytes) (h : Header) (p q : ℕ) (old : Option SignalType)
    → p ≡ h.vui_flag_pos + 1
    → h.vui_present ≡ true
    → vui_signal d p ≡ ok (old, q)
    → info_from d h ≡ ok (with_signal (info_of h) old)
old_info d h p q old at present e = rw (present, sym at, e)

rewrite_vui_lem :
    (w : BitWriter) (d : Bytes) (h : Header) (p : ℕ) (w' : BitWriter) (q : ℕ) (bs : List Bool)
    → Holds w bs
    → p ≡ h.vui_flag_pos + 1
    → h.vui_present ≡ true
    → rewrite_vui w d p ≡ ok (w', q)
    → VuiWritten d h w' bs
unfolding rewrite_vui
rewrite_vui_lem w d h p w' q bs holds at present e =
    let (w1, p1, e1, r1) = >>=-eq-ok (copy_aspect w) _ d p w' q e in
    let (w2, p2, e2, r2) = >>=-eq-ok (copy_overscan w1) _ d p1 w' q r1 in
    let (old, p3, e3, r3) = >>=-eq-ok read_signal_type _ d p2 w' q r2 in
    let (n, p4, e4, r4) = >>=-eq-ok rest_length (copy (write_bt709_full_range w2)) d p3 w' q r3 in
    let (c, skip) = Copied-vui w d p w1 p1 w2 p2 bs holds e1 e2 in
    let filled = write_bt709-Holds w2 (bs ++ c.taken) c.holds in
    let rest =
      (copy-Copied n (write_bt709_full_range w2) d p4 w' q ((bs ++ c.taken) ++ signal_bits) filled
        r4).0 in
    record {
      pre = c.taken;
      post = rest.taken;
      skipped = taken-Takes d p p2 w2 bs c skip;
      holds =
          subst (Holds w')
            (append_assoc (bs ++ c.taken) signal_bits rest.taken
              ∙ append_assoc bs c.taken (signal_bits ++ rest.taken))
            rest.holds;
      old = old;
      info = old_info d h p p3 old at present (vui_signal_lem d p p2 p3 old skip e3);
    }

no_vui-Takes : Takes skip_aspect_and_overscan (false ∷ false ∷ []) tt
unfolding skip_aspect_and_overscan skip_aspect skip_if
no_vui-Takes = Takes-bind bit _ (false ∷ []) (false ∷ []) false tt (bit-Takes false) (
    Takes-bind (give tt) _ [] (false ∷ []) tt tt (give-Takes tt)
      (Takes-bind bit _ (false ∷ []) [] false tt (bit-Takes false) (give-Takes tt)))

new_vui_lem :
    (w : BitWriter) (d : Bytes) (h : Header) (bs : List Bool)
    → Holds w bs
    → h.vui_present ≡ false
    → VuiWritten d h (new_vui w) bs
unfolding new_vui
new_vui_lem w d h bs holds absent =
    let no = λ (v : BitWriter) (xs : List Bool) (k : Holds v xs). write_bit-Holds v false xs k in
    let k = write_bt709-Holds _ _ (no _ _ (no _ _ holds)) in
    let k = no _ _ (no _ _ (no _ _ (no _ _ (no _ _ (no _ _ k))))) in
    record {
      pre = false ∷ false ∷ [];
      post = false ∷ false ∷ false ∷ false ∷ false ∷ false ∷ [];
      skipped = no_vui-Takes;
      holds = subst (Holds (new_vui w)) (simp append_assoc) k;
      old = none;
      info = rw absent;
    }

pub value_of-eq-ok :
    {A : Type 0} (r : Result SpsError (A × ℕ)) (a : A)
    → value_of r ≡ ok a
    → (q : ℕ) × (r ≡ ok (a, q))
value_of-eq-ok (ok (b, q)) a e = (q, ground (arith, e))
value_of-eq-ok (err x) a e = absurd cc

pub vui_lem :
    (d : Bytes) (h : Header) (w w' : BitWriter) (bs : List Bool)
    → Holds w bs
    → vui_from d h w ≡ ok w'
    → VuiWritten d h w' bs
vui_lem d h w w' bs holds e = elim (Bool-cases h.vui_present) [
  | inl present ↦
      let (q, k) =
        value_of-eq-ok (rewrite_vui w d (h.vui_flag_pos + 1)) w' (ground (arith, e, present)) in
      rewrite_vui_lem w d h (h.vui_flag_pos + 1) w' q bs holds refl present k
  | inr absent ↦
      subst (λ v. VuiWritten d h v bs) (let s : new_vui w ≡ w' = ground (arith, e, absent) in s)
        (new_vui_lem w d h bs holds absent)
]
