-- ===== src/Gfx/Payload/Framing.antt =====
-- The loop of crates/drift-gfx/src/client.rs over a payload, and the frames that it is made of.
use drift.Base.{
  ℕ, zero, suc, ◌≤◌, ◌<◌, ◌≡◌, refl, ap, ◌∙◌, Option, some, List, [], ◌∷◌, ◌++◌, arith, Result, ok,
  err, length, length-drop, length-take, length-append, take-drop, take-append, drop-append,
}
use drift.Gfx.Codecs.{Codecs}
use drift.Gfx.Monad.{◌>>=◌}
use drift.Gfx.State.{GfxError}
use drift.Gfx.Pdu.{Bytes}
use drift.Gfx.Client.{Client}
use drift.Gfx.Payload.{
  pdu_length, split_pdu, Outcome, after, with_first, handle_bytes, pdus_loop, process_pdus,
}

-- Where a payload can be split into a first PDU and a rest: the two laid together are the payload,
-- the PDU has at least the eight bytes of its header, and the rest is shorter than the payload.
pub split_pdu_parts :
    {D : Type 0} (data' first rest : Bytes)
    → split_pdu {D = D} data' ≡ ok (first, rest)
    → (first ++ rest ≡ data') × (8 ≤ length first) × (length rest < length data')
unfolding split_pdu
split_pdu_parts data' first rest e = grind (arith, take-drop, length-take, length-drop)

-- One frame: a header that declares the length of the frame.
pub record IsFrame (f : Bytes) : Type 0 where
  pub declared : pdu_length f ≡ some (length f)
  pub has_header : 8 ≤ length f

pdu_length-append : (f bs : Bytes) (n : ℕ) → pdu_length f ≡ some n → pdu_length (f ++ bs) ≡ some n
unfolding pdu_length
pdu_length-append [] bs n p = cc
pdu_length-append (a ∷ []) bs n p = cc
pdu_length-append (a ∷ b ∷ []) bs n p = cc
pdu_length-append (a ∷ b ∷ c ∷ []) bs n p = cc
pdu_length-append (a ∷ b ∷ c ∷ d ∷ []) bs n p = cc
pdu_length-append (a ∷ b ∷ c ∷ d ∷ e ∷ []) bs n p = cc
pdu_length-append (a ∷ b ∷ c ∷ d ∷ e ∷ f ∷ []) bs n p = cc
pdu_length-append (a ∷ b ∷ c ∷ d ∷ e ∷ f ∷ g ∷ []) bs n p = cc
pdu_length-append (a ∷ b ∷ c ∷ d ∷ e ∷ f ∷ g ∷ h ∷ rest) bs n p = p

-- A payload that begins with a frame is split behind it.
split_pdu-append :
    {D : Type 0} (f bs : Bytes) → IsFrame f → split_pdu {D = D} (f ++ bs) ≡ ok (f, bs)
unfolding split_pdu
split_pdu-append f bs h = grind (
  arith,
  pdu_length-append f bs (length f) h.declared,
  take-append f bs,
  drop-append f bs,
  length-append f bs,
)

abbrev pub joined : List Bytes → Bytes
joined [] = []
joined (f ∷ fs) = f ++ joined fs

abbrev pub AreFrames : List Bytes → Type 0
AreFrames [] = Unit {0}
AreFrames (f ∷ fs) = IsFrame f × AreFrames fs

module _ (k : Codecs) where
  -- The frames handled one after the other, up to the first error.
  abbrev pub handle_frames : List Bytes → Client k → Outcome k
  handle_frames [] c = (ok tt, c)
  handle_frames (f ∷ fs) c = (handle_bytes k f >>= λ u. handle_frames fs) c

  after_frames :
      (o : Outcome k) (fs : List Bytes) (f : Client k → Option (Outcome k))
      → ((c : Client k) → f c ≡ some (handle_frames fs c))
      → after k o f ≡ some (elim o.0 [ ok u ↦ handle_frames fs o.1 | err e ↦ (err e, o.1) ])
  after_frames (ok u, c) fs f h = h c
  after_frames (err e, c) fs f h = refl

  loop_step :
      (n : ℕ) (data' : Bytes) (c : Client k)
      → 0 < length data'
      → pdus_loop k (suc n) data' c ≡ with_first k (split_pdu data') c (pdus_loop k n)
  unfolding pdus_loop
  loop_step n [] c h = absurd (omega arith)
  loop_step n (b ∷ bs) c h = refl

  loop_frames :
      (n : ℕ) (fs : List Bytes) (c : Client k)
      → length (joined fs) ≤ n
      → AreFrames fs
      → pdus_loop k n (joined fs) c ≡ some (handle_frames fs c)
  unfolding pdus_loop
  loop_frames n [] c h v = refl
  loop_frames zero (f ∷ fs) c h v =
      let (is_frame, rest) = v in
      absurd (omega (arith, length-append f (joined fs), is_frame.has_header))
  loop_frames (suc n) (f ∷ fs) c h v =
      let (is_frame, are_frames) = v in
      let long = length-append f (joined fs) in
      loop_step n (f ++ joined fs) c (omega (arith, long, is_frame.has_header))
      ∙ ap (λ r. with_first k r c (pdus_loop k n)) (split_pdu-append f (joined fs) is_frame)
      ∙ after_frames (handle_bytes k f c) fs (pdus_loop k n (joined fs))
          (λ c'. loop_frames n fs c' (omega (arith, long, is_frame.has_header)) are_frames)

  -- On a payload of frames laid back to back, each with a header that declares the length of the
  -- frame, the loop ends, and it handles the frames one after the other, each from exactly its own
  -- bytes, up to the first error.
  pub process_pdus-joined :
      (fs : List Bytes) (c : Client k)
      → AreFrames fs
      → process_pdus k (joined fs) c ≡ some (handle_frames fs c)
  unfolding process_pdus
  process_pdus-joined fs c v = loop_frames (length (joined fs)) fs c (omega arith) v

  after_ends :
      (o : Outcome k) (f : Client k → Option (Outcome k))
      → ((c : Client k) → (o' : Outcome k) × (f c ≡ some o'))
      → (o' : Outcome k) × (after k o f ≡ some o')
  after_ends (ok u, c) f h = h c
  after_ends (err e, c) f h = ((err e, c), refl)

  with_first_ends :
      (r : Result (GfxError k.Detail) (Bytes × Bytes)) (c : Client k)
      (f : Bytes → Client k → Option (Outcome k))
      → ((first rest : Bytes) (c' : Client k)
          → r ≡ ok (first, rest)
          → (o : Outcome k) × (f rest c' ≡ some o))
      → (o : Outcome k) × (with_first k r c f ≡ some o)
  with_first_ends (err e) c f h = ((err e, c), refl)
  with_first_ends (ok (first, rest)) c f h =
      after_ends (handle_bytes k first c) (f rest) (λ c'. h first rest c' refl)

  loop_ends :
      (n : ℕ) (data' : Bytes) (c : Client k)
      → length data' ≤ n
      → (o : Outcome k) × (pdus_loop k n data' c ≡ some o)
  unfolding pdus_loop
  loop_ends n [] c h = ((ok tt, c), refl)
  loop_ends zero (b ∷ bs) c h = absurd (omega arith)
  loop_ends (suc n) (b ∷ bs) c h =
      with_first_ends (split_pdu (b ∷ bs)) c (pdus_loop k n) (λ first rest c' e.
        let (parts, header, shorter) = split_pdu_parts (b ∷ bs) first rest e in
        loop_ends n rest c' (omega arith))

  -- The loop over a payload ends on any bytes, well formed or not, with a result.
  pub process_pdus_ends :
      (data' : Bytes) (c : Client k) → (o : Outcome k) × (process_pdus k data' c ≡ some o)
  unfolding process_pdus
  process_pdus_ends data' c = loop_ends (length data') data' c (omega arith)
