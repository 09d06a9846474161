-- ===== src/Gfx/Contract.antt =====
-- What crates/drift-gfx/src/client.rs promises to a FrameSink, as a predicate on what a method does.
pub mod Drawing
pub mod Tiles
pub mod Handling
pub mod History
mod Examples
use mathlib.Core.Option.{some-injective}
use drift.Base.{
  ℕ, ◌≡◌, refl, sym, ap, ◌∙◌, Bool, true, false, not, ◌&&◌, ◌||◌, Option, none, some, List, [], ◌∷◌,
  ◌++◌, append-nil, append_assoc, Result, ok, err, Result-cases, inl, inr, arith, is_some,
  if◌then◌else◌, fun_ext, ◌==◌,
}
use drift.Base.Maps.{nat_key}
use drift.Base.Maps
use drift.Core.Geometry.{Size, Point, Rect, size, fits_within}
use drift.Gfx.Codecs.{Codecs}
use drift.Gfx.Monad.{◌>>=◌, check, return}
use drift.Gfx.State.{
  GfxState, GfxError, Surface, surface, cache_entry, ensure_within, clip, rect, What, destination,
}
use drift.Gfx.Sink.{View, SinkCall, accept, accept_all, and_then, all_fit, all_fit_at, at, on}
use drift.Gfx.Pdu.{Rect16}
use drift.Gfx.Client.{
  Client, Method, tell, clip_all, destinations, rect_of, keep, add_clipped, add_point,
}

abbrev pub size_of : Option Surface → Option (Size ℕ)
size_of none = none
size_of (some s) = some s.size

-- What the sink knows of a state.
abbrev pub view : GfxState → View
view s = record { surfaces = λ i. size_of (Maps.get i s.surfaces); slots = λ i. Maps.get i s.cache }

pub surface-get :
    {D : Type 0} (s : GfxState) (id : ℕ) (f : Surface)
    → surface {D = D} s id ≡ ok f
    → Maps.get id s.surfaces ≡ some f
unfolding surface
surface-get s id f e = ground arith

module _ {F : Type 0} where
  and_then_all :
      (o : Option View) (cs cs' : List (SinkCall F)) (w : View)
      → ((v : View) → accept_all cs v ≡ some w → accept_all (cs ++ cs') v ≡ accept_all cs' w)
      → and_then o (accept_all cs) ≡ some w
      → and_then o (accept_all (cs ++ cs')) ≡ accept_all cs' w
  and_then_all none cs cs' w ih h = absurd cc
  and_then_all (some v) cs cs' w ih h = ih v h

  accept_all-append :
      (cs cs' : List (SinkCall F)) (v w : View)
      → accept_all cs v ≡ some w
      → accept_all (cs ++ cs') v ≡ accept_all cs' w
  unfolding accept_all
  accept_all-append [] cs' v w h = ap (accept_all cs') (some-injective v w h)
  accept_all-append (c ∷ cs) cs' v w h =
      and_then_all (accept c v) cs cs' w (λ v'. accept_all-append cs cs' v' w) h

module _ (k : Codecs) where
  -- The calls made between two clients keep the contract, and leave the sink with what the second
  -- client has.
  abbrev pub Keeps : Client k → Client k → Type 0
  Keeps c c' =
      (calls : List (SinkCall k.Frame)) × (c'.sink ≡ c.sink ++ calls)
      × (accept_all calls (view c.state) ≡ some (view c'.state))

  -- A method that succeeds keeps the contract; one that fails makes no call, and leaves surfaces and
  -- cache slots as they were.
  abbrev pub Behaves : {A : Type 0} → Client k → Result (GfxError k.Detail) A × Client k → Type 0
  Behaves c (ok a, c') = Keeps c c'
  Behaves c (err e, c') = (c'.sink ≡ c.sink) × (c'.state ≡ c.state)

  pub silent : (c c' : Client k) → c'.sink ≡ c.sink → c'.state ≡ c.state → Keeps c c'
  unfolding accept_all
  silent c c' e s = ([], e ∙ sym (append-nil c.sink), ap (λ t. some (view t)) (sym s))

  pub told :
      (call : SinkCall k.Frame) (c c' : Client k)
      → c'.sink ≡ c.sink ++ call ∷ []
      → accept call (view c.state) ≡ some (view c'.state)
      → Keeps c c'
  unfolding accept_all
  told call c c' e a = (call ∷ [], e, rw a refl)

  -- A call that changes nothing that the sink knows.
  pub tell-Behaves :
      (call : SinkCall k.Frame) (c : Client k)
      → accept call (view c.state) ≡ some (view c.state)
      → Behaves c (tell k call c)
  tell-Behaves call c = told call c (tell k call c).1 refl

  pub followed_by : (c c' c'' : Client k) → Keeps c c' → Keeps c' c'' → Keeps c c''
  followed_by c c' c'' (cs, e, a) (cs', e', a') = (
    cs ++ cs',
    rw (e', e) (append_assoc c.sink cs cs'),
    accept_all-append cs cs' (view c.state) (view c'.state) a ∙ a',
  )

  pub checked :
      {A B : Type 0} (r : Result (GfxError k.Detail) A) (f : A → Method k B) (c : Client k)
      → ((a : A) → r ≡ ok a → Behaves c (f a c))
      → Behaves c ((check r >>= f) c)
  checked (ok a) f c h = h a refl
  checked (err e) f c h = (refl, refl)

  abbrev fine : {A : Type 0} → (A → Bool) → Result (GfxError k.Detail) A → Bool
  fine p (ok a) = p a
  fine p (err e) = true

  fine_ok :
      {A : Type 0} (p : A → Bool) (r : Result (GfxError k.Detail) A) (a : A)
      → fine p r ≡ true
      → r ≡ ok a
      → p a ≡ true
  fine_ok p r a f e = ap (fine p) (sym e) ∙ f

  clip_fits_all :
      (b : Size ℕ) (r : Rect) (rs : List Rect)
      → all_fit b rs ≡ true
      → all_fit b (keep k (clip r b) rs) ≡ true
  unfolding clip fits_within
  clip_fits_all b r rs h = ground arith

  fine-add_clipped :
      (b : Size ℕ) (r : Result (GfxError k.Detail) Rect)
      (rest : Result (GfxError k.Detail) (List Rect))
      → fine (all_fit b) rest ≡ true
      → fine (all_fit b) (add_clipped k b r rest) ≡ true
  fine-add_clipped b (err e) rest h = refl
  fine-add_clipped b (ok r) (err e) h = refl
  fine-add_clipped b (ok r) (ok rs) h = clip_fits_all b r rs h

  fine-clip_all : (b : Size ℕ) (rs : List Rect16) → fine (all_fit b) (clip_all k b rs) ≡ true
  unfolding clip_all
  fine-clip_all b [] = refl
  fine-clip_all b (r ∷ rs) = fine-add_clipped b (rect_of k r) (clip_all k b rs) (fine-clip_all b rs)

  pub clip_all-all_fit :
      (b : Size ℕ) (rs : List Rect16) (fits : List Rect)
      → clip_all k b rs ≡ ok fits
      → all_fit b fits ≡ true
  clip_all-all_fit b rs fits = fine_ok (all_fit b) (clip_all k b rs) fits (fine-clip_all b rs)

  fine-add_point :
      (id : ℕ) (b s : Size ℕ) (p : Point ℕ) (rest : Result (GfxError k.Detail) (List (Point ℕ)))
      → fine (all_fit_at b s) rest ≡ true
      → fine (all_fit_at b s) (add_point k p (ensure_within id b (at s p) destination) rest) ≡ true
  unfolding ensure_within
  fine-add_point id b s p (err e) h = ground arith
  fine-add_point id b s p (ok ps) h = ground arith

  fine-destinations :
      (id : ℕ) (b s : Size ℕ) (ps : List (Point ℕ))
      → fine (all_fit_at b s) (destinations k id b s ps) ≡ true
  unfolding destinations
  fine-destinations id b s [] = refl
  fine-destinations id b s (p ∷ ps) =
      fine-add_point id b s p (destinations k id b s ps) (fine-destinations id b s ps)

  pub destinations-all_fit :
      (id : ℕ) (b s : Size ℕ) (ps ps' : List (Point ℕ))
      → destinations k id b s ps ≡ ok ps'
      → all_fit_at b s ps' ≡ true
  destinations-all_fit id b s ps ps' =
      fine_ok (all_fit_at b s) (destinations k id b s ps) ps' (fine-destinations id b s ps)
