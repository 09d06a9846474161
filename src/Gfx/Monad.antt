-- ===== src/Gfx/Monad.antt =====
-- Methods that change a state and may fail: an early return keeps the state reached so far.
use drift.Base.{Result, ok, err}
use drift.Gfx.State.{GfxError}

abbrev pub M : Type 0 → Type 0 → Type 0 → Type 0
M S D A = S → Result (GfxError D) A × S

infixl 5 ◌>>=◌ ◌>>◌
abbrev pub ◌>>=◌ : {S D A B : Type 0} → M S D A → (A → M S D B) → M S D B
◌>>=◌ m f s = let (r, s') = m s in elim r [ ok a ↦ f a s' | err e ↦ (err e, s') ]

abbrev pub ◌>>◌ : {S D B : Type 0} → M S D (Unit {0}) → M S D B → M S D B
m >> f = m >>= λ _. f

abbrev pub return : {S D A : Type 0} → A → M S D A
return a s = (ok a, s)

-- A check that reads nothing but its arguments.
abbrev pub check : {S D A : Type 0} → Result (GfxError D) A → M S D A
check r s = (r, s)

abbrev pub modify : {S D : Type 0} → (S → S) → M S D (Unit {0})
modify f s = (ok tt, f s)

-- What a decoder reports, as an error of the client.
abbrev pub map_err : {D A : Type 0} → (D → GfxError D) → Result D A → Result (GfxError D) A
map_err f (ok a) = ok a
map_err f (err d) = err (f d)
