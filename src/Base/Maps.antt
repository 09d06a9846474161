-- ===== src/Base/Maps.antt =====
-- `std::collections::BTreeMap`: a list of entries in the order of their keys. A key type is ordered
-- by a rank, as the derived `Ord` of the source's key types is.
use Prim.Native.Nat.{ℕ, suc, ◌≤◌, ◌<◌}
use mathlib.Core.Path.{◌≡◌, refl}
use mathlib.Core.Bool.{Bool, true}
use mathlib.Core.List.{List, [], ◌∷◌}
use mathlib.Core.Option.{Option, none, some}
use native.Mathlib.Omega.{arith}
use drift.Base.{ltb, ◌==◌, ==_iff, if◌then◌else◌, is_some}

pub record Key (K : Type 0) : Type 0 where
  pub rank : K → ℕ
  pub injective : (a b : K) → rank a ≡ rank b → a ≡ b

abbrev pub BTreeMap : Type 0 → Type 0 → Type 0
BTreeMap K V = List (K × V)

-- `u16` keys.
instance abbrev pub nat_key : Key ℕ
nat_key = record { rank = λ n. n; injective = λ a b e. e }

module _ {K : Type 0} ⦃key : Key K⦄ where
  -- Equality of keys.
  abbrev pub same : K → K → Bool
  same a b = key.rank a == key.rank b

  pub same-eq : (a b : K) → same a b ≡ true → a ≡ b
  same-eq a b h = key.injective a b ((==_iff (key.rank a) (key.rank b)).0 h)

module _ {K V : Type 0} ⦃key : Key K⦄ where
  unfoldable pub get : K → BTreeMap K V → Option V
  get k [] = none
  get k ((j, v) ∷ m) = if same k j then some v else get k m

  unfoldable pub insert : K → V → BTreeMap K V → BTreeMap K V
  insert k v [] = (k, v) ∷ []
  insert k v ((j, w) ∷ m) =
      if ltb (key.rank k) (key.rank j)
      then (k, v) ∷ (j, w) ∷ m
      else if same k j
      then (k, v) ∷ m
      else (j, w) ∷ insert k v m

  unfoldable pub remove : K → BTreeMap K V → BTreeMap K V
  remove k [] = []
  remove k ((j, w) ∷ m) = if same k j then remove k m else (j, w) ∷ remove k m

  unfoldable pub keys : BTreeMap K V → List K
  keys [] = []
  keys ((j, w) ∷ m) = j ∷ keys m

  unfoldable pub contains_key : K → BTreeMap K V → Bool
  contains_key k m = is_some (get k m)

  pub get-insert :
      (j k : K) (v : V) (m : BTreeMap K V)
      → get j (insert k v m) ≡ (if same j k then some v else get j m)
  unfolding get insert
  get-insert j k v [] = refl
  get-insert j k v ((i, w) ∷ m) = ground (arith, get-insert j k v m)

  pub get-remove :
      (j k : K) (m : BTreeMap K V) → get j (remove k m) ≡ (if same j k then none else get j m)
  unfolding get remove
  get-remove j k [] = ground arith
  get-remove j k ((i, w) ∷ m) = ground (arith, get-remove j k m)

  -- The ranks rise strictly from `n` on.
  abbrev pub IsSorted : ℕ → BTreeMap K V → Type 0
  IsSorted n [] = Unit {0}
  IsSorted n ((k, v) ∷ m) = (n ≤ key.rank k) × IsSorted (suc (key.rank k)) m

  IsSorted-mono : {n n' : ℕ} (m : BTreeMap K V) → n ≤ n' → IsSorted n' m → IsSorted n m
  IsSorted-mono [] h s = tt
  IsSorted-mono ((k, v) ∷ m) h s = (omega arith, s.1)

  pub insert-IsSorted :
      (n : ℕ) (k : K) (v : V) (m : BTreeMap K V)
      → n ≤ key.rank k
      → IsSorted n m
      → IsSorted n (insert k v m)
  unfolding insert
  insert-IsSorted n k v [] h s = (h, tt)
  insert-IsSorted n k v ((j, w) ∷ m) h s = ground (arith, insert-IsSorted (suc (key.rank j)) k v m)

  pub remove-IsSorted : (n : ℕ) (k : K) (m : BTreeMap K V) → IsSorted n m → IsSorted n (remove k m)
  unfolding remove
  remove-IsSorted n k [] s = tt
  remove-IsSorted n k ((j, w) ∷ m) s = ground (
    arith,
    remove-IsSorted (suc (key.rank j)) k m s.1,
    IsSorted-mono {n = n} {n' = suc (key.rank j)} (remove k m),
  )

  pub get_below :
      (n : ℕ) (k : K) (m : BTreeMap K V) → key.rank k < n → IsSorted n m → get k m ≡ none
  unfolding get
  get_below n k [] h s = refl
  get_below n k ((j, w) ∷ m) h s = ground (arith, get_below (suc (key.rank j)) k m)

  -- Every value satisfies `P`.
  abbrev pub Values : (V → Type 0) → BTreeMap K V → Type 0
  Values P [] = Unit {0}
  Values P ((k, v) ∷ m) = P v × Values P m

  pub insert-Values :
      (P : V → Type 0) (k : K) (v : V) (m : BTreeMap K V)
      → P v
      → Values P m
      → Values P (insert k v m)
  unfolding insert
  insert-Values P k v [] h s = (h, tt)
  insert-Values P k v ((j, w) ∷ m) h s = ground (arith, insert-Values P k v m)

  pub remove-Values :
      (P : V → Type 0) (k : K) (m : BTreeMap K V) → Values P m → Values P (remove k m)
  unfolding remove
  remove-Values P k [] s = tt
  remove-Values P k ((j, w) ∷ m) s = ground (arith, remove-Values P k m)

  pub get-Values :
      (P : V → Type 0) (k : K) (v : V) (m : BTreeMap K V) → Values P m → get k m ≡ some v → P v
  unfolding get
  get-Values P k v [] s e = absurd (cc)
  get-Values P k v ((j, w) ∷ m) s e = ground (arith, get-Values P k v m s.1)
