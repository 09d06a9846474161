-- ===== src/Codec/Progressive/Rounds/Order.antt =====
-- Each round has the next occurrence of every tile.
use drift.Base.{
  ℕ, zero, suc, ◌≤◌, ◌<◌, ◌≡◌, refl, sym, ap, subst, ◌∙◌, true, List, [], ◌∷◌, ◌++◌, append_assoc,
  append-nil, leb, ◌==◌, if◌then◌else◌, length, length-append, arith, Bool-cases, inl, inr,
}
use drift.Codec.Progressive.Rounds.{
  TileKey, same_key, Grouping, grown, push_at, place, group, rounds_of,
}

-- Round `j`, and no tile behind the last one.
abbrev pub round_at {ℓ} : {A : Type ℓ} → ℕ → List (List A) → List A
round_at j [] = []
round_at zero (r ∷ rs) = r
round_at (suc j) (r ∷ rs) = round_at j rs

-- The element at an index, if there is one.
abbrev pub at_index {ℓ} : {A : Type ℓ} → ℕ → List A → List A
at_index j [] = []
at_index zero (x ∷ xs) = x ∷ []
at_index (suc j) (x ∷ xs) = at_index j xs

at_index-append :
    {A : Type 0} (j : ℕ) (xs : List A) (x : A)
    → at_index j (xs ++ x ∷ []) ≡ (if j == length xs then x ∷ [] else at_index j xs)
at_index-append zero [] x = refl
at_index-append (suc j) [] x = ground arith
at_index-append zero (y ∷ xs) x = ground arith
at_index-append (suc j) (y ∷ xs) x = ground (arith, at_index-append j xs x)

at_index-length : {A : Type 0} (xs : List A) → at_index (length xs) xs ≡ []
at_index-length [] = refl
at_index-length (x ∷ xs) = at_index-length xs

same_key-eq : (a b : TileKey) → same_key a b ≡ true → a ≡ b
same_key-eq a b h = ground arith

module _ {Tile : Type 0} (key : Tile → TileKey) where
  -- The tiles with a key, in their order.
  abbrev pub of_key : TileKey → List Tile → List Tile
  of_key k [] = []
  of_key k (t ∷ ts) = if same_key k (key t) then t ∷ of_key k ts else of_key k ts

  of_key-append :
      (k : TileKey) (xs ys : List Tile) → of_key k (xs ++ ys) ≡ of_key k xs ++ of_key k ys
  of_key-append k [] ys = refl
  of_key-append k (x ∷ xs) ys = ground (arith, of_key-append k xs ys)

  round_at-grown : (n j : ℕ) (rs : List (List Tile)) → round_at j (grown key n rs) ≡ round_at j rs
  unfolding grown
  round_at-grown n j rs = elim (Bool-cases (leb (length rs) n)) [
    | inl e ↦ rw e (no_tiles j rs)
    | inr e ↦ rw e
  ]
    where
      no_tiles : (j : ℕ) (rs : List (List Tile)) → round_at j (rs ++ ([] ∷ [])) ≡ round_at j rs
      no_tiles zero [] = refl
      no_tiles (suc j) [] = refl
      no_tiles zero (r ∷ rs) = refl
      no_tiles (suc j) (r ∷ rs) = no_tiles j rs

  lt-length-grown : (n : ℕ) (rs : List (List Tile)) → n ≤ length rs → n < length (grown key n rs)
  unfolding grown
  lt-length-grown n rs h = ground (arith, length-append {0} rs ([] ∷ []))

  length-grown : (n : ℕ) (rs : List (List Tile)) → length rs ≤ length (grown key n rs)
  unfolding grown
  length-grown n rs = ground (arith, length-append {0} rs ([] ∷ []))

  round_at-push_at :
      (n j : ℕ) (t : Tile) (rs : List (List Tile))
      → n < length rs
      → round_at j (push_at key n t rs)
        ≡ (if j == n then round_at j rs ++ (t ∷ []) else round_at j rs)
  unfolding push_at
  round_at-push_at n j t [] h = absurd (omega arith)
  round_at-push_at zero zero t (r ∷ rs) h = refl
  round_at-push_at zero (suc j) t (r ∷ rs) h = ground arith
  round_at-push_at (suc n) zero t (r ∷ rs) h = ground arith
  round_at-push_at (suc n) (suc j) t (r ∷ rs) h = ground (arith, round_at-push_at n j t rs)

  length-push_at :
      (n : ℕ) (t : Tile) (rs : List (List Tile)) → length (push_at key n t rs) ≡ length rs
  unfolding push_at
  length-push_at n t [] = refl
  length-push_at zero t (r ∷ rs) = refl
  length-push_at (suc n) t (r ∷ rs) = ap suc (length-push_at n t rs)

  -- What the loop has after some tiles.
  record Grouped (g : Grouping key) (ts : List Tile) : Type 0 where
    counted : (k : TileKey) → g.seen k ≡ length (of_key k ts)
    room : (k : TileKey) → g.seen k ≤ length g.rounds
    placed : (k : TileKey) (j : ℕ) → of_key k (round_at j g.rounds) ≡ at_index j (of_key k ts)

  seen_again :
      (g : Grouping key) (ts : List Tile) (t : Tile) (k : TileKey)
      → Grouped g ts
      → (of_key k (t ∷ []) ≡ (if same_key k (key t) then t ∷ [] else []))
        × (same_key k (key t) ≡ true → g.seen (key t) ≡ length (of_key k ts))
  seen_again g ts t k h = (refl, λ e. ap g.seen (sym (same_key-eq k (key t) e)) ∙ h.counted k)

  counted_next :
      (g : Grouping key) (ts : List Tile) (t : Tile) (k : TileKey)
      → Grouped g ts
      → (place key g t).seen k ≡ length (of_key k (ts ++ t ∷ []))
  unfolding place
  counted_next g ts t k h =
      rw (of_key-append k ts (t ∷ [])) (elim (Bool-cases (same_key k (key t))) [
        | inl e ↦
            rw e
              (omega (arith, (seen_again g ts t k h).1 e, length-append {0} (of_key k ts) (t ∷ [])))
        | inr e ↦ rw (e, append-nil (of_key k ts)) (h.counted k)
      ])

  room_next :
      (g : Grouping key) (ts : List Tile) (t : Tile) (k : TileKey)
      → Grouped g ts
      → (place key g t).seen k ≤ length (place key g t).rounds
  unfolding place
  room_next g ts t k h =
      let n = g.seen (key t) in
      ground (
        arith,
        h.room k,
        h.room (key t),
        length-push_at n t (grown key n g.rounds),
        lt-length-grown n g.rounds,
        length-grown n g.rounds,
      )

  placed_next :
      (g : Grouping key) (ts : List Tile) (t : Tile) (k : TileKey) (j : ℕ)
      → Grouped g ts
      → of_key k (round_at j (place key g t).rounds) ≡ at_index j (of_key k (ts ++ t ∷ []))
  unfolding place
  placed_next g ts t k j h =
      let n = g.seen (key t) in
      rw
        (
          round_at-push_at n j t (grown key n g.rounds)
              (lt-length-grown n g.rounds (h.room (key t))),
          round_at-grown n j g.rounds,
          of_key-append k ts (t ∷ []),
        )
        (elim (Bool-cases (same_key k (key t))) [
          | inl e ↦ mine e
          | inr e ↦ elim (Bool-cases (j == n)) [
            | inl at ↦
                rw
                  (
                    at,
                    of_key-append k (round_at j g.rounds) (t ∷ []),
                    e,
                    append-nil (of_key k ts),
                    append-nil (of_key k (round_at j g.rounds)),
                  )
                  (h.placed k j)
            | inr at ↦ rw (at, e, append-nil (of_key k ts)) (h.placed k j)
          ]
        ])
    where
      n : ℕ
      n = g.seen (key t)

      last : same_key k (key t) ≡ true → of_key k (t ∷ []) ≡ t ∷ []
      last e = rw e

      mine :
          same_key k (key t) ≡ true
          → of_key k (if j == n then round_at j g.rounds ++ (t ∷ []) else round_at j g.rounds)
            ≡ at_index j (of_key k ts ++ of_key k (t ∷ []))
      mine e =
          let size = (seen_again g ts t k h).1 e in
          rw (last e, at_index-append j (of_key k ts) t)
            (elim (Bool-cases (j == n)) [
              | inl at ↦
                  let here : j ≡ length (of_key k ts) = ground (arith, at, size) in
                  let free : at_index j (of_key k ts) ≡ [] =
                    ap (λ i. at_index i (of_key k ts)) here ∙ at_index-length (of_key k ts) in
                  let full = of_key-append k (round_at j g.rounds) (t ∷ []) in
                  let held = h.placed k j in
                  rw (at, full, last e, held, free) (ground (arith, here))
              | inr at ↦ ground (arith, at, size, h.placed k j)
            ])

  place-Grouped :
      (g : Grouping key) (ts : List Tile) (t : Tile)
      → Grouped g ts
      → Grouped (place key g t) (ts ++ t ∷ [])
  place-Grouped g ts t h = record {
    counted = λ k. counted_next g ts t k h;
    room = λ k. room_next g ts t k h;
    placed = λ k j. placed_next g ts t k j h;
  }

  group-Grouped :
      (g : Grouping key) (done ts : List Tile)
      → Grouped g done
      → Grouped (group key g ts) (done ++ ts)
  unfolding group
  group-Grouped g done [] h = subst (Grouped g) (sym (append-nil done)) h
  group-Grouped g done (t ∷ ts) h =
      subst (Grouped _) (append_assoc done (t ∷ []) ts)
        (group-Grouped (place key g t) (done ++ t ∷ []) ts (place-Grouped g done t h))

  -- The tiles with some key in round `j` are just the `j`-th tile with that key, if there is one: so no
  -- round has two tiles with one key, and no tile is lost or overtakes an earlier one with its key.
  pub round_at-rounds_of :
      (ts : List Tile) (k : TileKey) (j : ℕ)
      → of_key k (round_at j (rounds_of key ts)) ≡ at_index j (of_key k ts)
  unfolding rounds_of
  round_at-rounds_of ts k j =
      (group-Grouped _ [] ts
          (record { counted = λ k. refl; room = λ k. omega arith; placed = λ k j. refl })).placed
        k j
