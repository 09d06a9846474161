-- ===== src/Codec/Progressive/Rounds.antt =====
-- crates/drift-codec/src/progressive.rs: the rounds of `decode_region_tiles`. The tiles of a REGION are
-- decoded in parallel, those of one round at a time.
pub mod Order
use drift.Base.{
  ℕ, zero, suc, ◌+◌, Bool, ◌&&◌, List, [], ◌∷◌, ◌++◌, leb, ◌==◌, if◌then◌else◌, length,
}

-- `(x_idx, y_idx)`.
pub record TileKey : Type 0 where
  pub x : ℕ
  pub y : ℕ

abbrev pub same_key : TileKey → TileKey → Bool
same_key a b = a.x == b.x && a.y == b.y

module _ {Tile : Type 0} (key : Tile → TileKey) where
  -- `rounds` and `seen`.
  pub record Grouping : Type 0 where
    pub rounds : List (List Tile)
    pub seen : TileKey → ℕ

  -- `if rounds.len() <= *n { rounds.push(Vec::new()) }`.
  unfoldable pub grown : ℕ → List (List Tile) → List (List Tile)
  grown n rounds = if leb (length rounds) n then rounds ++ ([] ∷ []) else rounds

  -- `if let Some(round) = rounds.get_mut(*n) { round.push(tile) }`.
  unfoldable pub push_at : ℕ → Tile → List (List Tile) → List (List Tile)
  push_at n t [] = []
  push_at zero t (r ∷ rs) = (r ++ (t ∷ [])) ∷ rs
  push_at (suc n) t (r ∷ rs) = r ∷ push_at n t rs

  -- One round of the loop.
  unfoldable pub place : Grouping → Tile → Grouping
  place g t =
      let n = g.seen (key t) in
      record {
        rounds = push_at n t (grown n g.rounds);
        seen = λ k. if same_key k (key t) then n + 1 else g.seen k;
      }

  unfoldable pub group : Grouping → List Tile → Grouping
  group g [] = g
  group g (t ∷ ts) = group (place g t) ts

  unfoldable pub rounds_of : List Tile → List (List Tile)
  rounds_of ts = (group (record { rounds = []; seen = λ k. 0 }) ts).rounds
