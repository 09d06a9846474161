-- ===== src/Core/Floats/Samples.antt =====
-- A concrete arithmetic for the examples: the non-negative halves, as their doubles.
use drift.Base.{ℕ, zero, suc, ◌+◌, ◌*◌, ◌/◌, false, leb, ◌==◌, if◌then◌else◌}
use drift.Core.Floats.{Floats, ViewGeometry}

-- The largest number up to the first whose square is at most the second.
abbrev root : ℕ → ℕ → ℕ
root zero n = 0
root (suc k) n = let rest = root k n in if leb (suc k * suc k) n then suc k else rest

abbrev pub halves : Floats
halves = record {
  F64 = ℕ;
  of_nat = λ n. 2 * n;
  times = λ a b. a * b / 2;
  divided_by = λ a b. 2 * a / b;
  sqrt = λ a. root a (2 * a);
  floor = λ a. 2 * (a / 2);
  round = λ a. 2 * ((a + 1) / 2);
  is_nan = λ a. false;
  at_least = λ a b. leb b a;
  equal = λ a b. a == b;
  three_halves = 3;
  to_nat = λ a. a / 2;
}

-- A view of 1280 by 800 points at a backing scale of 2.
abbrev pub laptop_view : ViewGeometry halves
laptop_view = record { points = record { width = 2560; height = 1600 }; backing_scale = 4 }
