-- ===== src/Core/Floats.antt =====
-- The arithmetic of f64 that crates/drift-core/src takes from the language, and ViewGeometry of
-- crates/drift-core/src/geometry.rs, whose fields are f64.
pub mod Samples
use drift.Base.{ℕ, Bool, ◌&&◌}
use drift.Core.Geometry.{Size}

-- Nothing is assumed of these operations.
pub record Floats : Type 1 where
  pub F64 : Type 0
  pub of_nat : ℕ → F64
  pub times : F64 → F64 → F64
  pub divided_by : F64 → F64 → F64
  pub sqrt : F64 → F64
  pub floor : F64 → F64
  pub round : F64 → F64
  pub is_nan : F64 → Bool
  pub at_least : F64 → F64 → Bool
  pub equal : F64 → F64 → Bool
  -- The literal 1.5.
  pub three_halves : F64
  -- The cast `as u32` of a whole number in range.
  pub to_nat : F64 → ℕ

module _ (f : Floats) where
  pub record ViewGeometry : Type 0 where
    pub points : Size f.F64
    pub backing_scale : f.F64

  -- `==`, derived.
  abbrev pub same_geometry : ViewGeometry → ViewGeometry → Bool
  same_geometry a b =
      f.equal a.points.width b.points.width
      && f.equal a.points.height b.points.height
      && f.equal a.backing_scale b.backing_scale
