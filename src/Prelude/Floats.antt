-- ===== src/Prelude/Floats.antt =====
-- What the code uses of `f32` and `f64`. The laws of floating-point arithmetic are not modelled.
use Prim.Native.String.{String}
use Prim.Native.Nat.{ℕ}
use mathlib.Core.Bool.{Bool}

pub record FloatOps (F : Type 0) : Type 0 where
  pub max_value : F
  pub min_value : F
  pub of_nat : ℕ → F
  pub add : F → F → F
  pub sub : F → F → F
  pub mul : F → F → F
  pub div : F → F → F
  pub sqrt : F → F
  pub abs : F → F
  pub max_of : F → F → F
  pub round_to_nat : F → ℕ
  pub less : F → F → Bool
  pub less_or_equal : F → F → Bool
  pub print : F → String
