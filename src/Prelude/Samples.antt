-- ===== src/Prelude/Samples.antt =====
-- Test data that the parts share.
use Prim.Native.Nat.{ℕ, ◌+◌, ◌-◌, ◌*◌, ◌/◌, max}
use comp2432_project.Prelude.Tests.{ltb, leb}
use comp2432_project.Prelude.Floats.{FloatOps}

-- Whole numbers in place of floats.
abbrev pub whole : FloatOps ℕ
whole = record {
  max_value = 1_000;
  min_value = 0;
  of_nat = λ n. n;
  add = λ a b. a + b;
  sub = λ a b. a - b;
  mul = λ a b. a * b;
  div = λ a b. a / b;
  sqrt = λ a. a;
  abs = λ a. a;
  max_of = max;
  round_to_nat = λ a. a;
  less = ltb;
  less_or_equal = leb;
  print = λ a. "number";
}
