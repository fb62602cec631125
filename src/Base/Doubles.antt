-- ===== src/Base/Doubles.antt =====
-- The arithmetic on `double` that the program uses, an argument of what computes with it.
use Prim.Native.Nat.{ℕ, ◌+◌, ◌*◌, ◌/◌}
use mathlib.Core.Bool.{Bool}
use lepd.Base.Tests.{ltb, ◌==◌}

-- `a > b` and `a / b` of the source are `above a b` and `over a b`.
pub record Doubles : Type 1 where
  pub Double : Type 0
  pub of_uint64 : ℕ → Double
  pub plus : Double → Double → Double
  pub over : Double → Double → Double
  pub times : Double → Double → Double
  pub above : Double → Double → Bool
  pub is_zero : Double → Bool

-- Whole numbers in the place of doubles, for examples.
abbrev pub whole : Doubles
whole = record {
  Double = ℕ;
  of_uint64 = λ n. n;
  plus = ◌+◌;
  over = ◌/◌;
  times = ◌*◌;
  above = λ a b. ltb b a;
  is_zero = λ a. a == 0;
}
