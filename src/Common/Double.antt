-- ===== src/Common/Double.antt =====
-- C++'s `double`, as far as the source uses it: an abstract type with its operations, of which no
-- law is assumed. A literal is the conversion of a number.
use boost_openmethod_benchma.Common.Tests.{ltb}
use Prim.Native.Nat.{ℕ, ◌+◌, ◌-◌, ◌*◌, ◌/◌}
use mathlib.Core.Bool.{Bool}

pub record Double (F : Type 0) : Type 0 where
  pub of_ℕ : ℕ → F
  pub add : F → F → F
  pub sub : F → F → F
  pub mul : F → F → F
  pub div : F → F → F
  pub sqrt : F → F
  pub gt : F → F → Bool

-- Whole numbers, to run the code on in tests and examples.
instance abbrev pub whole_double : Double ℕ
whole_double = record {
  of_ℕ = λ n. n;
  add = ◌+◌;
  sub = ◌-◌;
  mul = ◌*◌;
  div = ◌/◌;
  sqrt = λ n. n;
  gt = λ a b. ltb b a;
}
