-- ===== src/Common/Float.antt =====
-- Go's float64 and the functions of package math that the program calls. The arithmetic is not
-- the program's own, so it is a parameter: its values, its tests and its operations.
use Prim.Native.Nat.{ℕ, ◌+◌, ◌-◌, ◌*◌, ◌/◌}
use mathlib.Core.Bool.{Bool, false}
use package.cliproxy_portal.Common.Int.{ℤ, pos_part}
use package.cliproxy_portal.Common.Tests.{ltb, leb, ◌==◌, if◌then◌else◌}

pub record Float64 : Type 1 where
  pub Value : Type 0
  pub lt : Value → Value → Bool
  pub le : Value → Value → Bool
  pub eq : Value → Value → Bool
  pub is_nan : Value → Bool
  pub is_inf : Value → Bool
  pub sub : Value → Value → Value
  pub mul : Value → Value → Value
  pub div : Value → Value → Value
  pub max : Value → Value → Value
  pub round : Value → Value
  -- `float64(n)` of an integer, and a decimal literal n / d.
  pub of_int : ℤ → Value
  pub ratio : ℕ → ℕ → Value

-- Hundredths that are not negative: a concrete instance for the tests.
abbrev pub hundredths : Float64
hundredths = record {
  Value = ℕ;
  lt = ltb;
  le = leb;
  eq = ◌==◌;
  is_nan = λ x. false;
  is_inf = λ x. false;
  sub = λ a b. a - b;
  mul = λ a b. a * b / 100;
  div = λ a b. a * 100 / b;
  max = λ a b. if leb a b then b else a;
  round = λ a. (a + 50) / 100 * 100;
  of_int = λ n. pos_part n * 100;
  ratio = λ n d. n * 100 / d;
}
