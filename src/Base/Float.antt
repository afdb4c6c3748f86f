-- ===== src/Base/Float.antt =====
-- Python's `float`, which is not modelled: a type with the operations that the program uses. What
-- a theorem needs of them is a hypothesis of that theorem, such as that `<=` is a total order.
use Prim.Native.Nat.{ℕ, ◌+◌, ◌-◌, ◌*◌, ◌/◌}
use mathlib.Core.Bool.{Bool}
use native.Mathlib.Omega.{arith}
use nexus_ai.Base.Tests.{leb, nat_beq, if◌then◌else◌}
use nexus_ai.Base.Sorting.{IsOrder}

pub record FloatOps (F : Type 0) : Type 0 where
  pub zero_float : F
  pub of_nat : ℕ → F
  pub add : F → F → F
  pub sub : F → F → F
  pub mul : F → F → F
  pub div : F → F → F
  pub sqrt : F → F
  pub leq : F → F → Bool
  pub is_zero : F → Bool

-- A concrete instance for tests and examples: whole numbers.
abbrev nat_sqrt_below : ℕ → ℕ → ℕ
nat_sqrt_below ℕ.zero n = 0
nat_sqrt_below (ℕ.suc k) n =
    let rest = nat_sqrt_below k n in if leb ((k + 1) * (k + 1)) n then k + 1 else rest

abbrev pub whole : FloatOps ℕ
whole = record {
  zero_float = 0;
  of_nat = λ n. n;
  add = λ a b. a + b;
  sub = λ a b. a - b;
  mul = λ a b. a * b;
  div = λ a b. a / b;
  sqrt = λ n. nat_sqrt_below n n;
  leq = leb;
  is_zero = λ n. nat_beq n 0;
}

pub whole-IsOrder : IsOrder whole.leq
whole-IsOrder = record { total = λ a b h. ground arith; trans = λ a b c h k. ground arith }
