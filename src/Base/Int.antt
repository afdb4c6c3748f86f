-- ===== src/Base/Int.antt =====
-- Python's `int` where it may be negative.
use Prim.Native.Nat.{ℕ, min}

-- `negsuc n` is -(n + 1).
pub data ℤ : Type 0 where
  pos : ℕ → ℤ
  negsuc : ℕ → ℤ

-- `max(0, z)`
abbrev pub pos_part : ℤ → ℕ
pos_part (pos n) = n
pos_part (negsuc n) = 0

-- `min(a, b)`, for `b` at least 0
abbrev pub min_ℤ : ℤ → ℕ → ℤ
min_ℤ (pos a) b = pos (min a b)
min_ℤ (negsuc a) b = negsuc a
