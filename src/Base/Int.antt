-- ===== src/Base/Int.antt =====
-- Signed integers over the native numbers.
use Prim.Native.Nat.{ℕ, suc, ◌+◌, ◌≤◌, min}
use mathlib.Core.Bool.{Bool, false}
use forever_claude_template.Base.Tests.{leb}

-- `negsuc n` is -(n + 1).
pub data ℤ : Type 0 where
  pos : ℕ → ℤ
  negsuc : ℕ → ℤ

abbrev pub pos_part : ℤ → ℕ
pos_part (pos n) = n
pos_part (negsuc n) = 0

abbrev pub neg_part : ℤ → ℕ
neg_part (pos n) = 0
neg_part (negsuc n) = suc n

infix 50 ◌≤ℤ◌
abbrev pub ◌≤ℤ◌ : ℤ → ℤ → Type 0
a ≤ℤ b = pos_part a + neg_part b ≤ pos_part b + neg_part a

-- `n <= z` for a number that is not negative.
abbrev pub leb_pos : ℕ → ℤ → Bool
leb_pos n (pos m) = leb n m
leb_pos n (negsuc m) = false

-- `max(0, min(bound, z))`
abbrev pub clamp : ℕ → ℤ → ℕ
clamp bound z = min bound (pos_part z)
