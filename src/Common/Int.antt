-- ===== src/Common/Int.antt =====
-- Signed integers over the native numbers, for Go's `int` differences.
use Prim.Native.Nat.{ℕ, suc, ◌+◌, ◌-◌}
use mathlib.Core.Bool.{Bool}
use github_update_go_watcher.Common.Tests.{ltb, leb, if◌then◌else◌}

-- `negsuc n` is -(n + 1).
pub data ℤ : Type 0 where
  pos : ℕ → ℤ
  negsuc : ℕ → ℤ

abbrev pub pos_part : ℤ → ℕ
pos_part (pos n) = n
pos_part (negsuc n) = 0

abbrev pub neg_part : ℤ → ℕ
neg_part (pos n) = 0
neg_part (negsuc n) = suc n

-- a - b, as an integer.
abbrev pub sub_ℕ : ℕ → ℕ → ℤ
sub_ℕ a b = if leb b a then pos (a - b) else negsuc (b - a - 1)

-- `a < 0`
abbrev pub is_neg : ℤ → Bool
is_neg a = ltb (pos_part a) (neg_part a)

-- `a != 0`
abbrev pub is_nonzero : ℤ → Bool
is_nonzero a = ltb 0 (pos_part a + neg_part a)
