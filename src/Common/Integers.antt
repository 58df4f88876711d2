-- ===== src/Common/Integers.antt =====
-- Integers over the native numbers, with the operations that the components use.
use Prim.Native.Nat.{ℕ, zero, suc, ◌+◌, ◌-◌, ◌*◌, ◌≤◌}
use mathlib.Core.Bool.{Bool, true, false}
use polyquantlab.Common.Tests.{ltb, leb}

-- `pos n` is n, and `negsuc n` is -(n + 1).
pub data ℤ : Type 0 where
  pos negsuc : ℕ → ℤ

abbrev pub negate : ℕ → ℤ
negate zero = pos 0
negate (suc n) = negsuc n

-- `m` - `n`
abbrev pub minus_if : Bool → ℕ → ℕ → ℤ
minus_if true m n = negate (n - m)
minus_if false m n = pos (m - n)

abbrev pub subtract : ℕ → ℕ → ℤ
subtract m n = minus_if (ltb m n) m n

infixl 60 ◌+ℤ◌
abbrev pub ◌+ℤ◌ : ℤ → ℤ → ℤ
pos m +ℤ pos n = pos (m + n)
pos m +ℤ negsuc n = subtract m (suc n)
negsuc m +ℤ pos n = subtract n (suc m)
negsuc m +ℤ negsuc n = negsuc (suc (m + n))

abbrev pub neg : ℤ → ℤ
neg (pos n) = negate n
neg (negsuc n) = pos (suc n)

infixl 70 ◌*ℤ◌
abbrev pub ◌*ℤ◌ : ℤ → ℤ → ℤ
pos m *ℤ pos n = pos (m * n)
pos m *ℤ negsuc n = negate (m * suc n)
negsuc m *ℤ pos n = negate (suc m * n)
negsuc m *ℤ negsuc n = pos (suc m * suc n)

abbrev pub lebℤ : ℤ → ℤ → Bool
lebℤ (pos m) (pos n) = leb m n
lebℤ (pos m) (negsuc n) = false
lebℤ (negsuc m) (pos n) = true
lebℤ (negsuc m) (negsuc n) = leb n m

abbrev pub ltbℤ : ℤ → ℤ → Bool
ltbℤ (pos m) (pos n) = ltb m n
ltbℤ (pos m) (negsuc n) = false
ltbℤ (negsuc m) (pos n) = true
ltbℤ (negsuc m) (negsuc n) = ltb n m

abbrev pub ◌≤ℤ◌ : ℤ → ℤ → Type 0

infix 50 ◌≤ℤ◌
pos m ≤ℤ pos n = m ≤ n
pos m ≤ℤ negsuc n = ⊥
negsuc m ≤ℤ pos n = Unit
negsuc m ≤ℤ negsuc n = n ≤ m
