-- ===== src/Prelude/Int.antt =====
-- Integers over the native numbers.
use Prim.Native.Nat.{ℕ, zero, suc}

-- `negsuc n` is -(n + 1).
pub data ℤ : Type 0 where
  pos : ℕ → ℤ
  negsuc : ℕ → ℤ

-- The integer -n.
abbrev pub neg_of : ℕ → ℤ
neg_of zero = pos zero
neg_of (suc n) = negsuc n

abbrev pub neg : ℤ → ℤ
neg (pos n) = neg_of n
neg (negsuc n) = pos (suc n)
