-- ===== src/Prelude/Integers.antt =====
-- Integers over the native numbers: a signed `int`.
use Prim.Native.Nat.{ℕ}

-- `negsuc n` is the number - n - 1.
pub data ℤ : Type 0 where
  pos negsuc : ℕ → ℤ
