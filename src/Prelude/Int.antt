-- ===== src/Prelude/Int.antt =====
-- C's `int` as a result: an integer over the native numbers.
use Prim.Native.Nat.{ℕ}

-- `pos n` is n and `negsuc n` is -1 - n.
pub data ℤ : Type 0 where
  pos : ℕ → ℤ
  negsuc : ℕ → ℤ
