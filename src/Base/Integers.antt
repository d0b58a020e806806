-- ===== src/Base/Integers.antt =====
-- A C `int` as the sources compare it: the integers.
use Prim.Native.Nat.{ℕ}

-- `pos n` is n and `negsuc n` is -(n + 1).
pub data ℤ : Type 0 where
  pos : ℕ → ℤ
  negsuc : ℕ → ℤ
