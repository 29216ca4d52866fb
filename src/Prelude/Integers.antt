-- ===== src/Prelude/Integers.antt =====
-- Python's integers where a negative one is tested for.
use Prim.Native.Nat.{ℕ}

-- `negsuc n` is -1 - n.
pub data ℤ : Type 0 where
  pos : ℕ → ℤ
  negsuc : ℕ → ℤ
