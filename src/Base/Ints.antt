-- ===== src/Base/Ints.antt =====
-- Go's int where the code lets it be negative.
use Prim.Native.Nat.{ℕ}

pub data ℤ : Type 0 where
  pos : ℕ → ℤ
  negsuc : ℕ → ℤ
