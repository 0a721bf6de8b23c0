-- ===== src/Prelude/Int.antt =====
-- Python's integers where a sign can occur: limits sent by clients and exit codes.
use Prim.Native.Nat.{ℕ}

-- `negsuc n` is -(n + 1).
pub data ℤ : Type 0 where
  pos : ℕ → ℤ
  negsuc : ℕ → ℤ
