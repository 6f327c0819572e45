-- ===== src/Base/Int.antt =====
-- C's signed integers where only their sign and value are read: file descriptors, status codes.
use Prim.Native.Nat.{ℕ}

-- `negsuc n` is -(n + 1).
pub data ℤ : Type 0 where
  pos : ℕ → ℤ
  negsuc : ℕ → ℤ

-- The kernel's usual error value.
abbrev pub minus_one : ℤ
minus_one = negsuc 0
