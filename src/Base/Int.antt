-- ===== src/Base/Int.antt =====
-- Signed results of the C functions: a number, or -1 and below.
use Prim.Native.Nat.{ℕ}

-- `negsuc n` is -(n + 1).
pub data ℤ : Type 0 where
  pos : ℕ → ℤ
  negsuc : ℕ → ℤ

-- The value -1, with which the functions of the kernel report a failure.
abbrev pub minus_one : ℤ
minus_one = negsuc 0
