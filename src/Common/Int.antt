-- ===== src/Common/Int.antt =====
-- C's `int64_t`, as far as it is compared and used as an index.
use Prim.Native.Nat.{ℕ}
use mathlib.Core.Bool.{Bool, false}
use allonet.Common.Tests.{◌==◌}

pub data ℤ : Type 0 where
  pos : ℕ → ℤ
  negsuc : ℕ → ℤ

abbrev pub same_int : ℤ → ℤ → Bool
same_int (pos m) (pos n) = m == n
same_int (negsuc m) (negsuc n) = m == n
same_int (pos m) (negsuc n) = false
same_int (negsuc m) (pos n) = false
