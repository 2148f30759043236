-- ===== src/Common/Size.antt =====
-- C's 64-bit `size_t`, and what is left of a value that was stored in an `int`.
use Prim.Native.Nat.{ℕ, ◌+◌, ◌-◌, ◌%◌, ◌^◌, ◌<◌}
use mathlib.Core.Path.{◌≡◌}
use native.Mathlib.Omega.{arith}
use allonet.Common.Tests.{ltb, if◌then◌else◌}

abbrev pub int_limit : ℕ
int_limit = 2 ^ 31

abbrev pub add_size : ℕ → ℕ → ℕ
add_size a b = (a + b) % 2 ^ 64

abbrev pub sub_size : ℕ → ℕ → ℕ
sub_size a b = (a + 2 ^ 64 - b) % 2 ^ 64

-- `(size_t)(int)x`: the low 32 bits, sign-extended.
unfoldable pub to_int : ℕ → ℕ
to_int x = let w = x % 2 ^ 32 in if ltb w int_limit then w else w + (2 ^ 64 - 2 ^ 32)

pub to_int_small : (x : ℕ) → x < int_limit → to_int x ≡ x
unfolding to_int
to_int_small x h = ground arith
