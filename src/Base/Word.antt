-- ===== src/Base/Word.antt =====
-- An `int` is its bit pattern, a number below 2 ^ 32: sums and differences wrap, and an order of
-- two of them is that of the patterns with the sign bit flipped.
use nginx_quic_stack.Base.Tests.{ltb}
use Prim.Native.Nat.{ℕ, ◌+◌, ◌-◌, ◌%◌, ◌^◌}
use mathlib.Core.Bool.{Bool}

-- `static_cast<int>` of a `size_t`.
abbrev pub int32 : ℕ → ℕ
int32 n = n % 2 ^ 32

abbrev pub add_int32 : ℕ → ℕ → ℕ
add_int32 a b = (a + b) % 2 ^ 32

abbrev pub sub_int32 : ℕ → ℕ → ℕ
sub_int32 a b = (a + 2 ^ 32 - b % 2 ^ 32) % 2 ^ 32

abbrev flip_sign : ℕ → ℕ
flip_sign w = (w + 2 ^ 31) % 2 ^ 32

abbrev pub lt_int32 : ℕ → ℕ → Bool
lt_int32 a b = ltb (flip_sign a) (flip_sign b)
