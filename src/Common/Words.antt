-- ===== src/Common/Words.antt =====
-- C's 32-bit `int` and `uint`: a value is its bit pattern, a number below 2^32.
use Prim.Native.Nat.{ℕ, ◌+◌, ◌%◌}
use mathlib.Core.Bool.{Bool, ◌&&◌}
use compsci537_introduction.Common.Tests.{ltb, leb}

abbrev pub u32_mod : ℕ
u32_mod = 4294967296

abbrev pub sign_bit : ℕ
sign_bit = 2147483648

abbrev pub u32 : ℕ → ℕ
u32 n = n % u32_mod

-- `x > 0` for an `int`
abbrev pub is_positive : ℕ → Bool
is_positive x = ltb 0 x && ltb x sign_bit

-- `a >= b` for two `int`s
abbrev pub ge_signed : ℕ → ℕ → Bool
ge_signed a b = leb (u32 (b + sign_bit)) (u32 (a + sign_bit))
