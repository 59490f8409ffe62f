-- ===== src/Common/Words.antt =====
-- 32-bit words: `unsigned int` as a number below 2 ^ 32, and its conversions from and to `int`.
use Prim.Native.Nat.{ℕ, ◌-◌, ◌%◌, ◌^◌}
use mathlib.Core.Bool.{Bool, not}
use Prim.Native.Nat.{bit_and}
use netclass.Common.Tests.{ltb, ◌==◌, if◌then◌else◌}
use netclass.Common.Int.{ℤ, pos, negsuc, sub_ℕ}

abbrev pub word_mod : ℕ
word_mod = 2 ^ 32

-- (unsigned int) of an int.
unfoldable pub uint_of_int : ℤ → ℕ
uint_of_int (pos n) = n % word_mod
uint_of_int (negsuc n) = word_mod - 1 - n % word_mod

-- (int) of an unsigned int, as two's complement.
unfoldable pub int_of_uint : ℕ → ℤ
int_of_uint n = if ltb n (2 ^ 31) then pos n else sub_ℕ n word_mod

-- flags & mask, as a condition.
abbrev pub has_bit : ℕ → ℕ → Bool
has_bit flags mask = not (bit_and flags mask == 0)
