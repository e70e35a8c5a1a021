-- ===== src/Common/Words.antt =====
-- Fixed-width integers of C as their bit patterns: an `int32_t` or a `uint32_t` is a number below
-- 2 ^ 32, and -1 is `minus_one`.
use Prim.Native.Nat.{ℕ, ◌+◌, ◌-◌, ◌%◌, ◌^◌}
use mathlib.Core.Bool.{Bool}
use os.Common.Tests.{ltb, leb, if◌then◌else◌}

abbrev pub u8 : ℕ → ℕ
u8 n = n % 2 ^ 8

abbrev pub u32 : ℕ → ℕ
u32 n = n % 2 ^ 32

abbrev pub add32 : ℕ → ℕ → ℕ
add32 a b = (a + b) % 2 ^ 32

-- `-` on ℕ stops at 0, so the modulus is added first.
abbrev pub sub32 : ℕ → ℕ → ℕ
sub32 a b = (a + 2 ^ 32 - b) % 2 ^ 32

abbrev pub minus_one : ℕ
minus_one = 2 ^ 32 - 1

-- the sign test of an `int32_t`
abbrev pub is_neg : ℕ → Bool
is_neg a = leb (2 ^ 31) a

-- `a < b` between two `int32_t`
abbrev pub slt : ℕ → ℕ → Bool
slt a b = ltb ((a + 2 ^ 31) % 2 ^ 32) ((b + 2 ^ 31) % 2 ^ 32)

-- an `int8_t` promoted to `int`
abbrev pub sign_extend8 : ℕ → ℕ
sign_extend8 c = if ltb c 128 then c else c + (2 ^ 32 - 2 ^ 8)
