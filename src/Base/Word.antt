-- ===== src/Base/Word.antt =====
-- uint32_t as native numbers below 2 ^ 32: wrap-around, shifts, and the signed operations of C on
-- the two's complement pattern.
use Prim.Native.Nat.{ℕ, ◌+◌, ◌-◌, ◌*◌, ◌/◌, ◌%◌, ◌^◌}
use mathlib.Core.Bool.{Bool}
use risc_v_microarchitecture.Base.Tests.{ltb, if◌then◌else◌}

abbrev pub add32 : ℕ → ℕ → ℕ
add32 a b = (a + b) % 2 ^ 32

abbrev pub sub32 : ℕ → ℕ → ℕ
sub32 a b = (a + 2 ^ 32 - b) % 2 ^ 32

-- x << k and x >> k on uint32_t. The machine takes the count modulo 32; C leaves a count of 32 or
-- more undefined.
infixl 75 ◌<<<◌ ◌>>>◌
abbrev pub ◌<<<◌ : ℕ → ℕ → ℕ
x <<< k = x * 2 ^ (k % 32) % 2 ^ 32

abbrev pub ◌>>>◌ : ℕ → ℕ → ℕ
x >>> k = x / 2 ^ (k % 32)

-- (int32_t)x >> k: the sign bit is copied into the k places that come free.
abbrev pub sar : ℕ → ℕ → ℕ
sar x k =
    if ltb x (2 ^ 31) then x / 2 ^ (k % 32) else x / 2 ^ (k % 32) + (2 ^ 32 - 2 ^ (32 - k % 32))

-- (int32_t)a < (int32_t)b: the order of the patterns with the sign bit turned round.
abbrev pub slt : ℕ → ℕ → Bool
slt a b = ltb ((a + 2 ^ 31) % 2 ^ 32) ((b + 2 ^ 31) % 2 ^ 32)
