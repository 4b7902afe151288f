-- ===== src/Runtime/Division.antt =====
-- essentials/stdlib/__udivsi3.c and __umodsi3.c. The loops run on fuel: `none` is fuel used up.
mod Loops
pub mod Results
use risc_v_microarchitecture.Base.{
  ℕ, zero, suc, ◌-◌, Bool, ◌&&◌, ltb, leb, ◌==◌, if◌then◌else◌, ◌<<<◌, ◌>>>◌, bit_and, bit_or,
  Option, none, some,
}

-- The divisor and the bit that stands for it in the quotient.
pub record Aligned : Type 0 where
  pub divisor : ℕ
  pub bit : ℕ

-- The test of the first loop of both routines.
unfoldable pub is_short : ℕ → ℕ → Bool
is_short dividend divisor = ltb divisor dividend && bit_and divisor 0x80000000 == 0

unfoldable pub align : ℕ → ℕ → Aligned → Option Aligned
align zero dividend a = if is_short dividend a.divisor then none else some a
align (suc fuel) dividend a =
    let rest = align fuel dividend (record { divisor = a.divisor <<< 1; bit = a.bit <<< 1 }) in
    if is_short dividend a.divisor then rest else some a

-- The second loop of `__udivsi3`.
unfoldable pub divide : ℕ → ℕ → ℕ → ℕ → ℕ → Option ℕ
divide zero dividend divisor bit quotient = if bit == 0 then some quotient else none
divide (suc fuel) dividend divisor bit quotient =
    let taken = leb divisor dividend in
    let rest =
      divide fuel (if taken then dividend - divisor else dividend) (divisor >>> 1) (bit >>> 1)
        (if taken then bit_or quotient bit else quotient) in
    if bit == 0 then some quotient else rest

-- The second loop of `__umodsi3`.
unfoldable pub reduce : ℕ → ℕ → ℕ → ℕ → Option ℕ
reduce zero dividend divisor bit = if bit == 0 then some dividend else none
reduce (suc fuel) dividend divisor bit =
    let taken = leb divisor dividend in
    let rest =
      reduce fuel (if taken then dividend - divisor else dividend) (divisor >>> 1) (bit >>> 1) in
    if bit == 0 then some dividend else rest

unfoldable pub udivsi3 : ℕ → ℕ → Option ℕ
udivsi3 dividend divisor =
    if divisor == 0
    then some 0
    else (elim (align 32 dividend (record { divisor = divisor; bit = 1 })) [
      | none ↦ none
      | some a ↦ divide 32 dividend a.divisor a.bit 0
    ])

unfoldable pub umodsi3 : ℕ → ℕ → Option ℕ
umodsi3 dividend divisor =
    if divisor == 0
    then some 0
    else (elim (align 32 dividend (record { divisor = divisor; bit = 1 })) [
      | none ↦ none
      | some a ↦ reduce 32 dividend a.divisor a.bit
    ])
