-- ===== src/Runtime/Division/Results.antt =====
-- essentials/stdlib/__udivsi3.c and __umodsi3.c against the quotient and the remainder.
use risc_v_microarchitecture.Base.{ℕ, suc, ◌/◌, ◌%◌, ◌^◌, ◌≤◌, ◌<◌, ◌≡◌, arith, some}
use risc_v_microarchitecture.Runtime.Division.{udivsi3, umodsi3}
use risc_v_microarchitecture.Bits.{double}
use risc_v_microarchitecture.Runtime.Division.Loops.{
  align_lem, divide_lem, reduce_lem, halved, halved_bit, exponent_bound,
}

module _ (dividend divisor : ℕ) where
  pub udivsi3_lem :
      0 < divisor
      → divisor < 2 ^ 32
      → dividend < 2 ^ 32
      → udivsi3 dividend divisor ≡ some (dividend / divisor)
  unfolding udivsi3
  udivsi3_lem pos h hd =
      let (j, e, room, above) = align_lem dividend divisor pos h hd in
      let small : suc j ≤ 32 = exponent_bound j 32 divisor pos room in
      ground (
        arith,
        e,
        double divisor j,
        halved j divisor,
        halved_bit j,
        divide_lem 32 (suc j) divisor dividend 0 small pos,
      )

  pub umodsi3_lem :
      0 < divisor
      → divisor < 2 ^ 32
      → dividend < 2 ^ 32
      → umodsi3 dividend divisor ≡ some (dividend % divisor)
  unfolding umodsi3
  umodsi3_lem pos h hd =
      let (j, e, room, above) = align_lem dividend divisor pos h hd in
      let small : suc j ≤ 32 = exponent_bound j 32 divisor pos room in
      ground (
        arith,
        e,
        double divisor j,
        halved j divisor,
        halved_bit j,
        reduce_lem 32 (suc j) divisor dividend small pos,
      )

-- For 32-bit numbers, the divisor not 0, both routines end, with the quotient and the remainder.
pub udivsi3-umodsi3 :
    (a b : ℕ)
    → 0 < b
    → b < 2 ^ 32
    → a < 2 ^ 32
    → (udivsi3 a b ≡ some (a / b)) × (umodsi3 a b ≡ some (a % b))
udivsi3-umodsi3 a b pos hb ha = (udivsi3_lem a b pos hb ha, umodsi3_lem a b pos hb ha)
