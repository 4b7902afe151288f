-- ===== src/Runtime/Tests.antt =====
-- The routines of essentials/ at concrete operands.
use risc_v_microarchitecture.Base.{
  ℕ, ◌+◌, ◌-◌, ◌*◌, ◌/◌, ◌%◌, ◌^◌, ◌≡◌, inl, refl, arith, signed, ltb, leb, ◌&&◌, if◌then◌else◌, [],
  ◌∷◌, some,
}
use risc_v_microarchitecture.Runtime.Division.{udivsi3, umodsi3}
use risc_v_microarchitecture.Runtime.Division.Results.{udivsi3-umodsi3}
use risc_v_microarchitecture.Runtime.Product.{mulsi3, mulsi3_lem}
use risc_v_microarchitecture.Runtime.Signed.{divsi3, modsi3, quotient, remainder, divsi3-modsi3}
use risc_v_microarchitecture.Runtime.Heap.{
  memcpy, memcpy_lem, requests, Separated, Below, malloc-Separated, Bytes,
}

udivsi3-umodsi3_example : (udivsi3 1000 7 ≡ some (1000 / 7)) × (umodsi3 1000 7 ≡ some (1000 % 7))
udivsi3-umodsi3_example = udivsi3-umodsi3 1000 7 (omega arith) (omega arith) (omega arith)

mulsi3_example : mulsi3 0x10001 0x10001 ≡ some (0x10001 * 0x10001 % 2 ^ 32)
mulsi3_example = mulsi3_lem 0x10001 0x10001 (omega arith) (omega arith)

-- -7 by 2.
divsi3-modsi3_example :
    ((q : ℕ) × (divsi3 0xFFFFFFF9 2 ≡ some q)
      × (signed q ≡ quotient (signed 0xFFFFFFF9) (signed 2)))
    × ((r : ℕ) × (modsi3 0xFFFFFFF9 2 ≡ some r)
        × (signed r ≡ remainder (signed 0xFFFFFFF9) (signed 2)))
divsi3-modsi3_example =
    divsi3-modsi3 0xFFFFFFF9 2 (omega arith) (omega arith) (omega arith) (inl (omega arith))

abbrev squares : Bytes
squares a = a * a

-- Three bytes down by one address.
memcpy_example :
    memcpy 4 5 3 squares 6 ≡ (if leb 4 6 && ltb 6 (4 + 3) then squares (5 + (6 - 4)) else squares 6)
memcpy_example = memcpy_lem 4 5 3 squares 6 (omega arith) (omega arith) (inl (omega arith))

-- The second request finds no room.
malloc-Separated_example : Separated 0x1000 0x1010 (requests 0x1010 (5 ∷ 20 ∷ 8 ∷ []) 0x1000)
unfolding Below
malloc-Separated_example =
    malloc-Separated 0x1010 100 (5 ∷ 20 ∷ 8 ∷ []) 0x1000 (omega arith) refl (omega arith)
      (omega arith) (omega arith, (omega arith, (omega arith, omega arith)))
