-- ===== src/Alu/Units.antt =====
-- The comparators of src/execution/alu.c and the integers that their operands stand for.
use risc_v_microarchitecture.Base.{ℕ, ◌^◌, ◌≤◌, ◌<◌, ◌≡◌, ◌↔◌, arith, signed, ◌<ℤ◌, ok}
use risc_v_microarchitecture.Alu.{less_than_comparator}

-- For every pair of 32-bit operands the comparator answers 1 exactly when the first is below the
-- second, as unsigned numbers for sign 0 and as signed integers for sign 1, and else 0.
pub less_than_comparator_lem :
    (a b : ℕ)
    → a < 2 ^ 32
    → b < 2 ^ 32
    → ((less_than_comparator a b 0 ≡ ok 1) ↔ (a < b))
      × ((less_than_comparator a b 0 ≡ ok 0) ↔ (b ≤ a))
      × ((less_than_comparator a b 1 ≡ ok 1) ↔ (signed a <ℤ signed b))
      × ((less_than_comparator a b 1 ≡ ok 0) ↔ ¬ (signed a <ℤ signed b))
unfolding less_than_comparator
less_than_comparator_lem a b ha hb = ground arith
