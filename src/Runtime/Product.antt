-- ===== src/Runtime/Product.antt =====
-- essentials/stdlib/__mulsi3.c. The loop runs on fuel: `none` is fuel used up, or an access outside
-- the table.
use native.Mathlib.Nat.{pow-suc}
use risc_v_microarchitecture.Base.{
  get_elem?, ℕ, zero, suc, ◌+◌, ◌-◌, ◌*◌, ◌/◌, ◌%◌, ◌^◌, ◌≤◌, ◌<◌, ◌≡◌, ◌⊎◌, inl, inr, refl, subst,
  ◌∙◌, ap, arith, ◌&&◌, ltb, leb, ◌==◌, if◌then◌else◌, add32, sub32, ◌<<<◌, ◌>>>◌, bit_and, Option,
  none, some,
}
use risc_v_microarchitecture.Bits.{and_ones, and-zero}
use risc_v_microarchitecture.Runtime.Table.{qsq, get-qsq}

-- The loop of the general case: two bits of the multiplier in each round.
unfoldable pub shift_and_add : ℕ → ℕ → ℕ → ℕ → Option ℕ
shift_and_add zero a b result = if b == 0 then some result else none
shift_and_add (suc fuel) a b result =
    let result₁ = add32 result (bit_and a (sub32 0 (bit_and b 1))) in
    let result₂ = add32 result₁ (bit_and (a <<< 1) (sub32 0 (bit_and (b >>> 1) 1))) in
    let rest = shift_and_add fuel (a <<< 2) (b >>> 2) result₂ in
    if b == 0 then some result else rest

-- `QSQ[sum] - QSQ[diff]`
unfoldable pub table_product : ℕ → ℕ → Option ℕ
table_product sum diff = elim (get_elem? qsq sum) [
  | none ↦ none
  | some s ↦ elim (get_elem? qsq diff) [ none ↦ none | some d ↦ some (sub32 s d) ]
]

unfoldable pub mulsi3 : ℕ → ℕ → Option ℕ
mulsi3 a b =
    let sum = add32 a b in
    if ltb sum 511 && leb a sum
    then table_product sum (if ltb b a then sub32 a b else sub32 b a)
    else if ltb a b
    then shift_and_add 16 b a 0
    else shift_and_add 16 a b 0

mul-bit : (a t : ℕ) → t < 2 → ((t ≡ 0) × (a * t ≡ 0)) ⊎ ((t ≡ 1) × (a * t ≡ a))
mul-bit a zero h = inl (refl, omega arith)
mul-bit a (suc zero) h = inr (refl, omega arith)
mul-bit a (suc (suc t)) h = absurd (omega arith)

-- `-(x & 1)` is all ones or zero.
and-low_bit : (a b : ℕ) → a < 2 ^ 32 → bit_and a (sub32 0 (bit_and b 1)) ≡ a * (b % 2)
and-low_bit a b h =
    ground (arith, and_ones 1 b, and_ones 32 a, and-zero a, mul-bit a (b % 2) (omega arith))

-- The wrap of the doubled multiplicand is not seen in the low 32 bits of the product.
wrapped_product :
    (a b result : ℕ)
    → ((((result + a * (b % 2)) % 2 ^ 32 + a * 2 % 2 ^ 32 * (b / 2 % 2)) % 2 ^ 32)
          + a * 4 % 2 ^ 32 * (b / 4))
        % 2 ^ 32
      ≡ (result + a * b) % 2 ^ 32
wrapped_product a b result = ground (
  arith,
  split,
  carried,
  mul-bit a (b % 2) (omega arith),
  mul-bit a (b / 2 % 2) (omega arith),
  mul-bit (a * 2 % 2 ^ 32) (b / 2 % 2) (omega arith),
)
  where
    split : a * b ≡ 4 * (a * (b / 4)) + 2 * (a * (b / 2 % 2)) + a * (b % 2)
    split =
        let e : b ≡ 4 * (b / 4) + 2 * (b / 2 % 2) + b % 2 = omega arith in
        ap (λ (t : ℕ). a * t) e ∙ omega arith

    carried : 4 * (a * (b / 4)) ≡ 2 ^ 32 * (a * 4 / 2 ^ 32 * (b / 4)) + a * 4 % 2 ^ 32 * (b / 4)
    carried =
        let e : a * 4 ≡ 2 ^ 32 * (a * 4 / 2 ^ 32) + a * 4 % 2 ^ 32 = omega arith in
        omega (arith, ap (λ (t : ℕ). t * (b / 4)) e)

shift_and_add-zero : (fuel a result : ℕ) → shift_and_add fuel a 0 result ≡ some result
unfolding shift_and_add
shift_and_add-zero zero a result = refl
shift_and_add-zero (suc fuel) a result = refl

four_times : (n : ℕ) → 2 ^ (2 * suc n) ≡ 4 * 2 ^ (2 * n)
four_times n =
    let e : 2 * suc n ≡ suc (suc (2 * n)) = omega arith in
    rw e (omega (arith, pow-suc 2 (suc (2 * n)), pow-suc 2 (2 * n)))

shift_and_add_lem :
    (fuel a b result : ℕ)
    → b < 2 ^ (2 * fuel)
    → a < 2 ^ 32
    → result < 2 ^ 32
    → shift_and_add fuel a b result ≡ some ((result + a * b) % 2 ^ 32)
unfolding shift_and_add
shift_and_add_lem zero a b result hb ha hr = ground arith
shift_and_add_lem (suc fuel) a zero result hb ha hr = ground arith
shift_and_add_lem (suc fuel) a (suc b) result hb ha hr =
    let result₁ = add32 result (bit_and a (sub32 0 (bit_and (suc b) 1))) in
    let result₂ = add32 result₁ (bit_and (a <<< 1) (sub32 0 (bit_and (suc b >>> 1) 1))) in
    let bits : (add32 result₁ (bit_and (a <<< 1) (sub32 0 (bit_and (suc b >>> 1) 1)))
            + a <<< 2 * suc b >>> 2)
          % 2 ^ 32
        ≡ (result + a * suc b) % 2 ^ 32 =
      rw (and-low_bit a (suc b) ha, and-low_bit (a <<< 1) (suc b >>> 1) (omega arith))
        (wrapped_product a (suc b) result) in
    ground (
      arith,
      bits,
      shift_and_add_lem fuel (a <<< 2) (suc b >>> 2) result₂ (omega (arith, four_times fuel))
          (omega arith) (omega arith),
    )

-- The quarter squares of sum and difference differ by the product.
quarter_squares_lem : (a b : ℕ) → b ≤ a → (a + b) * (a + b) / 4 ≡ a * b + (a - b) * (a - b) / 4
quarter_squares_lem a b h =
    let e : b + (a - b) ≡ a = omega arith in
    subst (λ (t : ℕ). (t + b) * (t + b) / 4 ≡ t * b + (a - b) * (a - b) / 4) e
      (omega (arith, expanded b (a - b)))
  where
    expanded : (x y : ℕ) → (x + y + x) * (x + y + x) ≡ 4 * ((x + y) * x) + y * y
    expanded x y = omega arith

-- The product of two 32-bit numbers comes out modulo 2 ^ 32, by the table or by the loop, which
-- ends.
pub mulsi3_lem : (a b : ℕ) → a < 2 ^ 32 → b < 2 ^ 32 → mulsi3 a b ≡ some (a * b % 2 ^ 32)
unfolding mulsi3 table_product
mulsi3_lem a b ha hb = ground (
  arith,
  shift_and_add_lem 16 a b 0,
  shift_and_add_lem 16 b a 0,
  quarter_squares_lem a b,
  quarter_squares_lem b a,
  get-qsq (add32 a b),
  get-qsq (sub32 a b),
  get-qsq (sub32 b a),
)
