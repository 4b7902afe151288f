-- ===== src/Runtime/Division/Loops.antt =====
-- What the two loops of essentials/stdlib/__udivsi3.c and __umodsi3.c leave.
use native.Mathlib.Nat.{
  pow-suc, mul-one, one-le-pow, mul-div_left, mul-add-div, div-eq_of_lt, mod-eq_of_lt,
  add-mul-mod_self_left,
}
use risc_v_microarchitecture.Base.{
  ℕ, zero, suc, ◌+◌, ◌-◌, ◌*◌, ◌/◌, ◌%◌, ◌^◌, ◌≤◌, ◌<◌, ◌≡◌, refl, sym, subst, ◌∙◌, ap, true, false,
  arith, Bool, if◌then◌else◌, bit_and, bit_or, le_or_lt, Option, some, ◌<<<◌, ◌>>>◌, inl, inr,
}
use risc_v_microarchitecture.Bits.{and_field, or_at, double}
use risc_v_microarchitecture.Runtime.Division.{Aligned, is_short, align, divide, reduce}

top_bit : (a : ℕ) → a < 2 ^ 32 → bit_and a 0x80000000 ≡ a / 2 ^ 31 * 2 ^ 31
top_bit a h = ground (arith, and_field 31 1 a)

is_short-true : (dividend d : ℕ) → d < 2 ^ 32 → is_short dividend d ≡ true → d < 2 ^ 31
unfolding is_short
is_short-true dividend d h t = ground (arith, top_bit d h)

is_short-false :
    (dividend d : ℕ)
    → d < 2 ^ 32
    → dividend < 2 ^ 32
    → is_short dividend d ≡ false
    → 0 < d
    → dividend < 2 * d
unfolding is_short
is_short-false dividend d h hd t pos = ground (arith, top_bit d h)

pow_pos : (k : ℕ) → 0 < 2 ^ k
pow_pos k = one-le-pow k 2 (omega arith)

pub exponent_bound : (k m d : ℕ) → 0 < d → d * 2 ^ k < 2 ^ m → k < m
exponent_bound zero zero d hd h = omega arith
exponent_bound zero (suc m) d hd h = omega arith
exponent_bound (suc k) zero d hd h = ground (arith, double d k, exponent_bound k 0 d hd)
exponent_bound (suc k) (suc m) d hd h =
    ground (arith, double d k, pow-suc 2 m, exponent_bound k m d hd)

le-mul : (d x : ℕ) → 0 < d → x ≤ d * x
le-mul zero x h = absurd (omega arith)
le-mul (suc d) x h = omega arith

doubled :
    (k d : ℕ)
    → 0 < d
    → d * 2 ^ k < 2 ^ 31
    → ((d * 2 ^ k) <<< 1 ≡ d * 2 ^ suc k) × ((2 ^ k) <<< 1 ≡ 2 ^ suc k) × (d * 2 ^ suc k < 2 ^ 32)
doubled k d hd h = ground (arith, double d k, pow-suc 2 k, le-mul d (2 ^ k) hd)

-- `d` and 1 moved up together, to where twice the divisor is above the dividend.
abbrev pub IsAligned : ℕ → ℕ → Option Aligned → Type 0
IsAligned dividend d o =
    (j : ℕ) × (o ≡ some (record { divisor = d * 2 ^ j; bit = 2 ^ j }))
    × (d * 2 ^ j < 2 ^ 32)
    × (dividend < 2 * (d * 2 ^ j))

align_from :
    (fuel k dividend d : ℕ)
    → 32 ≤ k + fuel
    → 0 < d
    → d * 2 ^ k < 2 ^ 32
    → dividend < 2 ^ 32
    → IsAligned dividend d (align fuel dividend (record { divisor = d * 2 ^ k; bit = 2 ^ k }))
unfolding align
align_from zero k dividend d e pos h hd = absurd (omega (arith, exponent_bound k 32 d pos h))
align_from (suc fuel) k dividend d e pos h hd =
    by_test
      (λ small.
        let (e₁, e₂, room) = doubled k d pos small in
        rw (e₁, e₂) (align_from fuel (suc k) dividend d (omega arith) pos room hd))
      _ refl
  where
    by_test :
        {next : Option Aligned}
        → (d * 2 ^ k < 2 ^ 31 → IsAligned dividend d next)
        → (short : Bool) → is_short dividend (d * 2 ^ k) ≡ short
        → IsAligned dividend d
            (if short then next else some (record { divisor = d * 2 ^ k; bit = 2 ^ k }))
    by_test next true t = next (is_short-true dividend _ h t)
    by_test next false t = (
      k,
      refl,
      h,
      is_short-false dividend _ h hd t (omega (arith, le-mul d (2 ^ k) pos, pow_pos k)),
    )

pub align_lem :
    (dividend d : ℕ)
    → 0 < d
    → d < 2 ^ 32
    → dividend < 2 ^ 32
    → IsAligned dividend d (align 32 dividend (record { divisor = d; bit = 1 }))
align_lem dividend d pos h hd =
    subst (λ (t : ℕ). IsAligned dividend d (align 32 dividend (record { divisor = t; bit = 1 })))
      (mul-one d) (align_from 32 0 dividend d (omega arith) pos (omega arith) hd)

pub halved : (k d : ℕ) → (d * 2 ^ suc k) >>> 1 ≡ d * 2 ^ k
halved k d = ground (arith, double d k)

pub halved_bit : (k : ℕ) → (2 ^ suc k) >>> 1 ≡ 2 ^ k
halved_bit k = ground (arith, pow-suc 2 k)

-- The quotient so far has a zero where the next bit is put.
put_bit : (k c : ℕ) → bit_or (c * 2 ^ suc k) (2 ^ k) ≡ (2 * c + 1) * 2 ^ k
put_bit k c = ground (
  arith,
  double c k,
  or_at k 1 (c * 2 ^ suc k) 1,
  mul-div_left (2 * c) (pow_pos k),
  pow_pos k,
  pow-suc 2 k,
)

divided_rest : (q d r : ℕ) → 0 < d → d * q ≤ r → q + (r - d * q) / d ≡ r / d
divided_rest q d r hd h =
    let e : d * q + (r - d * q) ≡ r = omega arith in
    sym (mul-add-div hd q (r - d * q)) ∙ ap (λ (t : ℕ). t / d) e

reduced_rest : (q d r : ℕ) → d * q ≤ r → (r - d * q) % d ≡ r % d
reduced_rest q d r h =
    let e : r - d * q + d * q ≡ r = omega arith in
    sym (add-mul-mod_self_left (r - d * q) d q) ∙ ap (λ (t : ℕ). t % d) e

divide_end :
    (fuel dividend divisor quotient : ℕ) → divide fuel dividend divisor 0 quotient ≡ some quotient
unfolding divide
divide_end zero dividend divisor quotient = refl
divide_end (suc fuel) dividend divisor quotient = refl

divide_taken :
    (fuel dividend divisor bit quotient : ℕ)
    → divisor ≤ dividend
    → 0 < bit
    → divide (suc fuel) dividend divisor bit quotient
      ≡ divide fuel (dividend - divisor) (divisor >>> 1) (bit >>> 1) (bit_or quotient bit)
unfolding divide
divide_taken fuel dividend divisor bit quotient h hb = ground arith

divide_left :
    (fuel dividend divisor bit quotient : ℕ)
    → dividend < divisor
    → 0 < bit
    → divide (suc fuel) dividend divisor bit quotient
      ≡ divide fuel dividend (divisor >>> 1) (bit >>> 1) quotient
unfolding divide
divide_left fuel dividend divisor bit quotient h hb = ground arith

-- The bits of the quotient from `k` on are done, and the loop is to put those below.
pub divide_lem :
    (fuel k d dividend c : ℕ)
    → k ≤ fuel
    → 0 < d
    → dividend < d * 2 ^ k
    → divide fuel dividend ((d * 2 ^ k) >>> 1) ((2 ^ k) >>> 1) (c * 2 ^ k)
      ≡ some (c * 2 ^ k + dividend / d)
divide_lem fuel zero d dividend c hk hd h =
    divide_end fuel dividend _ _
    ∙ ap some (omega (arith, div-eq_of_lt {n = dividend} {m = d} (omega arith)))
divide_lem zero (suc k) d dividend c hk hd h = absurd (omega arith)
divide_lem (suc fuel) (suc k) d dividend c hk hd h =
    rw (halved k d, halved_bit k)
      (elim (le_or_lt (d * 2 ^ k) dividend) [
        | inl taken ↦
            divide_taken fuel dividend _ _ _ taken (pow_pos k)
            ∙ ap (divide fuel _ _ _) (put_bit k c)
            ∙ divide_lem fuel k d _ (2 * c + 1) (omega arith) hd (omega (arith, double d k))
            ∙ ap some (omega (arith, double c k, divided_rest (2 ^ k) d dividend hd (omega arith)))
        | inr left ↦
            divide_left fuel dividend _ _ _ left (pow_pos k)
            ∙ subst
                (λ (t : ℕ).
                  divide fuel dividend ((d * 2 ^ k) >>> 1) ((2 ^ k) >>> 1) t
                  ≡ some (t + dividend / d))
                (omega (arith, double c k))
                (divide_lem fuel k d dividend (2 * c) (omega arith) hd left)
      ])

reduce_end : (fuel dividend divisor : ℕ) → reduce fuel dividend divisor 0 ≡ some dividend
unfolding reduce
reduce_end zero dividend divisor = refl
reduce_end (suc fuel) dividend divisor = refl

reduce_taken :
    (fuel dividend divisor bit : ℕ)
    → divisor ≤ dividend
    → 0 < bit
    → reduce (suc fuel) dividend divisor bit
      ≡ reduce fuel (dividend - divisor) (divisor >>> 1) (bit >>> 1)
unfolding reduce
reduce_taken fuel dividend divisor bit h hb = ground arith

reduce_left :
    (fuel dividend divisor bit : ℕ)
    → dividend < divisor
    → 0 < bit
    → reduce (suc fuel) dividend divisor bit ≡ reduce fuel dividend (divisor >>> 1) (bit >>> 1)
unfolding reduce
reduce_left fuel dividend divisor bit h hb = ground arith

pub reduce_lem :
    (fuel k d dividend : ℕ)
    → k ≤ fuel
    → 0 < d
    → dividend < d * 2 ^ k
    → reduce fuel dividend ((d * 2 ^ k) >>> 1) ((2 ^ k) >>> 1) ≡ some (dividend % d)
reduce_lem fuel zero d dividend hk hd h =
    reduce_end fuel dividend _ ∙ ap some (sym (mod-eq_of_lt {n = dividend} {m = d} (omega arith)))
reduce_lem zero (suc k) d dividend hk hd h = absurd (omega arith)
reduce_lem (suc fuel) (suc k) d dividend hk hd h =
    rw (halved k d, halved_bit k)
      (elim (le_or_lt (d * 2 ^ k) dividend) [
        | inl taken ↦
            reduce_taken fuel dividend _ _ taken (pow_pos k)
            ∙ reduce_lem fuel k d _ (omega arith) hd (omega (arith, double d k))
            ∙ ap some (reduced_rest (2 ^ k) d dividend (omega arith))
        | inr left ↦
            reduce_left fuel dividend _ _ left (pow_pos k)
            ∙ reduce_lem fuel k d dividend (omega arith) hd left
      ])
