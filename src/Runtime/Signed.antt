-- ===== src/Runtime/Signed.antt =====
-- essentials/stdlib/__divsi3.c and __modsi3.c. Negation wraps: `-INT_MIN` is INT_MIN, as on the core.
use native.Mathlib.Nat.{div-le_self, div-lt_self, mod-le}
use risc_v_microarchitecture.Base.{
  ℕ, zero, suc, ◌-◌, ◌/◌, ◌%◌, ◌^◌, ◌≤◌, ◌<◌, ◌≡◌, ◌⊎◌, refl, sym, not, ◌∙◌, ◌≢◌, arith, Bool, true,
  false, ◌==◌, if◌then◌else◌, sub32, slt, bit_xor, ℤ, pos, negsuc, signed, Option, none, some,
}
use risc_v_microarchitecture.Runtime.Division.{udivsi3, umodsi3}
use risc_v_microarchitecture.Runtime.Division.Results.{udivsi3_lem, umodsi3_lem}

-- `(uint32_t)a`, or `(uint32_t)(-a)` where `a < 0`.
unfoldable pub magnitude : ℕ → ℕ
magnitude a = if slt a 0 then sub32 0 a else a

unfoldable pub divsi3 : ℕ → ℕ → Option ℕ
divsi3 a b =
    if b == 0
    then some 0
    else (let negative₁ = if slt a 0 then bit_xor 0 1 else 0 in
        let negative₂ = if slt b 0 then bit_xor negative₁ 1 else negative₁ in
        elim (udivsi3 (magnitude a) (magnitude b)) [
          | none ↦ none
          | some q ↦ some (if negative₂ == 0 then q else sub32 0 q)
        ])

unfoldable pub modsi3 : ℕ → ℕ → Option ℕ
modsi3 a b =
    if b == 0
    then some a
    else (let negative = if slt a 0 then 1 else 0 in
        elim (umodsi3 (magnitude a) (magnitude b)) [
          | none ↦ none
          | some r ↦ some (if negative == 0 then r else sub32 0 r)
        ])

-- Division of integers that rounds towards zero, and its remainder.
abbrev pub minus : ℕ → ℤ
minus zero = pos 0
minus (suc n) = negsuc n

abbrev pub quotient : ℤ → ℤ → ℤ
quotient (pos a) (pos b) = pos (a / b)
quotient (pos a) (negsuc b) = minus (a / suc b)
quotient (negsuc a) (pos b) = minus (suc a / b)
quotient (negsuc a) (negsuc b) = pos (suc a / suc b)

abbrev pub absolute : ℤ → ℕ
absolute (pos a) = a
absolute (negsuc a) = suc a

abbrev pub remainder : ℤ → ℤ → ℤ
remainder (pos a) b = pos (a % absolute b)
remainder (negsuc a) b = minus (suc a % absolute b)

with_sign : Bool → ℕ → ℤ
with_sign s n = if s then minus n else pos n

is_negative : ℤ → Bool
is_negative (pos n) = false
is_negative (negsuc n) = true

either_one : Bool → Bool → Bool
either_one s t = if s then not t else t

remainder-parts :
    (y z : ℤ) (s : Bool) (m n : ℕ)
    → is_negative y ≡ s
    → absolute y ≡ m
    → absolute z ≡ n
    → remainder y z ≡ with_sign s (m % n)
unfolding with_sign is_negative
remainder-parts (pos y) z s m n es em en = rw (← es, ← em, ← en) refl
remainder-parts (negsuc y) z s m n es em en = rw (← es, ← em, ← en) refl

quotient-parts :
    (y z : ℤ) (s t : Bool) (m n : ℕ)
    → is_negative y ≡ s
    → is_negative z ≡ t
    → absolute y ≡ m
    → absolute z ≡ n
    → quotient y z ≡ with_sign (either_one s t) (m / n)
unfolding with_sign is_negative either_one
quotient-parts (pos y) (pos z) s t m n es et em en = rw (← es, ← et, ← em, ← en) refl
quotient-parts (pos y) (negsuc z) s t m n es et em en = rw (← es, ← et, ← em, ← en) refl
quotient-parts (negsuc y) (pos z) s t m n es et em en = rw (← es, ← et, ← em, ← en) refl
quotient-parts (negsuc y) (negsuc z) s t m n es et em en = rw (← es, ← et, ← em, ← en) refl

signed-minus : (n : ℕ) → n ≤ 2 ^ 31 → signed (sub32 0 n) ≡ minus n
signed-minus zero h = refl
signed-minus (suc n) h = ground arith

signed-with_sign :
    (s : Bool) (n : ℕ)
    → n ≤ 2 ^ 31
    → s ≡ true ⊎ n < 2 ^ 31
    → signed (if s then sub32 0 n else n) ≡ with_sign s n
unfolding with_sign
signed-with_sign true n h k = signed-minus n h
signed-with_sign false n h k = ground arith

is_negative-signed : (w : ℕ) → w < 2 ^ 32 → is_negative (signed w) ≡ slt w 0
unfolding is_negative
is_negative-signed w h = ground arith

absolute-signed : (w : ℕ) → w < 2 ^ 32 → absolute (signed w) ≡ magnitude w
unfolding magnitude
absolute-signed w h = ground arith

magnitude-le : (w : ℕ) → w < 2 ^ 32 → magnitude w ≤ 2 ^ 31
unfolding magnitude
magnitude-le w h = ground arith

magnitude_pos : (w : ℕ) → w < 2 ^ 32 → 0 < w → 0 < magnitude w
unfolding magnitude
magnitude_pos w h p = ground arith

module _ (a b : ℕ) (a_word : a < 2 ^ 32) (b_word : b < 2 ^ 32) (b_pos : 0 < b) where
  modsi3-parts :
      modsi3 a b
      ≡ some (if slt a 0 then sub32 0 (magnitude a % magnitude b) else magnitude a % magnitude b)
  unfolding modsi3
  modsi3-parts = ground (
    arith,
    umodsi3_lem (magnitude a) (magnitude b),
    magnitude-le a a_word,
    magnitude-le b b_word,
    magnitude_pos b b_word b_pos,
  )

  divsi3-parts :
      divsi3 a b
      ≡ some (
          if either_one (slt a 0) (slt b 0)
          then sub32 0 (magnitude a / magnitude b)
          else magnitude a / magnitude b)
  unfolding divsi3 either_one
  divsi3-parts = ground (
    arith,
    udivsi3_lem (magnitude a) (magnitude b),
    magnitude-le a a_word,
    magnitude-le b b_word,
    magnitude_pos b b_word b_pos,
  )

  remainder_range : slt a 0 ≡ true ⊎ magnitude a % magnitude b < 2 ^ 31
  unfolding magnitude
  remainder_range = ground (arith, mod-le (magnitude a) (magnitude b))

  quotient_range :
      a ≢ 2 ^ 31 ⊎ b ≢ 2 ^ 32 - 1
      → either_one (slt a 0) (slt b 0) ≡ true ⊎ magnitude a / magnitude b < 2 ^ 31
  unfolding magnitude either_one
  quotient_range h = ground (
    arith,
    div-le_self (magnitude a) (magnitude b),
    div-lt_self {n = magnitude a} {k = magnitude b},
  )

  modsi3_lem : (r : ℕ) × (modsi3 a b ≡ some r) × (signed r ≡ remainder (signed a) (signed b))
  modsi3_lem = (
    _,
    modsi3-parts,
    signed-with_sign (slt a 0) (magnitude a % magnitude b)
          (omega (arith, mod-le (magnitude a) (magnitude b), magnitude-le a a_word)) remainder_range
        ∙ sym (
            remainder-parts (signed a) (signed b) _ _ _ (is_negative-signed a a_word)
              (absolute-signed a a_word) (absolute-signed b b_word)),
  )

  divsi3_lem :
      a ≢ 2 ^ 31 ⊎ b ≢ 2 ^ 32 - 1
      → (q : ℕ) × (divsi3 a b ≡ some q) × (signed q ≡ quotient (signed a) (signed b))
  divsi3_lem h = (
    _,
    divsi3-parts,
    signed-with_sign _ _
          (omega (arith, div-le_self (magnitude a) (magnitude b), magnitude-le a a_word))
          (quotient_range h)
        ∙ sym (
            quotient-parts (signed a) (signed b) _ _ _ _ (is_negative-signed a a_word)
              (is_negative-signed b b_word) (absolute-signed a a_word) (absolute-signed b b_word)),
  )

-- For int32_t operands, the divisor not 0 and INT_MIN / -1 left out, both routines end, with the
-- quotient rounded towards zero and the remainder that has the sign of the dividend.
pub divsi3-modsi3 :
    (a b : ℕ)
    → a < 2 ^ 32
    → b < 2 ^ 32
    → 0 < b
    → a ≢ 2 ^ 31 ⊎ b ≢ 2 ^ 32 - 1
    → ((q : ℕ) × (divsi3 a b ≡ some q) × (signed q ≡ quotient (signed a) (signed b)))
      × ((r : ℕ) × (modsi3 a b ≡ some r) × (signed r ≡ remainder (signed a) (signed b)))
divsi3-modsi3 a b ha hb nonzero h = (divsi3_lem a b ha hb nonzero h, modsi3_lem a b ha hb nonzero)
