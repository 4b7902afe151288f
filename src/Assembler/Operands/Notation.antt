-- ===== src/Assembler/Operands/Notation.antt =====
-- Decimal notation and the operand readers of src/assembler/core/semantics_analyzer.c.
use native.Mathlib.Nat.{pow-suc}
use risc_v_microarchitecture.Base.{
  ℕ, zero, suc, ◌+◌, ◌-◌, ◌/◌, ◌%◌, ◌^◌, ◌<◌, ◌==◌, ◌≡◌, refl, min, arith, Bool, true, false, not,
  ◌&&◌, ltb, leb, if◌then◌else◌, [], ◌∷◌, sub32,
}
use risc_v_microarchitecture.Assembler.Text.{
  CString, is_space, is_digit, is_empty, all, digit_value, digits_from, drop_prefix, signed_value,
  to_int,
}
use risc_v_microarchitecture.Assembler.Operands.{
  int_min, after_minus, has_prefix, read_number, read_dec, read_r, read_i, read_s, read_u,
}

-- The digits of a number, in front of what is written already.
abbrev pub decimal_from : ℕ → ℕ → CString → CString
decimal_from zero n s = s
decimal_from (suc fuel) n s =
    let digit = b'0' + n % 10 in
    let more = decimal_from fuel (n / 10) (digit ∷ s) in if ltb n 10 then digit ∷ s else more

abbrev pub decimal : ℕ → CString
decimal n = decimal_from 10 n []

digits_from-decimal_from :
    (fuel n : ℕ) (s : CString)
    → 0 < fuel
    → n < 10 ^ fuel
    → digits_from 10 0 (decimal_from fuel n s) ≡ digits_from 10 n s
unfolding digits_from digit_value is_digit
digits_from-decimal_from zero n s hf h = absurd (omega arith)
digits_from-decimal_from (suc zero) n s hf h = ground arith
digits_from-decimal_from (suc (suc fuel)) n s hf h = ground (
  arith,
  pow-suc 10 (suc fuel),
  digits_from-decimal_from (suc fuel) (n / 10) ((b'0' + n % 10) ∷ s),
)

-- A nonempty string of digits.
abbrev is_numeral : CString → Bool
is_numeral s = not (is_empty s) && all is_digit s

decimal_from-is_numeral :
    (fuel n : ℕ) (s : CString)
    → all is_digit s ≡ true
    → is_numeral (decimal_from (suc fuel) n s) ≡ true
unfolding is_digit
decimal_from-is_numeral zero n s h = ground arith
decimal_from-is_numeral (suc fuel) n s h =
    ground (arith, decimal_from-is_numeral fuel (n / 10) ((b'0' + n % 10) ∷ s))

drop_prefix-decimal : (s : CString) → drop_prefix 10 s ≡ s
unfolding drop_prefix
drop_prefix-decimal [] = refl
drop_prefix-decimal (c ∷ []) = refl
drop_prefix-decimal (c ∷ (x ∷ [])) = refl
drop_prefix-decimal (c ∷ (x ∷ (d ∷ s))) = refl

has_prefix-numeral : (s : CString) → all is_digit s ≡ true → has_prefix s ≡ false
unfolding is_digit
has_prefix-numeral [] h = refl
has_prefix-numeral (c ∷ []) h = refl
has_prefix-numeral (c ∷ (x ∷ s)) h = ground arith

read_number-numeral :
    (s : CString)
    → is_numeral s ≡ true
    → read_number s ≡ min (2 ^ 63 - 1) (digits_from 10 0 s) % 2 ^ 32
unfolding read_number read_dec to_int signed_value is_digit is_space
read_number-numeral [] h = absurd cc
read_number-numeral (c ∷ s) h =
    ground (arith, has_prefix-numeral (c ∷ s), drop_prefix-decimal (c ∷ s))

read_number-minus :
    (s : CString)
    → is_numeral s ≡ true
    → read_number (b'-' ∷ s) ≡ (2 ^ 64 - min (2 ^ 63) (digits_from 10 0 s)) % 2 ^ 32
unfolding read_number read_dec to_int signed_value is_digit is_space
read_number-minus s h = ground (arith, has_prefix-numeral s, drop_prefix-decimal s)

read_number-decimal :
    (n : ℕ)
    → n < 2 ^ 32
    → (read_number (decimal n) ≡ n) × (read_number (b'-' ∷ decimal n) ≡ sub32 0 n)
unfolding digits_from
read_number-decimal n h =
    let numeral = decimal_from-is_numeral 9 n [] refl in
    let value = digits_from-decimal_from 10 n [] (omega arith) (omega arith) in
    let e₁ = read_number-numeral (decimal n) numeral in
    let e₂ = read_number-minus (decimal n) numeral in
    (omega (arith, e₁, value), omega (arith, e₂, value))

has_prefix-after_minus : (s : CString) → is_numeral s ≡ true → has_prefix (after_minus s) ≡ false
unfolding is_digit
has_prefix-after_minus [] h = absurd cc
has_prefix-after_minus (c ∷ s) h = ground (arith, has_prefix-numeral (c ∷ s))

all-numeral : (s : CString) → is_numeral s ≡ true → all is_digit s ≡ true
all-numeral [] h = refl
all-numeral (c ∷ s) h = ground arith

has_prefix-decimal : (n : ℕ) → has_prefix (decimal n) ≡ false
has_prefix-decimal n =
    has_prefix-numeral (decimal n) (all-numeral (decimal n) (decimal_from-is_numeral 9 n [] refl))

-- A number below 2 ^ 31 in decimal notation is read by each operand reader to itself where it is in
-- the reader's range, and is refused elsewhere. Behind a minus, the reader of 12-bit immediates
-- reads it to its negative from -2048 up and refuses it below; the readers of registers, of shift
-- amounts and of 20-bit immediates read -0 to 0 and refuse every other number behind a minus.
pub read-decimal :
    (n : ℕ)
    → n < 2 ^ 31
    → (read_r (b'r' ∷ decimal n) ≡ (if ltb n 32 then n else int_min))
      × (read_r (b'r' ∷ b'-' ∷ decimal n) ≡ (if n == 0 then 0 else int_min))
      × (read_s (decimal n) ≡ (if ltb n 32 then n else int_min))
      × (read_s (b'-' ∷ decimal n) ≡ (if n == 0 then 0 else int_min))
      × (read_i (decimal n) ≡ (if ltb n 2048 then n else int_min))
      × (read_i (b'-' ∷ decimal n) ≡ (if leb n 2048 then sub32 0 n else int_min))
      × (read_u (decimal n) ≡ (if ltb n (2 ^ 20) then n else int_min))
      × (read_u (b'-' ∷ decimal n) ≡ (if n == 0 then 0 else int_min))
unfolding read_i read_s read_r read_u
read-decimal n h =
    let (e₁, e₂) = read_number-decimal n (omega arith) in
    let no_prefix = has_prefix-after_minus (decimal n) (decimal_from-is_numeral 9 n [] refl) in
    let no_prefix_minus = has_prefix-decimal n in
    (
      ground (arith, e₁),
      ground (arith, e₂),
      ground (arith, e₁),
      ground (arith, e₂),
      ground (arith, e₁),
      ground (arith, e₂),
      ground (arith, e₁, no_prefix),
      ground (arith, e₂, no_prefix_minus),
    )
