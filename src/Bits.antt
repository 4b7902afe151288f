-- ===== src/Bits.antt =====
-- `&` with a field mask and `|` of disjoint fields, as arithmetic.
use Prim.Native.Nat.{digits, bit_and-bitwise, bit_or-bitwise}
use native.Mathlib.Nat.{pow-suc}
use risc_v_microarchitecture.Base.{
  ℕ, zero, suc, ◌+◌, ◌*◌, ◌/◌, ◌%◌, ◌^◌, ◌≤◌, ◌<◌, ◌-◌, min, max, bit_and, bit_or, ◌≡◌, refl, sym,
  ap, ◌∙◌, arith,
}

-- The digit recursion behind the native operations does not depend on its fuel.
module _ (top : ℕ → ℕ) (f : ℕ → ℕ → ℕ) where
  enough_fuel : (n m a b : ℕ) → a ≤ n → a ≤ m → digits top f n a b ≡ digits top f m a b
  enough_fuel n m zero b p q = at_zero n ∙ sym (at_zero m)
    where
      at_zero : (k : ℕ) → digits top f k zero b ≡ top b
      at_zero zero = refl
      at_zero (suc k) = refl
  enough_fuel zero m (suc a) b p q = absurd (omega arith)
  enough_fuel (suc n) zero (suc a) b p q = absurd (omega arith)
  enough_fuel (suc n) (suc m) (suc a) b p q =
      rw (enough_fuel n m (suc a / 2) (b / 2) (omega arith) (omega arith))

and_digit : (a b : ℕ) → bit_and a b ≡ 2 * bit_and (a / 2) (b / 2) + min (a % 2) (b % 2)
and_digit zero b = simp bit_and-bitwise (omega arith)
and_digit (suc a) b = simp bit_and-bitwise (
    omega (
      arith,
      enough_fuel (λ _. 0) min a (suc a / 2) (suc a / 2) (b / 2) (omega arith) (omega arith),
    ))

or_digit : (a b : ℕ) → bit_or a b ≡ 2 * bit_or (a / 2) (b / 2) + max (a % 2) (b % 2)
or_digit zero b = simp bit_or-bitwise (omega arith)
or_digit (suc a) b = simp bit_or-bitwise (
    omega (
      arith,
      enough_fuel (λ c. c) max a (suc a / 2) (suc a / 2) (b / 2) (omega arith) (omega arith),
    ))

zero-or : (n a : ℕ) → a ≤ n → (bit_and a 0 ≡ 0) × (bit_or a 0 ≡ a) × (bit_or 0 a ≡ a)
zero-or n zero h = (refl, refl, refl)
zero-or zero (suc a) h = absurd (omega arith)
zero-or (suc n) (suc a) h = omega (
  arith,
  and_digit (suc a) 0,
  or_digit (suc a) 0,
  or_digit 0 (suc a),
  zero-or n (suc a / 2) (omega arith),
)

pub or-zero : (a : ℕ) → bit_or a 0 ≡ a
or-zero a = (zero-or a a (omega arith)).1

zero-or_left : (a : ℕ) → bit_or 0 a ≡ a
zero-or_left a = (zero-or a a (omega arith)).2

pub and-zero : (a : ℕ) → bit_and a 0 ≡ 0
and-zero a = (zero-or a a (omega arith)).0

pub double : (q k : ℕ) → q * 2 ^ suc k ≡ 2 * (q * 2 ^ k)
double q k = omega (arith, ap (λ (t : ℕ). q * t) (pow-suc 2 k))

-- A mask that is zero below bit `k` keeps what it keeps of the bits from `k` on.
and_high : (k q r m : ℕ) → r < 2 ^ k → bit_and (q * 2 ^ k + r) (m * 2 ^ k) ≡ bit_and q m * 2 ^ k
and_high zero q r m h = ground arith
and_high (suc k) q r m h = ground (
  arith,
  and_digit (q * 2 ^ suc k + r) (m * 2 ^ suc k),
  double q k,
  double m k,
  double (bit_and q m) k,
  pow-suc 2 k,
  and_high k q (r / 2) m,
)

-- `|` of two fields that do not overlap is their sum.
pub or_fields : (k q r : ℕ) → r < 2 ^ k → bit_or r (q * 2 ^ k) ≡ r + q * 2 ^ k
or_fields zero q r h = ground (arith, zero-or_left q)
or_fields (suc k) q r h =
    ground (arith, or_digit r (q * 2 ^ suc k), double q k, pow-suc 2 k, or_fields k q (r / 2))

and_low_parts : (w q r : ℕ) → r < 2 ^ w → bit_and (q * 2 ^ w + r) (2 ^ w - 1) ≡ r
and_low_parts zero q r h = ground (arith, and-zero (q + r))
and_low_parts (suc w) q r h = ground (
  arith,
  and_digit (q * 2 ^ suc w + r) (2 ^ suc w - 1),
  double q w,
  pow-suc 2 w,
  and_low_parts w q (r / 2),
)

-- `&` with `w` low ones is the remainder by `2 ^ w`.
pub and_ones : (w a : ℕ) → 0 < 2 ^ w → bit_and a (2 ^ w - 1) ≡ a % 2 ^ w
and_ones w a h = ground (arith, and_low_parts w (a / 2 ^ w) (a % 2 ^ w))

-- `&` with `w` ones at bit `k` takes the field of `w` bits there, in place.
pub and_field :
    (k w a : ℕ)
    → 0 < 2 ^ k
    → 0 < 2 ^ w
    → bit_and a ((2 ^ w - 1) * 2 ^ k) ≡ a / 2 ^ k % 2 ^ w * 2 ^ k
and_field k w a hk hw =
    ground (arith, and_high k (a / 2 ^ k) (a % 2 ^ k) (2 ^ w - 1), and_ones w (a / 2 ^ k))

or_and_fuel : (n a b : ℕ) → a ≤ n → b ≤ n → bit_or a b + bit_and a b ≡ a + b
or_and_fuel zero a b p q =
    let ea : a ≡ 0 = omega arith in let eb : b ≡ 0 = omega arith in rw (ea, eb)
or_and_fuel (suc n) zero zero p q = refl
or_and_fuel (suc n) (suc a) b p q = omega (
  arith,
  or_digit (suc a) b,
  and_digit (suc a) b,
  or_and_fuel n (suc a / 2) (b / 2) (omega arith) (omega arith),
)
or_and_fuel (suc n) zero (suc b) p q = omega (
  arith,
  or_digit 0 (suc b),
  and_digit 0 (suc b),
  or_and_fuel n 0 (suc b / 2) (omega arith) (omega arith),
)

-- `|` and `&` together hold the bits of both operands.
or_and_sum : (a b : ℕ) → bit_or a b + bit_and a b ≡ a + b
or_and_sum a b = or_and_fuel (a + b) a b (omega arith) (omega arith)

and_small : (w q r f : ℕ) → r < 2 ^ w → f < 2 ^ w → bit_and (q * 2 ^ w + r) f ≡ bit_and r f
and_small zero q r f hr hf =
    let er : r ≡ 0 = omega arith in let ef : f ≡ 0 = omega arith in ground (arith, and-zero (q + 0))
and_small (suc w) q r f hr hf = ground (
  arith,
  and_digit (q * 2 ^ suc w + r) f,
  and_digit r f,
  double q w,
  pow-suc 2 w,
  and_small w q (r / 2) (f / 2),
)

zero-and : (a : ℕ) → bit_and 0 a ≡ 0
zero-and a = omega (arith, or_and_sum 0 a, zero-or_left a)

-- A field of `w` bits put by `|` where the word has zeros is added.
pub or_at :
    (k w x f : ℕ)
    → 0 < 2 ^ k
    → 0 < 2 ^ w
    → f < 2 ^ w
    → x / 2 ^ k % 2 ^ w ≡ 0
    → bit_or x (f * 2 ^ k) ≡ x + f * 2 ^ k
or_at k w x f hk hw hf free = ground (
  arith,
  or_and_sum x (f * 2 ^ k),
  and_high k (x / 2 ^ k) (x % 2 ^ k) f,
  and_small w (x / 2 ^ k / 2 ^ w) (x / 2 ^ k % 2 ^ w) f,
  zero-and f,
)
