-- ===== src/Programs/Sums.antt =====
-- Finite sums, to count the places of an array and what is written to them.
use risc_v_microarchitecture.Base.{
  ℕ, zero, suc, ◌+◌, ◌≤◌, ◌<◌, ◌≡◌, refl, sym, ap, arith, ◌==◌, inl, inr, le_or_lt,
}
use risc_v_microarchitecture.Programs.Array.{bit, occurrences}

unfoldable pub sum : ℕ → (ℕ → ℕ) → ℕ
sum zero f = 0
sum (suc n) f = sum n f + f n

pub sum_cong : (n : ℕ) (f g : ℕ → ℕ) → ((k : ℕ) → k < n → f k ≡ g k) → sum n f ≡ sum n g
unfolding sum
sum_cong zero f g h = refl
sum_cong (suc n) f g h = omega (arith, h n (omega arith), sum_cong n f g λ k p. h k (omega arith))

pub sum_zero : (n : ℕ) (f : ℕ → ℕ) → ((k : ℕ) → k < n → f k ≡ 0) → sum n f ≡ 0
unfolding sum
sum_zero zero f h = refl
sum_zero (suc n) f h = omega (arith, h n (omega arith), sum_zero n f λ k p. h k (omega arith))

sum_add : (n : ℕ) (f g : ℕ → ℕ) → sum n (λ k. f k + g k) ≡ sum n f + sum n g
unfolding sum
sum_add zero f g = refl
sum_add (suc n) f g = omega (arith, sum_add n f g)

pub sum_ones : (n : ℕ) → sum n (λ k. 1) ≡ n
unfolding sum
sum_ones zero = refl
sum_ones (suc n) = omega (arith, sum_ones n)

-- The order of two sums does not matter.
pub sum_swap :
    (m n : ℕ) (f : ℕ → ℕ → ℕ) → sum m (λ i. sum n (λ j. f i j)) ≡ sum n (λ j. sum m (λ i. f i j))
unfolding sum
sum_swap zero n f = sym (sum_zero n (λ j. 0) λ k p. refl)
sum_swap (suc m) n f =
    omega (arith, sum_swap m n f, sum_add n (λ j. sum m (λ i. f i j)) (λ j. f m j))

-- One place only counts.
pub sum_single :
    (n x : ℕ) (f : ℕ → ℕ)
    → x < n
    → ((k : ℕ) → k < n → k < x → f k ≡ 0)
    → ((k : ℕ) → k < n → x < k → f k ≡ 0)
    → sum n f ≡ f x
unfolding sum
sum_single zero x f h lo hi = absurd (omega arith)
sum_single (suc n) x f h lo hi = elim (le_or_lt n x) [
  | inl p ↦
      let e : x ≡ n = omega arith in
      omega (arith, ap f e, sum_zero n f λ k q. lo k (omega arith) (omega arith))
  | inr p ↦ omega (
    arith,
    hi n (omega arith) p,
    sum_single n x f p (λ k q r. lo k (omega arith) r) λ k q r. hi k (omega arith) r,
  )
]

pub sum-find : (n : ℕ) (f : ℕ → ℕ) → 0 < sum n f → (k : ℕ) × (k < n) × (0 < f k)
unfolding sum
sum-find zero f h = absurd (omega arith)
sum-find (suc n) f h = elim (le_or_lt (f n) 0) [
  | inl p ↦ let (k, l, e) = sum-find n f (omega arith) in (k, omega arith, e)
  | inr p ↦ (n, omega arith, p)
]

sum_le : (n : ℕ) (f : ℕ → ℕ) → ((k : ℕ) → k < n → f k ≤ 1) → sum n f ≤ n
unfolding sum
sum_le zero f h = omega arith
sum_le (suc n) f h = omega (arith, h n (omega arith), sum_le n f λ k p. h k (omega arith))

-- Where at most one is put in each place and all are used up, each place has one.
pub sum_full :
    (n : ℕ) (f : ℕ → ℕ) → ((k : ℕ) → k < n → f k ≤ 1) → sum n f ≡ n → (k : ℕ) → k < n → f k ≡ 1
unfolding sum
sum_full zero f h e k p = absurd (omega arith)
sum_full (suc n) f h e k p =
    let rest = sum_le n f λ k p. h k (omega arith) in
    let last = h n (omega arith) in
    elim (le_or_lt n k) [
      | inl q ↦ let e' : k ≡ n = omega arith in omega (arith, ap f e')
      | inr q ↦ sum_full n f (λ k p. h k (omega arith)) (omega arith) k q
    ]

pub occurrences-sum :
    (v : ℕ) (a : ℕ → ℕ) (n : ℕ) → occurrences v a 0 n ≡ sum n (λ k. bit (a k == v))
unfolding occurrences sum
occurrences-sum v a zero = refl
occurrences-sum v a (suc n) =
    let zero_add : 0 + n ≡ n = omega arith in rw (zero_add, occurrences-sum v a n) refl
