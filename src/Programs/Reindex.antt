-- ===== src/Programs/Reindex.antt =====
-- An array whose entries are those of another at places of their own.
use risc_v_microarchitecture.Base.{
  ℕ, zero, suc, ◌≤◌, ◌<◌, ◌≡◌, sym, ◌∙◌, ap, arith, ◌==◌, if◌then◌else◌, Bool-cases, inl, inr,
}
use risc_v_microarchitecture.Programs.Array.{bit, occurrences}
use risc_v_microarchitecture.Programs.Sums.{
  sum, sum_cong, sum_zero, sum_ones, sum_swap, sum_single, sum-find, sum_full, occurrences-sum,
}

module _ (n : ℕ) (pos : ℕ → ℕ) (inside : (k : ℕ) → k < n → pos k < n)
    (injective : (k l : ℕ) → k < n → l < n → pos k ≡ pos l → k ≡ l) where
  -- How many of the first `m` places go to `y`.
  arrivals : ℕ → ℕ → ℕ
  arrivals m y = sum m λ k. bit (pos k == y)

  arrivals_le : (y m : ℕ) → m ≤ n → arrivals m y ≤ 1
  unfolding arrivals sum
  arrivals_le y zero h = omega arith
  arrivals_le y (suc m) h = elim (Bool-cases (pos m == y)) [
    | inl t ↦
        let none_before : sum m (λ k. bit (pos k == y)) ≡ 0 =
          sum_zero m _ λ k p. ground (arith, injective k m) in
        ground arith
    | inr t ↦ ground (arith, arrivals_le y m)
  ]

  arrivals_one : (y : ℕ) → y < n → arrivals n y ≡ 1
  unfolding arrivals
  arrivals_one y h =
      sum_full n (λ y. sum n λ k. bit (pos k == y)) (λ y p. arrivals_le y n (omega arith))
        (sum_swap n n (λ y k. bit (pos k == y))
          ∙ sum_cong n _ (λ k. 1)
              (λ k p.
                sum_single n (pos k) (λ y. bit (pos k == y)) (inside k p) (λ y q r. ground arith)
                  (λ y q r. ground arith)
                ∙ ground arith)
          ∙ sum_ones n)
        y h

  -- Every place is taken.
  pub taken : (y : ℕ) → y < n → (k : ℕ) × (k < n) × (pos k ≡ y)
  unfolding arrivals
  taken y h =
      let (k, p, e) = sum-find n (λ k. bit (pos k == y)) (omega (arith, arrivals_one y h)) in
      (k, p, ground arith)

  -- So every value is there as often as in the other array.
  module _ (a b : ℕ → ℕ) (moved : (k : ℕ) → k < n → b (pos k) ≡ a k) where
    hits : ℕ → ℕ → ℕ → ℕ
    hits v y k = if pos k == y then bit (a k == v) else 0

    hits_column : (v k : ℕ) → k < n → sum n (λ y. hits v y k) ≡ bit (a k == v)
    unfolding hits
    hits_column v k h =
        sum_single n (pos k) (λ y. hits v y k) (inside k h) (λ y p q. ground arith)
          (λ y p q. ground arith)
        ∙ ground arith

    hits_row : (v y : ℕ) → y < n → sum n (λ k. hits v y k) ≡ bit (b y == v)
    unfolding hits
    hits_row v y h =
        let (k, p, e) = taken y h in
        sum_single n k (λ k. hits v y k) p (λ l q r. ground (arith, injective k l))
          (λ l q r. ground (arith, injective k l))
        ∙ ground (arith, moved k p, ap b e)

    pub occurrences-reindex : (v : ℕ) → occurrences v b 0 n ≡ occurrences v a 0 n
    occurrences-reindex v =
        occurrences-sum v b n
        ∙ sum_cong n _ _ (λ y p. sym (hits_row v y p))
        ∙ sum_swap n n (λ y k. hits v y k)
        ∙ sum_cong n _ _ (hits_column v)
        ∙ sym (occurrences-sum v a n)
