-- ===== src/Programs/RadixSort/Count.antt =====
-- What the counting loops of programs/c/radix_sort.c leave in `count`.
use risc_v_microarchitecture.Base.{
  ℕ, zero, suc, ◌+◌, ◌^◌, ◌≤◌, ◌<◌, ◌≡◌, refl, arith, ◌==◌, ltb, Bool-cases, inl, inr, le_or_lt,
  add32, Run, ok, true,
}
use risc_v_microarchitecture.Programs.Array.{bit, set, occurrences}
use risc_v_microarchitecture.Programs.RadixSort.{
  write, for_up, digit, clear_count, count_digits, prefix_sums,
}

-- How many of the first `n` digits are below `d`.
unfoldable pub rank : (ℕ → ℕ) → ℕ → ℕ → ℕ
rank digits n zero = 0
rank digits n (suc d) = rank digits n d + occurrences d digits 0 n

module _ (digits : ℕ → ℕ) where
  occurrences_le : (d n : ℕ) → occurrences d digits 0 n ≤ n
  unfolding occurrences
  occurrences_le d zero = omega arith
  occurrences_le d (suc n) = ground (arith, occurrences_le d n)

  rank-suc : (n d : ℕ) → rank digits (suc n) d ≡ rank digits n d + bit (ltb (digits n) d)
  unfolding rank occurrences
  rank-suc n zero = ground arith
  rank-suc n (suc d) =
      let zero_add : 0 + n ≡ n = omega arith in ground (arith, rank-suc n d, zero_add)

  pub rank_le : (n d : ℕ) → rank digits n d ≤ n
  unfolding rank occurrences
  rank_le zero zero = omega arith
  rank_le zero (suc d) = omega (arith, rank_le zero d)
  rank_le (suc n) d = ground (arith, rank-suc n d, rank_le n d)

  pub rank_mono : (n d e : ℕ) → d ≤ e → rank digits n d ≤ rank digits n e
  unfolding rank
  rank_mono n d zero h = let e : d ≡ 0 = omega arith in rw e (omega arith)
  rank_mono n d (suc e) h = elim (le_or_lt d e) [
    | inl p ↦ omega (arith, rank_mono n d e p)
    | inr p ↦ let e' : d ≡ suc e = omega arith in rw e' (omega arith)
  ]

-- The loop `for_up` with a body that has no access to check.
abbrev pub rounds {ℓ} : {S : Type ℓ} → ℕ → (ℕ → S → S) → S → S
rounds zero next s = s
rounds (suc n) next s = next n (rounds n next s)

pub for_up-rounds {ℓ} :
    {S : Type ℓ} (n : ℕ) (body : ℕ → S → Run S) (next : ℕ → S → S) (s : S)
    → ((i : ℕ) → i < n → (t : S) → body i t ≡ ok (next i t))
    → for_up n body s ≡ ok (rounds n next s)
unfolding for_up
for_up-rounds zero body next s h = refl
for_up-rounds (suc n) body next s h =
    rw (for_up-rounds n body next s (λ i p. h i (omega arith))) (h n (omega arith) _)

-- The three loops, without the accesses to check.
unfoldable pub zeros : (ℕ → ℕ) → ℕ → ℕ
zeros count = rounds 256 (λ i c. set c i 0) count

unfoldable pub tally : ℕ → (ℕ → ℕ) → (ℕ → ℕ) → ℕ → ℕ
tally n digits count = rounds n (λ i c. set c (digits i) (add32 (c (digits i)) 1)) count

unfoldable pub sums : (ℕ → ℕ) → ℕ → ℕ
sums count = rounds 255 (λ i c. set c (suc i) (add32 (c (suc i)) (c i))) count

cleared : (m : ℕ) (count : ℕ → ℕ) (d : ℕ) → d < m → rounds m (λ i c. set c i 0) count d ≡ 0
cleared zero count d h = absurd (omega arith)
cleared (suc m) count d h = ground (arith, cleared m count d)

-- After the counting loop: the number of entries with each digit.
tally_lem :
    (n : ℕ) (digits count : ℕ → ℕ) (d : ℕ)
    → n < 2 ^ 32
    → d < 256
    → tally n digits (zeros count) d ≡ occurrences d digits 0 n
unfolding tally zeros occurrences
tally_lem zero digits count d h l = cleared 256 count d l
tally_lem (suc n) digits count d h l =
    let rest = tally_lem n digits count d (omega arith) l in
    let zero_add : 0 + n ≡ n = omega arith in
    elim (Bool-cases (digits n == d)) [
      | inl t ↦
          let e : digits n ≡ d = ground arith in
          ground (arith, rest, zero_add, occurrences_le digits d n)
      | inr t ↦ ground (arith, rest, zero_add)
    ]

module _ (n : ℕ) (digits count : ℕ → ℕ) (small : n < 2 ^ 32)
    (counted : (d : ℕ) → d < 256 → count d ≡ occurrences d digits 0 n) where
  -- After `m` rounds: the sums up to `m`, and the counts behind it.
  summed : ℕ → ℕ → ℕ
  summed m = rounds m (λ i c. set c (suc i) (add32 (c (suc i)) (c i))) count

  summed-behind : (m d : ℕ) → m < d → d < 256 → summed m d ≡ occurrences d digits 0 n
  unfolding summed
  summed-behind zero d h l = counted d l
  summed-behind (suc m) d h l = ground (arith, summed-behind m d)

  summed-upto : (m d : ℕ) → m < 256 → d ≤ m → summed m d ≡ rank digits n (suc d)
  unfolding summed rank
  summed-upto zero d h l =
      let e : d ≡ 0 = omega arith in rw e (omega (arith, counted 0 (omega arith)))
  summed-upto (suc m) d h l = elim (le_or_lt d m) [
    | inl p ↦ ground (arith, summed-upto m d (omega arith) p)
    | inr p ↦
        let e : d ≡ suc m = omega arith in
        let low = summed-upto m m (omega arith) (omega arith) in
        let here = summed-behind m (suc m) (omega arith) h in
        let bound = rank_le digits n (suc (suc m)) in rw e (ground (arith, low, here, bound))
  ]

pub sums_lem :
    (n : ℕ) (digits count : ℕ → ℕ) (d : ℕ)
    → n < 2 ^ 32
    → d < 256
    → sums (tally n digits (zeros count)) d ≡ rank digits n (suc d)
unfolding sums summed
sums_lem n digits count d h l =
    summed-upto n digits (tally n digits (zeros count)) h (λ d p. tally_lem n digits count d h p)
      255 d (omega arith) (omega arith)

-- The three loops make no access outside the arrays.
pub clear_count-zeros : (count : ℕ → ℕ) → clear_count count ≡ ok (zeros count)
unfolding clear_count zeros write
clear_count-zeros count =
    for_up-rounds 256 (λ i c. write 256 c i 0) (λ i c. set c i 0) count λ i p t. ground arith

pub count_digits-tally :
    (n shift : ℕ) (arr count : ℕ → ℕ)
    → ((k : ℕ) → digit shift (arr k) < 256)
    → count_digits n shift arr count ≡ ok (tally n (λ k. digit shift (arr k)) count)
unfolding count_digits tally write
count_digits-tally n shift arr count below =
    for_up-rounds n _ (λ i c. set c (digit shift (arr i)) (add32 (c (digit shift (arr i))) 1)) count
      λ i p t.
        let inside : ltb i n ≡ true = ground arith in
        let counted : ltb (digit shift (arr i)) 256 ≡ true = ground (arith, below i) in
        rw (inside, counted) refl

pub prefix_sums-sums : (count : ℕ → ℕ) → prefix_sums count ≡ ok (sums count)
unfolding prefix_sums sums write
prefix_sums-sums count =
    for_up-rounds 255 _ (λ i c. set c (suc i) (add32 (c (suc i)) (c i))) count
      λ i p t.
        let here : ltb i 256 ≡ true = ground arith in
        let next : ltb (suc i) 256 ≡ true = ground arith in rw (next, here) refl
