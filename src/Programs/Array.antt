-- ===== src/Programs/Array.antt =====
-- Global arrays of the programs in programs/c: a function of the index, with the number of entries
-- beside it.
use risc_v_microarchitecture.Base.{
  ℕ, zero, suc, ◌+◌, ◌≤◌, ◌<◌, ◌≡◌, refl, ap, sym, ◌∙◌, arith, ◌==◌, ltb, if◌then◌else◌, Bool, true,
  false, Run, ok, fault, le_or_lt, inl, inr, Bool-cases,
}

-- `a[i]`, of an array with `n` entries.
abbrev pub read : ℕ → (ℕ → ℕ) → ℕ → Run ℕ
read n a i = if ltb i n then ok (a i) else fault

-- `a[i] = x`
abbrev pub set : (ℕ → ℕ) → ℕ → ℕ → ℕ → ℕ
set a i x k = if k == i then x else a k

abbrev pub bit : Bool → ℕ
bit true = 1
bit false = 0

-- How many of the `n` entries from `lo` on are `v`.
unfoldable pub occurrences : ℕ → (ℕ → ℕ) → ℕ → ℕ → ℕ
occurrences v a lo zero = 0
occurrences v a lo (suc n) = occurrences v a lo n + bit (a (lo + n) == v)

-- The entries ascend in the places from `lo` up to `end`.
abbrev pub IsAscending : (ℕ → ℕ) → ℕ → ℕ → Type 0
IsAscending a lo end = (i j : ℕ) → lo ≤ i → i ≤ j → j < end → a i ≤ a j

-- The first `n` entries ascend, and hold every value as often as those of `a`.
pub record SortedFrom (n : ℕ) (a b : ℕ → ℕ) : Type 0 where
  pub ascending : (i j : ℕ) → i ≤ j → j < n → b i ≤ b j
  pub kept : (v : ℕ) → occurrences v b 0 n ≡ occurrences v a 0 n

pub occurrences_cong :
    (v : ℕ) (a b : ℕ → ℕ) (lo n : ℕ)
    → ((k : ℕ) → lo ≤ k → k < lo + n → a k ≡ b k)
    → occurrences v a lo n ≡ occurrences v b lo n
unfolding occurrences
occurrences_cong v a b lo zero h = refl
occurrences_cong v a b lo (suc n) h =
    let rest = occurrences_cong v a b lo n λ k p q. h k p (omega arith) in
    let last : a (lo + n) ≡ b (lo + n) = h (lo + n) (omega arith) (omega arith) in
    rw (rest, last) refl

-- A write trades the old entry for the new one.
pub occurrences-set :
    (v : ℕ) (a : ℕ → ℕ) (lo n i x : ℕ)
    → lo ≤ i
    → i < lo + n
    → occurrences v (set a i x) lo n + bit (a i == v) ≡ occurrences v a lo n + bit (x == v)
unfolding occurrences
occurrences-set v a lo zero i x l h = absurd (omega arith)
occurrences-set v a lo (suc n) i x l h = elim (le_or_lt (lo + n) i) [
  | inl p ↦
      let e : i ≡ lo + n = omega arith in
      let rest : occurrences v (set a i x) lo n ≡ occurrences v a lo n =
        occurrences_cong v (set a i x) a lo n λ k q r. ground arith in
      let old : a i ≡ a (lo + n) = ap a e in
      let new : set a i x (lo + n) ≡ x = ground arith in rw (new, rest, old) (omega arith)
  | inr p ↦
      let new : set a i x (lo + n) ≡ a (lo + n) = ground arith in
      let rest = occurrences-set v a lo n i x l p in rw new (omega (arith, rest))
]

-- arr[i] and arr[j] change places, through `temp`.
abbrev pub swap : (ℕ → ℕ) → ℕ → ℕ → ℕ → ℕ
swap a i j = set (set a i (a j)) j (a i)

pub occurrences-swap :
    (v : ℕ) (a : ℕ → ℕ) (n i j : ℕ)
    → i < n
    → j < n
    → occurrences v (swap a i j) 0 n ≡ occurrences v a 0 n
occurrences-swap v a n i j hi hj =
    let first = occurrences-set v a 0 n i (a j) (omega arith) (omega arith) in
    let second = occurrences-set v (set a i (a j)) 0 n j (a i) (omega arith) (omega arith) in
    let middle : set a i (a j) j ≡ a j = ground arith in omega (arith, first, rw middle at second)

-- What occurs stands somewhere.
pub occurrences-find :
    (v : ℕ) (a : ℕ → ℕ) (lo n : ℕ)
    → 0 < occurrences v a lo n
    → (k : ℕ) × (lo ≤ k) × (k < lo + n) × (a k ≡ v)
unfolding occurrences
occurrences-find v a lo zero h = absurd (omega arith)
occurrences-find v a lo (suc n) h = elim (Bool-cases (a (lo + n) == v)) [
  | inl t ↦ (lo + n, omega arith, omega arith, ground arith)
  | inr t ↦ let (k, l, u, e) = occurrences-find v a lo n (ground arith) in (k, l, omega arith, e)
]

pub occurrences-pos : (a : ℕ → ℕ) (lo n k : ℕ) → lo ≤ k → k < lo + n → 0 < occurrences (a k) a lo n
unfolding occurrences
occurrences-pos a lo zero k l h = absurd (omega arith)
occurrences-pos a lo (suc n) k l h = elim (le_or_lt (lo + n) k) [
  | inl p ↦ let e : k ≡ lo + n = omega arith in let here : a k ≡ a (lo + n) = ap a e in ground arith
  | inr p ↦ omega (arith, occurrences-pos a lo n k l p)
]

-- The ascending arrangement of given entries is unique.
pub ascending_unique :
    (a b : ℕ → ℕ) (n : ℕ)
    → IsAscending a 0 n
    → IsAscending b 0 n
    → ((v : ℕ) → occurrences v a 0 n ≡ occurrences v b 0 n)
    → (k : ℕ) → k < n
    → a k ≡ b k
unfolding occurrences
ascending_unique a b zero sa sb h k hk = absurd (omega arith)
ascending_unique a b (suc n) sa sb h k hk =
    let (i, _, hi, ei) =
      occurrences-find (a n) b 0 (suc n)
        (omega (arith, h (a n), occurrences-pos a 0 (suc n) n (omega arith) (omega arith))) in
    let (j, _, hj, ej) =
      occurrences-find (b n) a 0 (suc n)
        (omega (arith, h (b n), occurrences-pos b 0 (suc n) n (omega arith) (omega arith))) in
    let last : a n ≡ b n = omega (
      arith,
      ei,
      ej,
      sb i n (omega arith) (omega arith) (omega arith),
      sa j n (omega arith) (omega arith) (omega arith),
    ) in
    let rest =
      ascending_unique a b n (λ i j p q r. sa i j p q (omega arith))
        (λ i j p q r. sb i j p q (omega arith))
        (λ v.
          let zero_add : 0 + n ≡ n = omega arith in
          let same : bit (a (0 + n) == v) ≡ bit (b (0 + n) == v) =
            rw zero_add (ap (λ x. bit (x == v)) last) in
          omega (arith, h v, same)) in
    elim (le_or_lt n k) [
      | inl p ↦ let e : k ≡ n = omega arith in ap a e ∙ last ∙ sym (ap b e)
      | inr p ↦ rest k p
    ]
