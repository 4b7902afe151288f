-- ===== src/Programs/QuickSort/Partition.antt =====
-- The two scans and the loop of `quick_sort` around them.
use risc_v_microarchitecture.Base.{
  ℕ, zero, suc, ◌+◌, ◌-◌, ◌≤◌, ◌<◌, ◌≡◌, refl, arith, Bool-cases, ltb, inl, inr, ok, le_or_lt, ◌⊎◌,
  if-split, true, ◌∙◌,
}
use risc_v_microarchitecture.Programs.Array.{swap}
use risc_v_microarchitecture.Programs.QuickSort.{Split, scan_up, scan_down, exchange, partition}
use risc_v_microarchitecture.Programs.QuickSort.Rearranged.{
  Rearranged, Rearranged-refl, Rearranged-trans, Rearranged-swap,
}

module _ (n : ℕ) (a : ℕ → ℕ) (pivot : ℕ) where
  -- An entry that is not below the pivot stops the scan at or before it.
  pub scan_up_stops :
      (left_over i m : ℕ)
      → i + left_over ≡ n
      → i ≤ m
      → m < n
      → pivot ≤ a m
      → (i' : ℕ) × (scan_up n left_over a pivot i ≡ ok i')
        × (i ≤ i')
        × (i' ≤ m)
        × (pivot ≤ a i')
        × ((k : ℕ) → i ≤ k → k < i' → a k < pivot)
  unfolding scan_up
  scan_up_stops zero i m e l h p = absurd (omega arith)
  scan_up_stops (suc left_over) i m e l h p = elim (Bool-cases (ltb (a i) pivot)) [
    | inl t ↦
        let (i', e', l', h', p', below) =
          scan_up_stops left_over (suc i) m (omega arith) (ground arith) h p in
        (i', ground (arith, e'), omega arith, h', p', λ k q r. ground (arith, below k))
    | inr t ↦ (i, ground arith, omega arith, l, ground arith, λ k q r. absurd (omega arith))
  ]

  pub scan_down_stops :
      (past_j m : ℕ)
      → past_j ≤ n
      → m < past_j
      → a m ≤ pivot
      → (j' : ℕ) × (scan_down n a pivot past_j ≡ ok (suc j'))
        × (suc j' ≤ past_j)
        × (m ≤ j')
        × (a j' ≤ pivot)
        × ((k : ℕ) → suc j' ≤ k → k < past_j → pivot < a k)
  unfolding scan_down
  scan_down_stops zero m h l p = absurd (omega arith)
  scan_down_stops (suc j) m h l p = elim (Bool-cases (ltb pivot (a j))) [
    | inl t ↦
        let (j', e', h', l', p', above) = scan_down_stops j m (omega arith) (ground arith) p in
        (j', ground (arith, e'), omega arith, l', p', λ k q r. ground (arith, above k))
    | inr t ↦
        (j, ground arith, omega arith, omega arith, ground arith, λ k q r. absurd (omega arith))
  ]

-- The part of the array between `left` and `end` that the loop has dealt with.
pub record IsSplit (n left end pivot : ℕ) (a : ℕ → ℕ) (s : Split) : Type 0 where
  pub inside : (left ≤ s.i) × (s.i ≤ end) × (left ≤ s.past_j) × (s.past_j ≤ end)
  pub low : (k : ℕ) → left ≤ k → k < s.i → s.arr k ≤ pivot
  pub high : (k : ℕ) → s.past_j ≤ k → k < end → pivot ≤ s.arr k
  pub same : Rearranged n left end a s.arr

-- What the loop leaves: the places from `left` up to `end` in two parts, both shorter.
abbrev pub IsParted : ℕ → ℕ → ℕ → ℕ → (ℕ → ℕ) → Split → Type 0
IsParted n left end pivot a t =
    IsSplit n left end pivot a t × (left < t.i) × (t.past_j < end) × (t.past_j ≤ t.i)

module _ (n left end pivot : ℕ) (a : ℕ → ℕ) (small : end ≤ n) where
  -- Where the scans of a round have stopped, the exchange keeps the two parts.
  exchange-IsSplit :
      (s : Split) (i j : ℕ)
      → IsSplit n left end pivot a s
      → s.i ≤ i
      → i < end
      → left ≤ j
      → suc j ≤ s.past_j
      → pivot ≤ s.arr i
      → s.arr j ≤ pivot
      → ((k : ℕ) → s.i ≤ k → k < i → s.arr k < pivot)
      → ((k : ℕ) → suc j ≤ k → k < s.past_j → pivot < s.arr k)
      → IsSplit n left end pivot a (exchange n s.arr i (suc j))
  unfolding exchange
  exchange-IsSplit s i j v li hi lj hj pi pj below above =
      let swapped =
        Rearranged-swap n left end i (suc j - 1) s.arr small (omega (arith, v.inside)) hi
          (omega arith) (omega (arith, v.inside)) in
      record {
        inside = ground (arith, v.inside);
        low = λ k l h. ground (arith, v.low k, below k);
        high = λ k l h. ground (arith, v.high k, above k);
        same =
            if-split (λ (t : Split). Rearranged n left end a t.arr) (ltb i (suc j))
              (record { arr = swap s.arr i (suc j - 1); i = suc i; past_j = suc j - 1 })
              (record { arr = s.arr; i = i; past_j = suc j })
              (Rearranged-trans n left end a s.arr _ v.same swapped) v.same;
      }

  -- A round in which each scan has an entry to stop at.
  round-IsSplit :
      (fuel m m' : ℕ) (s : Split)
      → IsSplit n left end pivot a s
      → s.i < s.past_j
      → s.i ≤ m
      → m < end
      → pivot ≤ s.arr m
      → left ≤ m'
      → m' < s.past_j
      → s.arr m' ≤ pivot
      → (m ≤ m') ⊎ ((left < s.i) × (s.past_j < end))
      → (t : Split) × (partition n (suc fuel) pivot s ≡ partition n fuel pivot t)
        × IsSplit n left end pivot a t
        × (left < t.i)
        × (t.past_j < end)
        × (t.past_j - t.i < s.past_j - s.i)
  unfolding partition exchange
  round-IsSplit fuel m m' s v more lm hm pm lm' hm' pm' start =
      let (i, e, li, hi, pi, below) =
        scan_up_stops n s.arr pivot (n - s.i) s.i m (omega arith) lm (omega arith) pm in
      let (j, e', hj, lj, pj, above) =
        scan_down_stops n s.arr pivot s.past_j m' (omega (arith, v.inside)) hm' pm' in
      let t = exchange n s.arr i (suc j) in
      let run : partition n (suc fuel) pivot s ≡ partition n fuel pivot t =
        let test : ltb s.i s.past_j ≡ true = ground arith in rw (test, e, e') refl in
      let v' = exchange-IsSplit s i j v li (omega arith) (omega arith) hj pi pj below above in
      (t, run, v', ground arith, ground arith, ground arith)

  later_rounds :
      (fuel : ℕ) (s : Split)
      → IsSplit n left end pivot a s
      → left < s.i
      → s.past_j < end
      → s.past_j - s.i < fuel
      → (t : Split) × (partition n fuel pivot s ≡ ok t) × IsParted n left end pivot a t
  unfolding partition
  later_rounds zero s v hi hj f = absurd (omega arith)
  later_rounds (suc fuel) s v hi hj f = elim (le_or_lt s.past_j s.i) [
    | inl q ↦ (s, ground arith, (v, hi, hj, q))
    | inr q ↦
        let (t, e, v', hi', hj', d) =
          round-IsSplit fuel s.past_j (s.i - 1) s v q (omega arith) hj
            (v.high s.past_j (omega arith) hj) (omega arith) (omega arith)
            (v.low (s.i - 1) (omega arith) (omega arith)) (inr (hi, hj)) in
        let (u, e', p) = later_rounds fuel t v' hi' hj' (omega arith) in (u, e ∙ e', p)
  ]

  pub partition-IsParted :
      (m : ℕ)
      → left ≤ m
      → m < end
      → a m ≡ pivot
      → (t : Split) × (partition n (suc n) pivot (record { arr = a; i = left; past_j = end })
          ≡ ok t)
        × IsParted n left end pivot a t
  partition-IsParted m l h e =
      let s : Split = record { arr = a; i = left; past_j = end } in
      let v : IsSplit n left end pivot a s = record {
        inside = (omega arith, omega arith, omega arith, omega arith);
        low = λ k p q. absurd (omega arith);
        high = λ k p q. absurd (omega arith);
        same = Rearranged-refl n left end a;
      } in
      let (t, e', v', hi, hj, d) =
        round-IsSplit n m m s v (omega arith) l h (omega arith) l h (omega arith)
          (inl (omega arith)) in
      let (u, e'', p) = later_rounds n t v' hi hj (omega arith) in (u, e' ∙ e'', p)
