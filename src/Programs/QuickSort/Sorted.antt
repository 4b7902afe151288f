-- ===== src/Programs/QuickSort/Sorted.antt =====
-- `quick_sort` of programs/c/quick_sort.c ends, sorts, and stays inside the array.
use risc_v_microarchitecture.Base.{
  ℕ, zero, suc, ◌+◌, ◌-◌, ◌/◌, ◌≤◌, ◌<◌, ◌≡◌, refl, arith, inl, inr, le_or_lt, ok, ltb, leb,
  if◌then◌else◌, true, false, ap, Bool-cases,
}
use risc_v_microarchitecture.Programs.Array.{IsAscending, SortedFrom}
use risc_v_microarchitecture.Programs.QuickSort.{Split, quick_sort, sort}
use risc_v_microarchitecture.Programs.QuickSort.Rearranged.{
  Rearranged, Rearranged-refl, Rearranged-trans, Rearranged-widen,
}
use risc_v_microarchitecture.Programs.QuickSort.Partition.{IsParted, partition-IsParted}

module _ (n : ℕ) where
  -- What a call promises of the places it is given.
  Sorts : ℕ → ℕ → (ℕ → ℕ) → (ℕ → ℕ) → Type 0
  Sorts left end a b = Rearranged n left end a b × IsAscending b left end

  -- A bound on the entries of a part stays one.
  upper :
      (lo end x : ℕ) (a b : ℕ → ℕ)
      → Rearranged n lo end a b
      → ((k : ℕ) → lo ≤ k → k < end → a k ≤ x)
      → (k : ℕ) → lo ≤ k
      → k < end
      → b k ≤ x
  upper lo end x a b r h k l p = let (m, lm, hm, e) = r.inside k l p in omega (arith, h m lm hm)

  lower :
      (lo end x : ℕ) (a b : ℕ → ℕ)
      → Rearranged n lo end a b
      → ((k : ℕ) → lo ≤ k → k < end → x ≤ a k)
      → (k : ℕ) → lo ≤ k
      → k < end
      → x ≤ b k
  lower lo end x a b r h k l p = let (m, lm, hm, e) = r.inside k l p in omega (arith, h m lm hm)

  -- The two parts, each sorted, with the pivot's equals between them.
  parts-Sorts :
      (left end pivot : ℕ) (a b c : ℕ → ℕ) (t : Split)
      → IsParted n left end pivot a t
      → Sorts left t.past_j t.arr b
      → Sorts t.i end b c
      → Sorts left end a c
  unfolding Sorts
  parts-Sorts left end pivot a b c t (v, hi, hj, d) (r, o) (r', o') =
      let wide = Rearranged-widen n left end left t.past_j t.arr b (omega arith) (omega arith) r in
      let wide' = Rearranged-widen n left end t.i end b c (omega arith) (omega arith) r' in
      let all =
        Rearranged-trans n left end a t.arr c v.same
          (Rearranged-trans n left end t.arr b c wide wide') in
      let low : (k : ℕ) → left ≤ k → k < t.past_j → c k ≤ pivot = λ k p q. omega (
        arith,
        r'.before k (omega arith),
        upper left t.past_j pivot t.arr b r (λ k p q. v.low k p (omega arith)) k p q,
      ) in
      let high : (k : ℕ) → t.i ≤ k → k < end → pivot ≤ c k = λ k p q.
        lower t.i end pivot b c r'
          (λ k p q. omega (arith, r.behind k (omega arith), v.high k (omega arith) q)) k p q in
      let middle : (k : ℕ) → t.past_j ≤ k → k < t.i → c k ≡ pivot = λ k p q. omega (
        arith,
        r'.before k q,
        r.behind k p,
        v.low k (omega (arith, v.inside)) q,
        v.high k p (omega (arith, v.inside)),
      ) in
      (
        all,
        λ i j l p q. elim (le_or_lt t.past_j j) [
          | inr u ↦ omega (arith, o i j l p u, r'.before i (omega arith), r'.before j (omega arith))
          | inl u ↦ elim (le_or_lt t.i i) [
            | inl u' ↦ o' i j u' p q
            | inr u' ↦
                let under : c i ≤ pivot = elim (le_or_lt t.past_j i) [
                  | inl w ↦ omega (arith, middle i w u')
                  | inr w ↦ low i l w
                ] in
                let over : pivot ≤ c j = elim (le_or_lt t.i j) [
                  | inl w ↦ high j w q
                  | inr w ↦ omega (arith, middle j u w)
                ] in
                omega arith
          ]
        ],
      )

  -- A single place, or none, is sorted.
  short-Sorts : (a : ℕ → ℕ) (left end : ℕ) → end ≤ suc left → Sorts left end a a
  unfolding Sorts
  short-Sorts a left end h = (
    Rearranged-refl n left end a,
    λ i j l q r. let e : i ≡ j = omega arith in omega (arith, ap a e),
  )

  -- `if (left < right) quick_sort(left, right)`
  guarded-Sorts :
      (fuel : ℕ) (a : ℕ → ℕ) (left end : ℕ)
      → (b : ℕ → ℕ) × (quick_sort n fuel a left end ≡ ok b) × Sorts left end a b
      → (b : ℕ → ℕ) × ((if ltb (suc left) end then quick_sort n fuel a left end else ok a) ≡ ok b)
        × Sorts left end a b
  guarded-Sorts fuel a left end call = elim (Bool-cases (ltb (suc left) end)) [
    | inl t ↦ rw t call
    | inr t ↦ (a, rw t refl, short-Sorts a left end (ground arith))
  ]

  -- A call on places of the array ends, with fuel for each of them.
  quick_sort-Sorts :
      (fuel : ℕ) (a : ℕ → ℕ) (left end : ℕ)
      → end ≤ n
      → end - left < fuel
      → (b : ℕ → ℕ) × (quick_sort n fuel a left end ≡ ok b) × Sorts left end a b
  unfolding quick_sort
  quick_sort-Sorts zero a left end h f = absurd (omega arith)
  quick_sort-Sorts (suc fuel) a left end h f = elim (le_or_lt end (suc left)) [
    | inl p ↦ (a, ground arith, short-Sorts a left end p)
    | inr p ↦
        let m = (left + (end - 1)) / 2 in
        let (t, e, parted) =
          partition-IsParted n left end (a m) a h m (omega arith) (omega arith) refl in
        let test : leb end (suc left) ≡ false = ground arith in
        let inside : ltb m n ≡ true = ground arith in
        let (b, eb, sb) =
          guarded-Sorts fuel t.arr left t.past_j
            (quick_sort-Sorts fuel t.arr left t.past_j (omega arith) (omega arith)) in
        let (c, ec, sc) =
          guarded-Sorts fuel b t.i end (quick_sort-Sorts fuel b t.i end h (omega arith)) in
        (c, rw (test, inside, e, eb, ec) refl, parts-Sorts left end (a m) a b c t parted sb sc)
  ]

-- The program ends without a read or a write outside the array, whatever is in it and however long
-- it is, and leaves the entries in ascending order, each value as often as before.
pub sort-SortedFrom :
    (n : ℕ) (arr : ℕ → ℕ) → (sorted : ℕ → ℕ) × (sort n arr ≡ ok sorted) × SortedFrom n arr sorted
unfolding sort Sorts
sort-SortedFrom n arr =
    let (b, e, (r, o)) = quick_sort-Sorts n (suc n) arr 0 n (omega arith) (omega arith) in
    (b, e, record { ascending = λ i j. o i j (omega arith); kept = r.kept })
