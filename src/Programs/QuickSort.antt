-- ===== src/Programs/QuickSort.antt =====
-- programs/c/quick_sort.c: `quick_sort` on the global array `arr` of `n` entries.
-- The C variable j may become -1, so `past_j` is j + 1 here, and `past_right` is right + 1: the test
-- i <= j is `i < past_j`. The indices stay below n, and their sums below 2 ^ 31 for any array that the
-- program can hold, so `int` does not overflow.
pub mod Partition
pub mod Rearranged
pub mod Sorted
use risc_v_microarchitecture.Base.{
  ℕ, zero, suc, ◌+◌, ◌-◌, ◌/◌, ltb, leb, if◌then◌else◌, Run, ok, fault, ◌>>=◌,
}
use risc_v_microarchitecture.Programs.Array.{read, swap}

-- arr, i and j.
pub record Split : Type 0 where
  pub arr : ℕ → ℕ
  pub i : ℕ
  pub past_j : ℕ

module _ (n : ℕ) where
  -- while (arr[i] < pivot) i++; with `left_over` entries from i on: behind the last of them the read
  -- is out of bounds.
  unfoldable pub scan_up : ℕ → (ℕ → ℕ) → ℕ → ℕ → Run ℕ
  scan_up zero arr pivot i = fault
  scan_up (suc left_over) arr pivot i =
      read n arr i >>= λ x. (if ltb x pivot then scan_up left_over arr pivot (suc i) else ok i)

  -- while (arr[j] > pivot) j--;
  unfoldable pub scan_down : (ℕ → ℕ) → ℕ → ℕ → Run ℕ
  scan_down arr pivot zero = fault
  scan_down arr pivot (suc j) =
      read n arr j >>= λ x. (if ltb pivot x then scan_down arr pivot j else ok (suc j))

  -- if (i <= j) { swap; i++; j--; }
  unfoldable pub exchange : (ℕ → ℕ) → ℕ → ℕ → Split
  exchange arr i past_j =
      if ltb i past_j
      then record { arr = swap arr i (past_j - 1); i = suc i; past_j = past_j - 1 }
      else record { arr = arr; i = i; past_j = past_j }

  -- while (i <= j)
  unfoldable pub partition : ℕ → ℕ → Split → Run Split
  partition zero pivot s = fault
  partition (suc fuel) pivot s =
      if ltb s.i s.past_j
      then (scan_up (n - s.i) s.arr pivot s.i >>= λ i. scan_down s.arr pivot s.past_j >>= λ past_j.
          partition fuel pivot (exchange s.arr i past_j))
      else ok s

  unfoldable pub quick_sort : ℕ → (ℕ → ℕ) → ℕ → ℕ → Run (ℕ → ℕ)
  quick_sort zero arr left past_right = fault
  quick_sort (suc fuel) arr left past_right =
      if leb past_right (suc left)
      then ok arr
      else (read n arr ((left + (past_right - 1)) / 2) >>= λ pivot.
          partition (suc n) pivot (record { arr = arr; i = left; past_j = past_right }) >>= λ s.
          (if ltb (suc left) s.past_j then quick_sort fuel s.arr left s.past_j else ok s.arr)
          >>= λ arr.
              (if ltb (suc s.i) past_right then quick_sort fuel arr s.i past_right else ok arr))

  -- `main`: quick_sort(0, n - 1). A call halves nothing for sure, but it drops an entry: `n` calls
  -- inside each other, and the last that returns at once, are enough.
  unfoldable pub sort : (ℕ → ℕ) → Run (ℕ → ℕ)
  sort arr = quick_sort (suc n) arr 0 n
