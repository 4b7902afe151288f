-- ===== src/Programs/Tests.antt =====
-- The sorts on small arrays, and their theorems at them.
use risc_v_microarchitecture.Base.{
  ℕ, zero, suc, ◌^◌, ◌<◌, ◌≡◌, refl, arith, ok, List, [], ◌∷◌, Run, exit, fault, ◌==◌,
  if◌then◌else◌,
}
use risc_v_microarchitecture.Programs.Array.{SortedFrom}
use risc_v_microarchitecture.Programs.QuickSort.{
  scan_up, scan_down, exchange, partition, quick_sort, sort,
}
use risc_v_microarchitecture.Programs.QuickSort.Sorted.{sort-SortedFrom}
use risc_v_microarchitecture.Programs.RadixSort.{Buffers, radix_sort}
use risc_v_microarchitecture.Programs.RadixSort.Sorted.{radix_sort-SortedFrom}
use risc_v_microarchitecture.Programs.Agreement.{sort-radix_sort}

abbrev five : ℕ → ℕ
five k =
    if k == 0 then 70_000 else if k == 1 then 3 else if k == 2 then 258 else if k == 3 then 3 else 1

abbrev buffers : Buffers
buffers = record { arr = five; temp = λ k. 9; count = λ k. 5 }

abbrev first : ℕ → (ℕ → ℕ) → List ℕ
first zero a = []
first (suc n) a = a n ∷ first n a

abbrev entries : Run (ℕ → ℕ) → List ℕ
entries (ok a) = first 5 a
entries exit = []
entries fault = []

abbrev buffer_entries : Run Buffers → List ℕ
buffer_entries (ok s) = first 5 s.arr
buffer_entries exit = []
buffer_entries fault = []

sort-five : entries (sort 5 five) ≡ 70_000 ∷ 258 ∷ 3 ∷ 3 ∷ 1 ∷ []
unfolding sort quick_sort partition scan_up scan_down exchange
sort-five = refl

sort-SortedFrom_example : (sorted : ℕ → ℕ) × (sort 5 five ≡ ok sorted) × SortedFrom 5 five sorted
sort-SortedFrom_example = sort-SortedFrom 5 five

five-words : (k : ℕ) → k < 5 → five k < 2 ^ 32
five-words k h = ground arith

radix_sort-SortedFrom_example :
    (t : Buffers) × (radix_sort 5 buffers ≡ ok t) × SortedFrom 5 five t.arr
radix_sort-SortedFrom_example = radix_sort-SortedFrom 5 (omega arith) buffers five-words

sort-radix_sort_example :
    (a : ℕ → ℕ) × (t : Buffers) × (sort 5 five ≡ ok a)
    × (radix_sort 5 buffers ≡ ok t)
    × ((k : ℕ) → k < 5 → a k ≡ t.arr k)
sort-radix_sort_example = sort-radix_sort 5 buffers (omega arith) five-words
