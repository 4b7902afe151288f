-- ===== src/Programs/Agreement.antt =====
-- The two sorts of programs/c side by side.
use risc_v_microarchitecture.Base.{ℕ, ◌^◌, ◌<◌, ◌≡◌, sym, ◌∙◌, ok}
use risc_v_microarchitecture.Programs.Array.{SortedFrom, ascending_unique}
use risc_v_microarchitecture.Programs.QuickSort.{sort}
use risc_v_microarchitecture.Programs.QuickSort.Sorted.{sort-SortedFrom}
use risc_v_microarchitecture.Programs.RadixSort.{Buffers, radix_sort}
use risc_v_microarchitecture.Programs.RadixSort.Sorted.{radix_sort-SortedFrom}

SortedFrom-unique :
    (n : ℕ) (a b c : ℕ → ℕ) (k : ℕ) → SortedFrom n a b → SortedFrom n a c → k < n → b k ≡ c k
SortedFrom-unique n a b c k s t h =
    ascending_unique b c n (λ i j p q r. s.ascending i j q r) (λ i j p q r. t.ascending i j q r)
      (λ v. s.kept v ∙ sym (t.kept v)) k h

-- On fewer than 2 ^ 31 words both programs end, and with the same array.
pub sort-radix_sort :
    (n : ℕ) (s : Buffers)
    → n < 2 ^ 31
    → ((k : ℕ) → k < n → s.arr k < 2 ^ 32)
    → (a : ℕ → ℕ) × (t : Buffers) × (sort n s.arr ≡ ok a)
      × (radix_sort n s ≡ ok t)
      × ((k : ℕ) → k < n → a k ≡ t.arr k)
sort-radix_sort n s small words =
    let (a, ea, va) = sort-SortedFrom n s.arr in
    let (t, et, vt) = radix_sort-SortedFrom n small s words in
    (a, t, ea, et, λ k h. SortedFrom-unique n s.arr a t.arr k va vt h)
