-- ===== src/Programs/RadixSort.antt =====
-- programs/c/radix_sort.c: `radix_sort` on the global arrays `arr` and `temp` of `n` entries, and
-- `count` of 256. Every access to the three arrays is checked: one outside is a fault. The length is
-- an `int`, which the one call gives as the size of the arrays, so it is not negative.
pub mod Count
pub mod Place
pub mod Sorted
use risc_v_microarchitecture.Base.{
  ℕ, zero, suc, ◌*◌, ◌^◌, bit_and, add32, sub32, ◌>>>◌, ltb, if◌then◌else◌, Run, ok, fault, ◌>>=◌,
}
use risc_v_microarchitecture.Programs.Array.{read, set}

pub record Buffers : Type 0 where
  pub arr : ℕ → ℕ
  pub temp : ℕ → ℕ
  pub count : ℕ → ℕ

-- `a[i] = x`, of an array with `size` entries.
unfoldable pub write : ℕ → (ℕ → ℕ) → ℕ → ℕ → Run (ℕ → ℕ)
write size a i x = if ltb i size then ok (set a i x) else fault

-- for (i = 0; i < n; i++)
unfoldable pub for_up {ℓ} : {S : Type ℓ} → ℕ → (ℕ → S → Run S) → S → Run S
for_up zero body s = ok s
for_up (suc n) body s = for_up n body s >>= body n

-- (x >> shift) & 0xFF
unfoldable pub digit : ℕ → ℕ → ℕ
digit shift x = bit_and (x >>> shift) 0xFF

-- Clear count array
unfoldable pub clear_count : (ℕ → ℕ) → Run (ℕ → ℕ)
clear_count count = for_up 256 (λ i c. write 256 c i 0) count

-- Prefix sums: the loop starts with i = 1
unfoldable pub prefix_sums : (ℕ → ℕ) → Run (ℕ → ℕ)
prefix_sums count =
    for_up 255
      (λ i c. read 256 c (suc i) >>= λ x. read 256 c i >>= λ y. write 256 c (suc i) (add32 x y))
      count

module _ (n : ℕ) where
  -- Count occurrences
  unfoldable pub count_digits : ℕ → (ℕ → ℕ) → (ℕ → ℕ) → Run (ℕ → ℕ)
  count_digits shift arr count =
      for_up n
        (λ i c. read n arr i >>= λ x.
          read 256 c (digit shift x) >>= λ k. write 256 c (digit shift x) (add32 k 1))
        count

  -- Stable placement: i from n - 1 down to 0
  unfoldable pub place_entries : ℕ → ℕ → Buffers → Run Buffers
  place_entries shift zero s = ok s
  place_entries shift (suc i) s = read n s.arr i >>= λ x. read 256 s.count (digit shift x) >>= λ k.
      let slot = sub32 k 1 in
      write 256 s.count (digit shift x) slot >>= λ count. write n s.temp slot x >>= λ temp.
      place_entries shift i (record { arr = s.arr; temp = temp; count = count })

  -- arr[i] = temp[i], for every i
  unfoldable pub copy_back : (ℕ → ℕ) → (ℕ → ℕ) → Run (ℕ → ℕ)
  copy_back temp arr = for_up n (λ i a. read n temp i >>= λ x. write n a i x) arr

  -- One turn of the loop over the digits.
  unfoldable pub pass : ℕ → Buffers → Run Buffers
  pass shift s = clear_count s.count >>= λ cleared. count_digits shift s.arr cleared >>= λ counted.
      prefix_sums counted >>= λ count. place_entries shift n (record s { count = count }) >>= λ t.
      copy_back t.temp t.arr >>= λ arr. ok (record t { arr = arr })

  unfoldable pub passes : ℕ → Buffers → Run Buffers
  passes zero s = ok s
  passes (suc k) s = passes k s >>= λ t. pass (k * 8) t

  -- An int is below 2 ^ 31: no call has another length.
  unfoldable pub radix_sort : Buffers → Run Buffers
  radix_sort s = if ltb n (2 ^ 31) then passes 4 s else fault
