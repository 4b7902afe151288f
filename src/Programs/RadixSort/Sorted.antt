-- ===== src/Programs/RadixSort/Sorted.antt =====
-- `radix_sort` of programs/c/radix_sort.c sorts.
use risc_v_microarchitecture.Base.{
  ℕ, zero, suc, ◌*◌, ◌%◌, ◌^◌, ◌≤◌, ◌<◌, ◌≡◌, refl, sym, ◌∙◌, ap, arith, inl, inr, ◌⊎◌, ok, ◌>>>◌,
  ltb, true,
}
use risc_v_microarchitecture.Bits.{and_ones}
use risc_v_microarchitecture.Programs.Array.{
  set, occurrences, occurrences-find, occurrences-pos, SortedFrom,
}
use risc_v_microarchitecture.Programs.Reindex.{taken, occurrences-reindex}
use risc_v_microarchitecture.Programs.RadixSort.{
  Buffers, write, digit, copy_back, pass, passes, radix_sort,
}
use risc_v_microarchitecture.Programs.RadixSort.Count.{
  rank, rounds, for_up-rounds, zeros, tally, sums, sums_lem, clear_count-zeros, count_digits-tally,
  prefix_sums-sums,
}
use risc_v_microarchitecture.Programs.RadixSort.Place.{
  slot, slot-inside, slot-injective, slot_order, place_entries_lem,
}

digit-mod : (shift x : ℕ) → digit shift x ≡ (x >>> shift) % 2 ^ 8
unfolding digit
digit-mod shift x = and_ones 8 (x >>> shift) (omega arith)

-- Numbers compare, in `k + 1` digits, by the last of them, and then by the `k` others.
digit_order :
    (k x y : ℕ)
    → k < 4
    → ((x >>> (k * 8)) % 2 ^ 8 < (y >>> (k * 8)) % 2 ^ 8)
      ⊎ (((x >>> (k * 8)) % 2 ^ 8 ≡ (y >>> (k * 8)) % 2 ^ 8) × (x % 2 ^ (k * 8) ≤ y % 2 ^ (k * 8)))
    → x % 2 ^ (suc k * 8) ≤ y % 2 ^ (suc k * 8)
digit_order zero x y h (inl p) = omega arith
digit_order zero x y h (inr p) = omega arith
digit_order (suc zero) x y h (inl p) = omega arith
digit_order (suc zero) x y h (inr p) = omega arith
digit_order (suc (suc zero)) x y h (inl p) = omega arith
digit_order (suc (suc zero)) x y h (inr p) = omega arith
digit_order (suc (suc (suc zero))) x y h (inl p) = omega arith
digit_order (suc (suc (suc zero))) x y h (inr p) = omega arith
digit_order (suc (suc (suc (suc k)))) x y h p = absurd (omega arith)

copied :
    (n : ℕ) (temp arr : ℕ → ℕ) (k : ℕ) → k < n → rounds n (λ i a. set a i (temp i)) arr k ≡ temp k
copied zero temp arr k h = absurd (omega arith)
copied (suc n) temp arr k h = ground (arith, copied n temp arr k)

copy_back-rounds :
    (n : ℕ) (temp arr : ℕ → ℕ) → copy_back n temp arr ≡ ok (rounds n (λ i a. set a i (temp i)) arr)
unfolding copy_back write
copy_back-rounds n temp arr =
    for_up-rounds n _ (λ i a. set a i (temp i)) arr
      λ i p t. let inside : ltb i n ≡ true = ground arith in rw inside refl

-- The entries ascend by their last `k` digits, and every value stands there as often as in `a`.
record IsPassed (n k : ℕ) (a : ℕ → ℕ) (s : Buffers) : Type 0 where
  low : (i j : ℕ) → i ≤ j → j < n → s.arr i % 2 ^ (k * 8) ≤ s.arr j % 2 ^ (k * 8)
  kept : (v : ℕ) → occurrences v s.arr 0 n ≡ occurrences v a 0 n

module _ (n : ℕ) (small : n < 2 ^ 31) where
  -- A pass moves each entry to its slot.
  pass-slot :
      (shift : ℕ) (s : Buffers)
      → (t : Buffers) × (pass n shift s ≡ ok t)
        × ((k : ℕ) → k < n → t.arr (slot n (λ i. digit shift (s.arr i)) k) ≡ s.arr k)
  unfolding pass rank
  pass-slot shift s =
      let digits : ℕ → ℕ = λ k. digit shift (s.arr k) in
      let below : (k : ℕ) → digits k < 256 = λ k. omega (arith, digit-mod shift (s.arr k)) in
      let count = sums (tally n digits (zeros s.count)) in
      let (t, e, ea, et, ek) =
        place_entries_lem n digits shift n (record s { count = count }) (omega arith) (omega arith)
          (λ k. refl) below (λ d p. sums_lem n digits s.count d (omega arith) p) in
      (
        record t { arr = rounds n (λ i a. set a i (t.temp i)) t.arr },
        rw
            (
              clear_count-zeros s.count,
              count_digits-tally n shift s.arr (zeros s.count) below,
              prefix_sums-sums (tally n digits (zeros s.count)),
              e,
              copy_back-rounds n t.temp t.arr,
            )
            refl,
        λ k p. copied n t.temp t.arr (slot n digits k) (slot-inside n digits k p) ∙ et k p,
      )

  pass-IsPassed :
      (k : ℕ) (a : ℕ → ℕ) (s : Buffers)
      → k < 4
      → IsPassed n k a s
      → (t : Buffers) × (pass n (k * 8) s ≡ ok t) × IsPassed n (suc k) a t
  pass-IsPassed k a s h v =
      let digits : ℕ → ℕ = λ i. digit (k * 8) (s.arr i) in
      let (t, e, moved) = pass-slot (k * 8) s in
      let inside = slot-inside n digits in
      let injective = slot-injective n digits in
      (
        t,
        e,
        record {
          low = λ i j p q.
              let (x, hx, ex) = taken n (slot n digits) inside injective i (omega arith) in
              let (y, hy, ey) = taken n (slot n digits) inside injective j q in
              let mx : t.arr i ≡ s.arr x = ap t.arr (sym ex) ∙ moved x hx in
              let my : t.arr j ≡ s.arr y = ap t.arr (sym ey) ∙ moved y hy in
              rw (mx, my)
                (digit_order k (s.arr x) (s.arr y) h
                  (elim (slot_order n digits x y hx hy (omega (arith, ex, ey))) [
                    | inl u ↦
                        inl
                          (omega (arith, digit-mod (k * 8) (s.arr x), digit-mod (k * 8) (s.arr y)))
                    | inr u ↦ inr (
                      omega (arith, digit-mod (k * 8) (s.arr x), digit-mod (k * 8) (s.arr y)),
                      v.low x y u.1 hy,
                    )
                  ]));
          kept = λ v'.
              occurrences-reindex n (slot n digits) inside injective s.arr t.arr moved v'
              ∙ v.kept v';
        },
      )

  passes-IsPassed :
      (k : ℕ) (s : Buffers) → k ≤ 4 → (t : Buffers) × (passes n k s ≡ ok t) × IsPassed n k s.arr t
  unfolding passes
  passes-IsPassed zero s h = (s, refl, record { low = λ i j p q. omega arith; kept = λ v. refl })
  passes-IsPassed (suc k) s h =
      let (t, e, v) = passes-IsPassed k s (omega arith) in
      let (u, e', v') = pass-IsPassed k s.arr t h v in (u, rw e e', v')

  -- On an array of fewer than 2 ^ 31 words, whatever is in the other buffers, the program ends
  -- without an access outside `arr`, `temp` or `count`, and leaves the entries in ascending order,
  -- each value as often as before.
  pub radix_sort-SortedFrom :
      (s : Buffers)
      → ((k : ℕ) → k < n → s.arr k < 2 ^ 32)
      → (t : Buffers) × (radix_sort n s ≡ ok t) × SortedFrom n s.arr t.arr
  unfolding radix_sort
  radix_sort-SortedFrom s words =
      let (t, e, v) = passes-IsPassed 4 s (omega arith) in
      let is_int : ltb n (2 ^ 31) ≡ true = ground arith in
      let word : (k : ℕ) → k < n → t.arr k < 2 ^ 32 = λ k h.
        let (m, _, hm, em) = occurrences-find (t.arr k) s.arr 0 n (
          omega
            (arith, v.kept (t.arr k), occurrences-pos t.arr 0 n k (omega arith) (omega arith))) in
        omega (arith, words m (omega arith), em) in
      (
        t,
        rw is_int e,
        record {
          ascending = λ i j p q. omega (arith, v.low i j p q, word i (omega arith), word j q);
          kept = v.kept;
        },
      )
