-- ===== src/Programs/RadixSort/Place.antt =====
-- Where the placement loop of programs/c/radix_sort.c puts the entries.
use risc_v_microarchitecture.Base.{
  ℕ, zero, suc, ◌+◌, ◌^◌, ◌≤◌, ◌<◌, ◌≡◌, refl, ap, arith, ◌==◌, ltb, Bool-cases, inl, inr, le_or_lt,
  ◌⊎◌, sub32, ok, true,
}
use risc_v_microarchitecture.Programs.Array.{bit, set, occurrences}
use risc_v_microarchitecture.Programs.RadixSort.{Buffers, digit, write, place_entries}
use risc_v_microarchitecture.Programs.RadixSort.Count.{rank, rank_le, rank_mono}

-- Behind the entries with lower digits, and behind those with the same that stand before.
pub slot : ℕ → (ℕ → ℕ) → ℕ → ℕ
slot n digits k = rank digits n (digits k) + occurrences (digits k) digits 0 k

module _ (n : ℕ) (digits : ℕ → ℕ) where
  occurrences_grow :
      (d k l : ℕ) → k < l → digits k ≡ d → occurrences d digits 0 k < occurrences d digits 0 l
  unfolding occurrences
  occurrences_grow d k zero h e = absurd (omega arith)
  occurrences_grow d k (suc l) h e =
      let zero_add : 0 + l ≡ l = omega arith in
      elim (le_or_lt l k) [
        | inl p ↦ let e' : k ≡ l = omega arith in rw e' (ground (arith, ap digits e'))
        | inr p ↦ omega (arith, occurrences_grow d k l p e)
      ]

  slot-below : (k : ℕ) → k < n → slot n digits k < rank digits n (suc (digits k))
  unfolding slot rank
  slot-below k h = omega (arith, occurrences_grow (digits k) k n h refl)

  pub slot-inside : (k : ℕ) → k < n → slot n digits k < n
  slot-inside k h = omega (arith, slot-below k h, rank_le digits n (suc (digits k)))

  -- The order of the slots: by the digit, then by the place.
  pub slot-lower : (k l : ℕ) → k < n → digits k < digits l → slot n digits k < slot n digits l
  unfolding slot
  slot-lower k l h p =
      omega (arith, slot-below k h, rank_mono digits n (suc (digits k)) (digits l) p)

  pub slot-earlier : (k l : ℕ) → k < l → digits k ≡ digits l → slot n digits k < slot n digits l
  unfolding slot
  slot-earlier k l h e = rw e (omega (arith, occurrences_grow (digits l) k l h e))

  pub slot-injective : (k l : ℕ) → k < n → l < n → slot n digits k ≡ slot n digits l → k ≡ l
  slot-injective k l p q e =
      ground (arith, slot-lower k l, slot-lower l k, slot-earlier k l, slot-earlier l k)

  pub slot_order :
      (k l : ℕ)
      → k < n
      → l < n
      → slot n digits k ≤ slot n digits l
      → (digits k < digits l) ⊎ ((digits k ≡ digits l) × (k ≤ l))
  slot_order k l p q h = elim (le_or_lt (digits l) (digits k)) [
    | inr r ↦ inl r
    | inl r ↦
        let same : digits k ≡ digits l = ground (arith, slot-lower l k q) in
        inr (same, ground (arith, slot-earlier l k))
  ]

  -- Digits counted up to one place more.
  occurrences-next :
      (i d : ℕ) → occurrences d digits 0 (suc i) ≡ occurrences d digits 0 i + bit (digits i == d)
  unfolding occurrences
  occurrences-next i d = let zero_add : 0 + i ≡ i = omega arith in rw zero_add refl

  slot_lem :
      (i : ℕ) → slot n digits i ≡ rank digits n (digits i) + occurrences (digits i) digits 0 i
  unfolding slot
  slot_lem i = refl

  -- With the counters at the ends of what is left to place, the loop ends and fills the slots.
  pub place_entries_lem :
      (shift i : ℕ) (s : Buffers)
      → n < 2 ^ 32
      → i ≤ n
      → ((k : ℕ) → digit shift (s.arr k) ≡ digits k)
      → ((k : ℕ) → digits k < 256)
      → ((d : ℕ) → d < 256 → s.count d ≡ rank digits n d + occurrences d digits 0 i)
      → (t : Buffers) × (place_entries n shift i s ≡ ok t)
        × (t.arr ≡ s.arr)
        × ((k : ℕ) → k < i → t.temp (slot n digits k) ≡ s.arr k)
        × ((k : ℕ) → i ≤ k → k < n → t.temp (slot n digits k) ≡ s.temp (slot n digits k))
  unfolding place_entries write
  place_entries_lem shift zero s h l d b c =
      (s, refl, refl, λ k p. absurd (omega arith), λ k p q. refl)
  place_entries_lem shift (suc i) s h l same_digit b c =
      let at_slot : sub32 (s.count (digits i)) 1 ≡ slot n digits i =
        ground
          (arith, c (digits i) (b i), occurrences-next i (digits i), slot-inside i, slot_lem i) in
      let s' : Buffers = record {
        arr = s.arr;
        temp = set s.temp (slot n digits i) (s.arr i);
        count = set s.count (digits i) (slot n digits i);
      } in
      let (t, e, ea, et, ek) = place_entries_lem shift i s' h (omega arith) same_digit b (λ d p.
        elim (Bool-cases (d == digits i)) [
          | inl q ↦ let same : d ≡ digits i = ground arith in rw same (ground (arith, slot_lem i))
          | inr q ↦ ground (arith, c d p, occurrences-next i d)
        ]) in
      let entry : ltb i n ≡ true = ground arith in
      let counter : ltb (digits i) 256 ≡ true = ground (arith, b i) in
      let place : ltb (slot n digits i) n ≡ true = ground (arith, slot-inside i) in
      (
        t,
        rw (entry, same_digit i, counter, at_slot, place) e,
        ea,
        λ k p. elim (le_or_lt i k) [
          | inl q ↦ let same : k ≡ i = omega arith in rw same (ground (arith, ek i (omega arith) l))
          | inr q ↦ et k q
        ],
        λ k p q. ground (arith, ek k, slot-injective i k),
      )
