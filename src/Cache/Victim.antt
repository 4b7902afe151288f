-- ===== src/Cache/Victim.antt =====
-- The choice of the block to evict.
use risc_v_microarchitecture.Base.{
  ℕ, zero, suc, ◌+◌, ◌*◌, ◌≤◌, ◌<◌, ◌≡◌, ◌≢◌, refl, arith, true, false, Option, none, some, ◌⊎◌,
  inl, inr, not, ltb, ◌&&◌, Bool-cases,
}
use risc_v_microarchitecture.Cache.State.{CacheLevel}
use risc_v_microarchitecture.Cache.Block.{line_at, block_words}
use risc_v_microarchitecture.Cache.Evict.{min_reference, victim, victim_from, skipped, int64_max}

module _ (s : CacheLevel) (addr : ℕ) where
  abbrev pub reference_at : ℕ → ℕ
  reference_at i = (line_at s addr i).reference

  -- `r` is the offset of a way with the lowest reference of the ways that are not skipped.
  pub record IsLowest (skip : Option ℕ) (left i r : ℕ) : Type 0 where
    pub way : ℕ
    pub inside : way < left
    pub offset : r ≡ i + way * block_words s
    pub kept : skipped s addr skip r ≡ false
    pub lowest :
        (j : ℕ)
        → j < left
        → skipped s addr skip (i + j * block_words s) ≡ false
        → reference_at r ≤ reference_at (i + j * block_words s)

  -- No way that is not skipped is below the bound.
  abbrev AboveBound : Option ℕ → ℕ → ℕ → ℕ → Type 0
  AboveBound skip left i bound =
      (j : ℕ)
      → j < left
      → skipped s addr skip (i + j * block_words s) ≡ false
      → bound ≤ reference_at (i + j * block_words s)

  here_or_later :
      (skip : Option ℕ) (left i bound : ℕ)
      → (skipped s addr skip i ≡ false → bound ≤ reference_at i)
      → AboveBound skip left (i + block_words s) bound
      → AboveBound skip (suc left) i bound
  here_or_later skip left i bound here later zero lt kept =
      let e : i + 0 * block_words s ≡ i = omega arith in rw e (here (rw e at kept))
  here_or_later skip left i bound here later (suc j) lt kept =
      let e : i + suc j * block_words s ≡ i + block_words s + j * block_words s = omega arith in
      rw e (later j (omega arith) (rw e at kept))

  min_reference_lem :
      (skip : Option ℕ) (left i bound : ℕ) (best : Option ℕ) {r : ℕ}
      → min_reference s addr skip left i bound best ≡ some r
      → ((best ≡ some r) × AboveBound skip left i bound)
        ⊎ (IsLowest skip left i r × (reference_at r < bound))
  unfolding min_reference
  min_reference_lem skip zero i bound best h = inl (h, λ j lt. absurd (omega arith))
  min_reference_lem skip (suc left) i bound best {r} h =
      elim (Bool-cases (not (skipped s addr skip i) && ltb (reference_at i) bound)) [
        | inl better ↦
            elim (min_reference_lem skip left (i + block_words s) (reference_at i) (some i) {r = r}
              (rw better at h)) [
                | inl (e, above) ↦
                    let at_r : r ≡ i = ground arith in
                    inr (
                      record {
                        way = 0;
                        inside = omega arith;
                        offset = omega arith;
                        kept = rw at_r (ground arith);
                        lowest =
                            rw at_r
                              (here_or_later skip left i (reference_at i) (λ k. omega arith) above);
                      },
                      rw at_r (ground arith),
                    )
                | inr (l, lt) ↦ inr (
                  record {
                    way = suc l.way;
                    inside = omega (arith, l.inside);
                    offset = omega (arith, l.offset);
                    kept = l.kept;
                    lowest = here_or_later skip left i (reference_at r) (λ k. omega arith) l.lowest;
                  },
                  ground arith,
                )
              ]
        | inr worse ↦
            elim (min_reference_lem skip left (i + block_words s) bound best {r = r}
              (rw worse at h)) [
                | inl (e, above) ↦
                    inl (e, here_or_later skip left i bound (λ k. ground arith) above)
                | inr (l, lt) ↦ inr (
                  record {
                    way = suc l.way;
                    inside = omega (arith, l.inside);
                    offset = omega (arith, l.offset);
                    kept = l.kept;
                    lowest =
                        here_or_later skip left i (reference_at r) (λ k. ground arith) l.lowest;
                  },
                  lt,
                )
              ]
      ]

  -- The block that the source evicts has the lowest reference of the set; where the block with the
  -- lowest reference is not done, it is the lowest of the others.
  pub victim_lem :
      (r : ℕ)
      → victim s addr ≡ some r
      → (IsLowest none s.associativity 0 r × ((line_at s addr r).done ≡ true))
        ⊎ ((i : ℕ) × IsLowest none s.associativity 0 i
            × ((line_at s addr i).done ≡ false)
            × IsLowest (some i) s.associativity 0 r)
  unfolding victim
  victim_lem r h = go (min_reference s addr none s.associativity 0 int64_max none) refl h
    where
      lowest :
          (skip : Option ℕ) (i : ℕ)
          → min_reference s addr skip s.associativity 0 int64_max none ≡ some i
          → IsLowest skip s.associativity 0 i
      lowest skip i e = elim (min_reference_lem skip s.associativity 0 int64_max none e) [
        | inl (no_way, _) ↦ absurd (cc)
        | inr (l, _) ↦ l
      ]

      go :
          (o : Option ℕ)
          → min_reference s addr none s.associativity 0 int64_max none ≡ o
          → victim_from s addr o ≡ some r
          → (IsLowest none s.associativity 0 r × ((line_at s addr r).done ≡ true))
            ⊎ ((i : ℕ) × IsLowest none s.associativity 0 i
                × ((line_at s addr i).done ≡ false)
                × IsLowest (some i) s.associativity 0 r)
      go none e v = absurd (cc)
      go (some i) e v = elim (Bool-cases (line_at s addr i).done) [
        | inl done ↦
            let same : i ≡ r = ground arith in inl (rw (← same) (lowest none i e), rw (← same) done)
        | inr busy ↦ inr (i, lowest none i e, busy, lowest (some i) r (ground arith))
      ]

  min_reference-none :
      (skip : Option ℕ) (left i bound : ℕ) (best : Option ℕ)
      → min_reference s addr skip left i bound best ≡ none
      → (best ≡ none) × AboveBound skip left i bound
  unfolding min_reference
  min_reference-none skip zero i bound best h = (h, λ j lt. absurd (omega arith))
  min_reference-none skip (suc left) i bound best h =
      elim (Bool-cases (not (skipped s addr skip i) && ltb (reference_at i) bound)) [
        | inl better ↦
            let (e, above) =
              min_reference-none skip left (i + block_words s) (reference_at i) (some i)
                (rw better at h) in
            absurd cc
        | inr worse ↦
            let (e, above) =
              min_reference-none skip left (i + block_words s) bound best (rw worse at h) in
            (e, here_or_later skip left i bound (λ k. ground arith) above)
      ]

  module _ (ways : 2 ≤ s.associativity) (word : 4 ≤ s.block_size)
      (below : (j : ℕ)
        → j < s.associativity
        → reference_at (0 + j * block_words s) < int64_max) where
    not_none :
        (skip : Option ℕ) (j : ℕ)
        → j < s.associativity
        → skipped s addr skip (0 + j * block_words s) ≡ false
        → min_reference s addr skip s.associativity 0 int64_max none ≢ none
    not_none skip j lt kept e = omega (
      arith,
      below j lt,
      (min_reference-none skip s.associativity 0 int64_max none e).1 j lt kept,
    )

    another : (i : ℕ) → min_reference s addr (some i) s.associativity 0 int64_max none ≢ none
    another zero = not_none (some 0) 1 (omega arith) (ground arith)
    another (suc i) = not_none (some (suc i)) 0 (omega arith) (ground arith)

    is_some : (o : Option ℕ) → o ≢ none → (r : ℕ) × (o ≡ some r)
    is_some none h = absurd (h refl)
    is_some (some r) h = (r, refl)

    found_from : (o : Option ℕ) → o ≢ none → victim_from s addr o ≢ none
    unfolding victim_from
    found_from none h = absurd (h refl)
    found_from (some i) h = ground (arith, another i)

    -- A set of at least two ways, of blocks of a word at least, whose references are below the bound
    -- that the search starts from has a block to evict.
    pub victim_found : (r : ℕ) × (victim s addr ≡ some r)
    unfolding victim
    victim_found = is_some (victim s addr) (found_from _ (not_none none 0 (omega arith) refl))
