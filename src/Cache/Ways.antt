-- ===== src/Cache/Ways.antt =====
-- The loop over the ways of a set.
use risc_v_microarchitecture.Base.{
  ℕ, zero, suc, ◌+◌, ◌*◌, ◌<◌, ◌≡◌, arith, Bool, true, false, none, some, Bool-cases, inl, inr,
}
use risc_v_microarchitecture.Cache.Block.{first_way}

module _ (test : ℕ → Bool) (step : ℕ) where
  -- What `first_way` gives: the offset of way `way`, which passes, and no earlier way does.
  pub record IsFirst (left i r : ℕ) : Type 0 where
    pub way : ℕ
    pub inside : way < left
    pub offset : r ≡ i + way * step
    pub passes : test r ≡ true
    pub earlier : (j : ℕ) → j < way → test (i + j * step) ≡ false

  pub first_way-IsFirst :
      (left i : ℕ) {r : ℕ} → first_way test step left i ≡ some r → IsFirst left i r
  unfolding first_way
  first_way-IsFirst zero i h = cc
  first_way-IsFirst (suc left) i {r} h = elim (Bool-cases (test i)) [
    | inl yes_here ↦ record {
      way = 0;
      inside = omega arith;
      offset = ground arith;
      passes = ground arith;
      earlier = λ j lt. absurd (omega arith);
    }
    | inr not_here ↦
        let rest = first_way-IsFirst left (i + step) {r = r} (ground arith) in
        record {
          way = suc rest.way;
          inside = omega (arith, rest.inside);
          offset = omega (arith, rest.offset);
          passes = rest.passes;
          earlier = later not_here rest;
        }
  ]
    where
      later :
          test i ≡ false
          → (rest : IsFirst left (i + step) r) (j : ℕ) → j < suc rest.way
          → test (i + j * step) ≡ false
      later no_here rest zero lt = ground arith
      later no_here rest (suc j) lt = ground (arith, rest.earlier j)

  pub first_way-none :
      (left i : ℕ)
      → first_way test step left i ≡ none
      → (j : ℕ) → j < left
      → test (i + j * step) ≡ false
  unfolding first_way
  first_way-none zero i h j lt = absurd (omega arith)
  first_way-none (suc left) i h zero lt = ground arith
  first_way-none (suc left) i h (suc j) lt =
      ground (arith, first_way-none left (i + step) (ground arith) j)

  pub first_way-some :
      (left i j : ℕ)
      → j < left
      → test (i + j * step) ≡ true
      → ((k : ℕ) → k < j → test (i + k * step) ≡ false)
      → first_way test step left i ≡ some (i + j * step)
  unfolding first_way
  first_way-some zero i j lt here before = absurd (omega arith)
  first_way-some (suc left) i zero lt here before = ground arith
  first_way-some (suc left) i (suc j) lt here before = ground (
    arith,
    before 0,
    first_way-some left (i + step) j (omega arith) (ground arith)
        (λ k l. ground (arith, before (suc k))),
  )

-- A test that fails wherever another fails, and passes at its first way, has the same first way.
pub first_way-stronger :
    (test test' : ℕ → Bool) (step left i r : ℕ)
    → ((k : ℕ) → test k ≡ false → test' k ≡ false)
    → first_way test step left i ≡ some r
    → test' r ≡ true
    → first_way test' step left i ≡ some r
unfolding first_way
first_way-stronger test test' step zero i r weaker h passes = cc
first_way-stronger test test' step (suc left) i r weaker h passes =
    ground (arith, weaker i, first_way-stronger test test' step left (i + step) r weaker)
