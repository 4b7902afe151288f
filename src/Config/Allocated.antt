-- ===== src/Config/Allocated.antt =====
-- What `configure` in src/utils/configure.c leaves behind, and what it refuses.
use risc_v_microarchitecture.Base.{
  ℕ, zero, suc, ◌+◌, ◌^◌, ◌≤◌, ◌<◌, ◌≡◌, refl, arith, ℤ, pos, negsuc, Bool, true, false, none, some,
  ok, inl, inr, le_or_lt,
}
use risc_v_microarchitecture.Cache.State.{CacheLevel}
use risc_v_microarchitecture.Cache.Block.{space, find_block, first_way, hit_way, free_way, set_base}
use risc_v_microarchitecture.Config.{
  CacheConfig, Configuration, System, new_cache, granted, allocate, line_count, to_size,
  natural_part, to_uint32,
}

no_hit :
    (test : ℕ → Bool) (step left i : ℕ)
    → ((k : ℕ) → test k ≡ false)
    → first_way test step left i ≡ none
unfolding first_way
no_hit test step zero i h = refl
no_hit test step (suc left) i h = ground (arith, h i, no_hit test step left (i + step) h)

at_once :
    (test : ℕ → Bool) (step left i : ℕ)
    → 1 ≤ left
    → ((k : ℕ) → test k ≡ true)
    → first_way test step left i ≡ some i
unfolding first_way
at_once test step zero i h p = absurd (omega arith)
at_once test step (suc left) i h p = ground (arith, p i)

-- Where no line is valid, the first block of the set is free.
find_block-invalid :
    (s : CacheLevel) (addr : ℕ)
    → 1 ≤ s.associativity
    → ((k : ℕ) → (s.cache k).valid ≡ false)
    → find_block addr s ≡ ok space
unfolding find_block
find_block-invalid s addr h p =
    let misses : hit_way s addr ≡ none =
      no_hit _ _ _ _ λ k. ground (arith, p (set_base s addr + k)) in
    let free : free_way s addr ≡ some 0 =
      at_once _ _ _ _ h λ k. ground (arith, p (set_base s addr + k)) in
    ground (arith, misses, free)

-- A cache that has just been allocated has a free block for every address.
pub new_cache-find_block :
    (c : CacheConfig) (addr : ℕ)
    → 1 ≤ natural_part c.associativity
    → find_block addr (new_cache c) ≡ ok space
unfolding new_cache
new_cache-find_block c addr h = find_block-invalid (new_cache c) addr h λ k. refl

module _ (calloc : ℕ → ℕ → ℕ → Bool) (c : Configuration) (system : System) where
  allocate-ok :
      allocate calloc c ≡ ok system
      → (system.l1_d ≡ new_cache c.l1_d)
        × (system.l1_i ≡ new_cache c.l1_i)
        × (system.l2 ≡ new_cache c.l2)
        × (system.l3 ≡ new_cache c.l3)
        × (granted calloc c ≡ true)
  unfolding allocate
  allocate-ok e = ground arith

  -- After `configure`, the first probe of any cache for any address finds a free block.
  pub allocate-find_block :
      (addr : ℕ)
      → allocate calloc c ≡ ok system
      → 1 ≤ natural_part c.l1_d.associativity
      → 1 ≤ natural_part c.l1_i.associativity
      → 1 ≤ natural_part c.l2.associativity
      → 1 ≤ natural_part c.l3.associativity
      → (find_block addr system.l1_d ≡ ok space)
        × (find_block addr system.l1_i ≡ ok space)
        × (find_block addr system.l2 ≡ ok space)
        × (find_block addr system.l3 ≡ ok space)
  allocate-find_block addr e h₁ h₂ h₃ h₄ =
      let (e₁, e₂, e₃, e₄, _) = allocate-ok e in
      (
        rw e₁ (new_cache-find_block c.l1_d addr h₁),
        rw e₂ (new_cache-find_block c.l1_i addr h₂),
        rw e₃ (new_cache-find_block c.l2 addr h₃),
        rw e₄ (new_cache-find_block c.l3 addr h₄),
      )

  -- Where calloc refuses 2 ^ 60 objects and more, a configuration that passes has no cache of -4
  -- bytes or less, and no negative size of the memory.
  pub allocate-sizes :
      ((k count size : ℕ) → 2 ^ 60 ≤ count → calloc k count size ≡ false)
      → allocate calloc c ≡ ok system
      → (line_count c.l1_d.cache_size < 2 ^ 60)
        × (line_count c.l1_i.cache_size < 2 ^ 60)
        × (line_count c.l2.cache_size < 2 ^ 60)
        × (line_count c.l3.cache_size < 2 ^ 60)
        × (to_size c.dram_size < 2 ^ 60)
  unfolding granted
  allocate-sizes refuse e =
      let (_, _, _, _, g) = allocate-ok e in
      let bound : (k n size : ℕ) → calloc k n size ≡ true → n < 2 ^ 60 = λ k n size t.
        elim (le_or_lt (2 ^ 60) n) [
          | inl p ↦ absurd (ground (arith, refuse k n size p))
          | inr p ↦ p
        ] in
      (
        bound 0 (line_count c.l1_d.cache_size) 24 (ground arith),
        bound 1 (line_count c.l1_i.cache_size) 24 (ground arith),
        bound 2 (line_count c.l2.cache_size) 24 (ground arith),
        bound 3 (line_count c.l3.cache_size) 24 (ground arith),
        bound 4 (to_size c.dram_size) 1 (ground arith),
      )

pub to_uint32-bound : (z : ℤ) → to_uint32 z < 2 ^ 32
unfolding to_uint32
to_uint32-bound (pos n) = omega arith
to_uint32-bound (negsuc n) = omega arith
