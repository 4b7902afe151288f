-- ===== src/Cache/Fill.antt =====
-- The filling of a block by src/cache/eviction.c: `copy_from_mem` and the four setters.
use native.Mathlib.Nat.{mul-le-mul_right}
use mathlib.Core.Path.{fun_ext}
use risc_v_microarchitecture.Base.{
  ℕ, suc, ◌+◌, ◌*◌, ◌-◌, ◌%◌, ◌^◌, ◌≤◌, ◌<◌, ◌≡◌, refl, arith, ◌∙◌, true, false, some, ◌>>>◌, ◌<<<◌,
  if◌then◌else◌,
}
use risc_v_microarchitecture.Cache.State.{CacheLevel, CacheLine}
use risc_v_microarchitecture.Cache.Block.{
  block_offset, n_sets, index_bits, set_index, get_tag, set_base, block_words, first_way, line_at,
  same_tag, match_way, in_block, set_words, set_flag,
}
use risc_v_microarchitecture.Cache.Evict.{copy_from_mem, place, set_flags}
use risc_v_microarchitecture.Cache.Ways.{first_way-some}
use risc_v_microarchitecture.Cache.Shape.{IsShaped, get_tag-block}

-- Nothing but the array changes, so indices and tags stay what they were.
geometry : Unit {0}
unfolding get_tag set_base set_index index_bits n_sets block_offset
geometry = tt

module _ (s : CacheLevel) (f : CacheLine → CacheLine) (start : ℕ) where
  get_tag-set_words : (a : ℕ) → get_tag a (set_words f start s) ≡ get_tag a s
  unfolding geometry set_words
  get_tag-set_words a = refl

  pub set_base-set_words : (a : ℕ) → set_base (set_words f start s) a ≡ set_base s a
  unfolding geometry set_words
  set_base-set_words a = refl

  shape-set_words : IsShaped s → IsShaped (set_words f start s)
  unfolding geometry set_words
  shape-set_words shape = record { word = shape.word; ways = shape.ways; tag = shape.tag }

  -- A write that keeps the addresses keeps every match.
  module _ (keeps : (line : CacheLine) → (f line).addr ≡ line.addr) where
    addr-set_words : (k : ℕ) → ((set_words f start s).cache k).addr ≡ (s.cache k).addr
    unfolding set_words
    addr-set_words k = ground (arith, keeps (s.cache k))

    same_tag-set_words : (addr i : ℕ) → same_tag (set_words f start s) addr i ≡ same_tag s addr i
    same_tag-set_words addr i = simp (get_tag-set_words, set_base-set_words, addr-set_words)

    pub match_way-set_words : (addr : ℕ) → match_way (set_words f start s) addr ≡ match_way s addr
    match_way-set_words addr = rw (fun_ext (same_tag-set_words addr)) (unfold set_words in refl)

-- A setter that finds its block writes it and nothing else.
pub set_flag_lem :
    (s : CacheLevel) (addr i : ℕ) (f : CacheLine → CacheLine)
    → match_way s addr ≡ some i
    → set_flag f addr s ≡ some (set_words f (set_base s addr + i) s)
unfolding set_flag
set_flag_lem s addr i f m = rw (m, set_flag)

-- The offset of a way, as the loops reach it.
abbrev pub way_offset : CacheLevel → ℕ → ℕ
way_offset s way = 0 + way * block_words s

-- Blocks of different ways do not overlap.
apart :
    (s : CacheLevel) (base k way : ℕ)
    → 4 ≤ s.block_size
    → k < way
    → in_block (base + way_offset s way) (block_words s) (base + way_offset s k) ≡ false
apart s base k way word lt =
    let far : suc k * block_words s ≤ way * block_words s = mul-le-mul_right (block_words s) lt in
    ground arith

module _ (s : CacheLevel) (shape : IsShaped s) (addr way : ℕ) (small : addr < 2 ^ 32) where
  abbrev placed : CacheLevel
  placed = place addr (way_offset s way) s

  get_tag-place : (a : ℕ) → get_tag a placed ≡ get_tag a s
  unfolding geometry place
  get_tag-place a = refl

  set_base-place : (a : ℕ) → set_base placed a ≡ set_base s a
  unfolding geometry place
  set_base-place a = refl

  -- The line at the start of the new block holds the address of the block.
  first-place :
      (placed.cache (set_base s addr + way_offset s way)).addr
      ≡ addr >>> block_offset s <<< block_offset s
  unfolding place copy_from_mem
  first-place = ground (arith, shape.word)

  other-place :
      (k : ℕ)
      → in_block (set_base s addr + way_offset s way) (block_words s) k ≡ false
      → placed.cache k ≡ s.cache k
  unfolding place copy_from_mem
  other-place k out = rw out

  passes-place : same_tag placed addr (way_offset s way) ≡ true
  unfolding get_tag place
  passes-place =
      rw
        (
          get_tag-place addr,
          get_tag-place (line_at placed addr (way_offset s way)).addr,
          set_base-place addr,
          first-place,
          get_tag-block s shape addr small,
        )
        (ground arith)

  earlier-place :
      (j : ℕ) → j < way → same_tag placed addr (way_offset s j) ≡ same_tag s addr (way_offset s j)
  unfolding get_tag place index_bits
  earlier-place j lt = rw (
    get_tag-place addr,
    get_tag-place (line_at placed addr (way_offset s j)).addr,
    set_base-place addr,
    other-place (set_base s addr + way_offset s j) (apart s (set_base s addr) j way shape.word lt),
  )

  match_way-place :
      way < s.associativity
      → ((j : ℕ) → j < way → same_tag s addr (way_offset s j) ≡ false)
      → match_way placed addr ≡ some (way_offset s way)
  match_way-place inside fresh = unfold place in found
    where
      found :
          first_way (same_tag placed addr) (block_words s) s.associativity 0
          ≡ some (way_offset s way)
      found =
          first_way-some (same_tag placed addr) (block_words s) s.associativity 0 way inside
            passes-place (λ j lt. rw (earlier-place j lt) (fresh j lt))

  -- The line that the fill leaves at index `k`.
  abbrev pub filled_line : ℕ → ℕ → CacheLine
  filled_line cycle k =
      let start = set_base s addr + way_offset s way in
      if in_block start (block_words s) k
      then record {
        word = (s.cache k).word;
        addr = ((addr >>> block_offset s <<< block_offset s) + (k - start) * 4) % 2 ^ 32;
        valid = true;
        dirty = false;
        done = false;
        reference = cycle;
      }
      else s.cache k

  module _ (cycle : ℕ) (inside : way < s.associativity)
      (fresh : (j : ℕ) → j < way → same_tag s addr (way_offset s j) ≡ false) where
    abbrev start : ℕ
    start = set_base s addr + way_offset s way

    abbrev t₁ : CacheLevel
    t₁ = set_words (λ line. record line { valid = true }) start placed

    abbrev t₂ : CacheLevel
    t₂ = set_words (λ line. record line { reference = cycle }) start t₁

    abbrev t₃ : CacheLevel
    t₃ = set_words (λ line. record line { dirty = false }) start t₂

    abbrev t₄ : CacheLevel
    t₄ = set_words (λ line. record line { done = false }) start t₃

    steps :
        (match_way t₁ addr ≡ some (way_offset s way))
        × (match_way t₂ addr ≡ some (way_offset s way))
        × (match_way t₃ addr ≡ some (way_offset s way))
        × (match_way t₄ addr ≡ some (way_offset s way))
    steps =
        let m₀ = match_way-place inside fresh in
        let m₁ =
          match_way-set_words placed (λ line. record line { valid = true }) start (λ line. refl)
            addr
          ∙ m₀ in
        let m₂ =
          match_way-set_words t₁ (λ line. record line { reference = cycle }) start (λ line. refl)
            addr
          ∙ m₁ in
        let m₃ =
          match_way-set_words t₂ (λ line. record line { dirty = false }) start (λ line. refl) addr
          ∙ m₂ in
        let m₄ =
          match_way-set_words t₃ (λ line. record line { done = false }) start (λ line. refl) addr
          ∙ m₃ in
        (m₁, m₂, m₃, m₄)

    bases :
        (set_base t₁ addr ≡ set_base s addr)
        × (set_base t₂ addr ≡ set_base s addr)
        × (set_base t₃ addr ≡ set_base s addr)
        × (set_base placed addr ≡ set_base s addr)
    unfolding geometry set_words place
    bases = (refl, refl, refl, refl)

    set_flags-place : set_flags addr cycle placed ≡ t₄
    unfolding set_flags
    set_flags-place = rw (
      set_flag_lem placed addr (way_offset s way) (λ line. record line { valid = true })
          (match_way-place inside fresh),
      bases.3,
      set_flag_lem t₁ addr (way_offset s way) (λ line. record line { reference = cycle }) steps.0,
      bases.0,
      set_flag_lem t₂ addr (way_offset s way) (λ line. record line { dirty = false }) steps.1,
      bases.1,
      set_flag_lem t₃ addr (way_offset s way) (λ line. record line { done = false }) steps.2,
      bases.2,
    )

    -- The array after the fill, line by line.
    pub fill-cache : (k : ℕ) → (set_flags addr cycle placed).cache k ≡ filled_line cycle k
    fill-cache k = rw set_flags-place (unfold set_words place copy_from_mem in ground arith)

    -- The new block is the first with its tag, so the setters go on finding it.
    pub match_way-fill : match_way (set_flags addr cycle placed) addr ≡ some (way_offset s way)
    match_way-fill = rw set_flags-place steps.3

    pub shape-fill : IsShaped (set_flags addr cycle placed)
    unfolding geometry place set_words
    shape-fill =
        rw set_flags-place (record { word = shape.word; ways = shape.ways; tag = shape.tag })

    pub set_base-fill : set_base (set_flags addr cycle placed) addr ≡ set_base s addr
    unfolding geometry place set_words
    set_base-fill = rw set_flags-place
