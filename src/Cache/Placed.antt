-- ===== src/Cache/Placed.antt =====
-- The place of a new block, chosen and filled by src/cache/eviction.c.
use risc_v_microarchitecture.Base.{
  ℕ, ◌+◌, ◌^◌, ◌≤◌, ◌<◌, ◌≡◌, refl, sym, ap, subst, ◌∙◌, arith, true, false, not, ◌&&◌, Option,
  none, some, ◌⊎◌, inl, inr, ok,
}
use risc_v_microarchitecture.Cache.State.{CacheLevel, CacheLine}
use risc_v_microarchitecture.Cache.Block.{
  present, space, set_base, block_words, line_at, same_tag, match_way, hit_way, set_words,
  find_block, or_same, set_done,
}
use risc_v_microarchitecture.Cache.Evict.{invalid_way, victim, place, set_flags}
use risc_v_microarchitecture.Cache.Ways.{first_way-IsFirst, first_way-none, first_way-stronger}
use risc_v_microarchitecture.Cache.Shape.{IsShaped}
use risc_v_microarchitecture.Cache.Fill.{
  way_offset, match_way-set_words, set_flag_lem, set_base-set_words, match_way-fill, fill-cache,
  shape-fill, set_base-fill, filled_line,
}
use risc_v_microarchitecture.Cache.Victim.{IsLowest, victim_lem}

-- The place that the source takes for `addr`: the first block that is not valid, or the victim.
abbrev pub Chosen : CacheLevel → ℕ → ℕ → Type 0
Chosen s addr i =
    (invalid_way s addr ≡ some i) ⊎ ((invalid_way s addr ≡ none) × (victim s addr ≡ some i))

-- A place for a block that is not in the set: all blocks before it have another tag.
pub record IsPlace (s : CacheLevel) (addr i : ℕ) : Type 0 where
  pub way : ℕ
  pub inside : way < s.associativity
  pub offset : i ≡ way_offset s way
  pub fresh : (j : ℕ) → j < way → same_tag s addr (way_offset s j) ≡ false

module _ (s : CacheLevel) (addr i : ℕ) where
  space-hit_way : find_block addr s ≡ ok space → hit_way s addr ≡ none
  unfolding find_block
  space-hit_way h = ground arith

  no_hit :
      hit_way s addr ≡ none
      → (j : ℕ) → j < s.associativity
      → (line_at s addr (way_offset s j)).valid ≡ true
      → same_tag s addr (way_offset s j) ≡ false
  no_hit miss j lt valid = ground (
    arith,
    first_way-none (λ k. (line_at s addr k).valid && same_tag s addr k) (block_words s)
        s.associativity 0 miss j lt,
  )

  pub Chosen-IsPlace : find_block addr s ≡ ok space → Chosen s addr i → IsPlace s addr i
  Chosen-IsPlace missed (inl e) =
      let f =
        first_way-IsFirst (λ k. not (line_at s addr k).valid) (block_words s) s.associativity 0 e in
      record {
        way = f.way;
        inside = f.inside;
        offset = f.offset;
        fresh = λ j lt.
            no_hit (space-hit_way missed) j (omega (arith, f.inside))
              (ground (arith, f.earlier j lt));
      }
  Chosen-IsPlace missed (inr (full_set, e)) = from (victim_lem s addr i e)
    where
      all_valid : (j : ℕ) → j < s.associativity → (line_at s addr (way_offset s j)).valid ≡ true
      all_valid j lt = ground (
        arith,
        first_way-none (λ k. not (line_at s addr k).valid) (block_words s) s.associativity 0
            full_set j lt,
      )

      from_lowest : {skip : Option ℕ} → IsLowest s addr skip s.associativity 0 i → IsPlace s addr i
      from_lowest l = record {
        way = l.way;
        inside = l.inside;
        offset = l.offset;
        fresh = λ j lt.
            no_hit (space-hit_way missed) j (omega (arith, l.inside))
              (all_valid j (omega (arith, l.inside)));
      }

      from :
          (IsLowest s addr none s.associativity 0 i × ((line_at s addr i).done ≡ true))
            ⊎ ((k : ℕ) × IsLowest s addr none s.associativity 0 k
                × ((line_at s addr k).done ≡ false)
                × IsLowest s addr (some k) s.associativity 0 i)
          → IsPlace s addr i
      from (inl (l, done)) = from_lowest l
      from (inr (k, _, _, l)) = from_lowest l

set_words-start :
    (s : CacheLevel) (f : CacheLine → CacheLine) (start : ℕ)
    → 4 ≤ s.block_size
    → (set_words f start s).cache start ≡ f (s.cache start)
unfolding set_words
set_words-start s f start word = ground arith

-- Once the setters find a valid block, and mark it done, the probe reports it.
set_done-find_block :
    (t : CacheLevel) (addr i : ℕ)
    → 4 ≤ t.block_size
    → match_way t addr ≡ some i
    → (line_at t addr i).valid ≡ true
    → find_block addr (or_same (set_done addr true t) t) ≡ ok present
set_done-find_block t addr i word m valid =
    rw (set_flag_lem t addr i (λ line. record line { done = true }) m) found
  where
    mark : CacheLine → CacheLine
    mark line = record line { done = true }

    after : CacheLevel
    after = set_words mark (set_base t addr + i) t

    m' : match_way after addr ≡ some i
    m' =
        match_way-set_words t (λ line. record line { done = true }) (set_base t addr + i)
          (λ line. refl) addr
        ∙ m

    here : line_at after addr i ≡ mark (line_at t addr i)
    here =
        ap (λ (b : ℕ). after.cache (b + i)) (set_base-set_words t mark (set_base t addr + i) addr)
        ∙ set_words-start t mark (set_base t addr + i) word

    tag : same_tag after addr i ≡ true
    tag =
        (first_way-IsFirst (same_tag after addr) (block_words after) after.associativity 0
          m').passes

    hit : hit_way after addr ≡ some i
    hit =
        first_way-stronger (same_tag after addr)
          (λ k. (line_at after addr k).valid && same_tag after addr k) (block_words after)
          after.associativity 0 i (λ k no_tag. rw no_tag (ground arith)) m'
          (ground (arith, here, tag))

    found : find_block addr after ≡ ok present
    found = unfold find_block in rw (hit, find_block) (ground (arith, here))

module _ (s : CacheLevel) (shape : IsShaped s) (addr i cycle : ℕ) (small : addr < 2 ^ 32)
    (missed : find_block addr s ≡ ok space) (chosen : Chosen s addr i) where
  abbrev pub refilled : CacheLevel
  refilled = set_flags addr cycle (place addr i s)

  -- For an address that the cache misses, in a geometry with a tag: filling the place that the
  -- source chooses writes the block there and nothing else. Its lines hold the consecutive word
  -- addresses of the block, valid, clean, not done, with the current cycle as reference, and every
  -- other line of the array is what it was.
  pub refilled-cache :
      (p : IsPlace s addr i) (k : ℕ)
      → refilled.cache k ≡ filled_line s shape addr p.way small cycle k
  refilled-cache p k =
      ap (λ (o : ℕ). (set_flags addr cycle (place addr o s)).cache k) p.offset
      ∙ fill-cache s shape addr p.way small cycle p.inside p.fresh k

  refilled-match : (p : IsPlace s addr i) → match_way refilled addr ≡ some i
  refilled-match p =
      ap (λ (o : ℕ). match_way (set_flags addr cycle (place addr o s)) addr) p.offset
      ∙ match_way-fill s shape addr p.way small cycle p.inside p.fresh
      ∙ ap some (sym p.offset)

  refilled-IsShaped : IsShaped refilled
  refilled-IsShaped =
      let p = Chosen-IsPlace s addr i missed chosen in
      subst (λ (o : ℕ). IsShaped (set_flags addr cycle (place addr o s))) (sym p.offset)
        (shape-fill s shape addr p.way small cycle p.inside p.fresh)

  refilled-valid : (p : IsPlace s addr i) → (line_at refilled addr i).valid ≡ true
  refilled-valid p =
      let base : set_base refilled addr ≡ set_base s addr =
        ap (λ (o : ℕ). set_base (set_flags addr cycle (place addr o s)) addr) p.offset
        ∙ set_base-fill s shape addr p.way small cycle p.inside p.fresh in
      ap (λ (b : ℕ). (refilled.cache (b + i)).valid) base
      ∙ ap (λ (line : CacheLine). line.valid) (refilled-cache p (set_base s addr + i))
      ∙ ground (arith, p.offset, shape.word)

  -- For an address that the cache misses, in a geometry with a tag: after the place that the source
  -- chooses is filled, the block is found as soon as it is marked done.
  pub refilled-find_block :
      find_block addr (or_same (set_done addr true refilled) refilled) ≡ ok present
  refilled-find_block =
      let p = Chosen-IsPlace s addr i missed chosen in
      set_done-find_block refilled addr i refilled-IsShaped.word (refilled-match p)
        (refilled-valid p)
