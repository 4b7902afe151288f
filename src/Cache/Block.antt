-- ===== src/Cache/Block.antt =====
-- src/cache/cache.c and src/cache/setters.c: where an address belongs in a cache, the probe
-- `find_block`, and the setters of the flags of a block.
use native.Mathlib.Nat.{pow-suc}
use risc_v_microarchitecture.Base.{
  ℕ, zero, suc, ◌+◌, ◌*◌, ◌/◌, ◌%◌, ◌==◌, ltb, leb, ◌&&◌, ◌||◌, not, if◌then◌else◌, sub32, ◌<<<◌,
  ◌>>>◌, Bool, true, false, Option, none, some, Run, ok, exit, fault, ◌^◌, ◌≤◌, ◌≡◌, refl, arith,
  le_or_lt, inl, inr,
}
use risc_v_microarchitecture.Cache.State.{
  CacheLine, CacheLevel, Slot, at_l1_i, at_l1_d, at_l2, at_l3, M, ◌>>◌, return, level_at, put_level,
  levels_above,
}

log2_fuel : ℕ → ℕ → ℕ
log2_fuel zero n = 0
log2_fuel (suc fuel) n = let rest = log2_fuel fuel (n / 2) in if ltb n 2 then 0 else rest + 1

-- `(uint32_t)log2(n)`; the words of the source have 32 bits.
unfoldable pub log2 : ℕ → ℕ
unfolding log2_fuel
log2 n = log2_fuel 32 n

pow-log2_fuel : (fuel n : ℕ) → 1 ≤ n → 2 ^ log2_fuel fuel n ≤ n
unfolding log2_fuel
pow-log2_fuel zero n h = omega arith
pow-log2_fuel (suc fuel) n h = elim (le_or_lt 2 n) [
  | inl p ↦
      let rest = pow-log2_fuel fuel (n / 2) (omega arith) in
      ground (arith, rest, pow-suc 2 (log2_fuel fuel (n / 2)))
  | inr p ↦ ground arith
]

pub pow-log2 : (n : ℕ) → 1 ≤ n → 2 ^ log2 n ≤ n
unfolding log2
pow-log2 = pow-log2_fuel 32

log2_fuel-zero : (fuel : ℕ) → log2_fuel fuel 0 ≡ 0
unfolding log2_fuel
log2_fuel-zero zero = refl
log2_fuel-zero (suc fuel) = ground arith

pub log2-pos : (n : ℕ) → 1 ≤ log2 n → 1 ≤ n
unfolding log2
log2-pos zero h = absurd (omega (arith, h, log2_fuel-zero 32))
log2-pos (suc n) h = omega arith

-- The locals that every function of the cache computes from a `cache_level`.
unfoldable pub block_offset : CacheLevel → ℕ
block_offset s = log2 s.block_size

unfoldable pub n_sets : CacheLevel → ℕ
n_sets s = s.cache_size / (s.block_size * s.associativity)

unfoldable pub index_bits : CacheLevel → ℕ
index_bits s = log2 (n_sets s)

unfoldable pub set_index : CacheLevel → ℕ → ℕ
set_index s addr =
    addr <<< sub32 (sub32 32 (index_bits s)) (block_offset s) >>> sub32 32 (index_bits s)

unfoldable pub get_tag : ℕ → CacheLevel → ℕ
get_tag addr s = addr >>> (index_bits s + block_offset s)

abbrev pub block_words : CacheLevel → ℕ
block_words s = s.block_size / 4

-- The first line of the set of `addr`.
unfoldable pub set_base : CacheLevel → ℕ → ℕ
set_base s addr = set_index s addr * s.associativity % 2 ^ 32 * s.block_size % 2 ^ 32 / 4

-- A loop over a set, `for(i = 0; i < n_way * block_size / 4; i += block_size / 4)`, makes `n_way`
-- rounds where the blocks are whole words, as in every cache that `main` simulates with; here
-- `left` of them are to go, at offset `i`. It gives the first offset that passes.
unfoldable pub first_way : (ℕ → Bool) → ℕ → ℕ → ℕ → Option ℕ
first_way test step zero i = none
first_way test step (suc left) i =
    let rest = first_way test step left (i + step) in if test i then some i else rest

module _ (s : CacheLevel) (addr : ℕ) where
  abbrev pub line_at : ℕ → CacheLine
  line_at i = s.cache (set_base s addr + i)

  abbrev pub same_tag : ℕ → Bool
  same_tag i = get_tag (line_at i).addr s == get_tag addr s

  -- The first loop of `find_block`: it stops at a valid block with the tag.
  abbrev pub hit_way : Option ℕ
  hit_way = first_way (λ i. (line_at i).valid && same_tag i) (block_words s) s.associativity 0

  -- The second loop of `find_block`.
  abbrev pub free_way : Option ℕ
  free_way =
      first_way (λ i. not (line_at i).valid || (line_at i).done) (block_words s) s.associativity 0

  -- The loop of the setters: the first block with the tag, valid or not.
  abbrev pub match_way : Option ℕ
  match_way = first_way same_tag (block_words s) s.associativity 0

-- The codes 1, 0 and -1 of `find_block`.
pub data Found : Type 0 where
  present space full : Found

unfoldable pub find_block : ℕ → CacheLevel → Run Found
find_block addr s = elim (hit_way s addr) [
  | some i ↦ if (line_at s addr i).done then ok present else exit
  | none ↦ elim (free_way s addr) [ some i ↦ ok space | none ↦ ok full ]
]

abbrev pub in_block : ℕ → ℕ → ℕ → Bool
in_block start words k = leb start k && ltb k (start + words)

-- The inner loop of the setters, over the words of a block.
unfoldable pub set_words : (CacheLine → CacheLine) → ℕ → CacheLevel → CacheLevel
set_words f start s = record s {
  cache = λ k. if in_block start (block_words s) k then f (s.cache k) else s.cache k;
}

-- The body that the four setters share; `none` is the -1.
unfoldable pub set_flag : (CacheLine → CacheLine) → ℕ → CacheLevel → Option CacheLevel
set_flag f addr s = elim (match_way s addr) [
  | some i ↦ some (set_words f (set_base s addr + i) s)
  | none ↦ none
]

abbrev pub set_valid : ℕ → Bool → CacheLevel → Option CacheLevel
set_valid addr v = set_flag (λ line. record line { valid = v }) addr

abbrev pub set_dirty : ℕ → Bool → CacheLevel → Option CacheLevel
set_dirty addr v = set_flag (λ line. record line { dirty = v }) addr

abbrev pub set_done : ℕ → Bool → CacheLevel → Option CacheLevel
set_done addr v = set_flag (λ line. record line { done = v }) addr

abbrev pub set_reference : ℕ → ℕ → CacheLevel → Option CacheLevel
set_reference addr v = set_flag (λ line. record line { reference = v }) addr

-- A setter whose return code the caller drops: without a match nothing changes.
abbrev pub or_same : Option CacheLevel → CacheLevel → CacheLevel
or_same (some s) old = s
or_same none old = old

abbrev pub mark_done : Slot → ℕ → Bool → M (Unit {0})
mark_done slot addr v h =
    let s = level_at slot h in ok (tt, put_level slot (or_same (set_done addr v s) s) h)

abbrev pub mark_dirty : Slot → ℕ → Bool → M (Unit {0})
mark_dirty slot addr v h =
    let s = level_at slot h in ok (tt, put_level slot (or_same (set_dirty addr v s) s) h)

touch_level : ℕ → ℕ → CacheLevel → Run CacheLevel
touch_level addr cycle s =
    if s.replacement_policy == 1
    then (elim (set_reference addr cycle s) [ some s' ↦ ok s' | none ↦ exit ])
    else ok s

unfoldable pub touch : ℕ → Slot → M (Unit {0})
unfolding touch_level
touch addr slot h = elim (touch_level addr h.cycle (level_at slot h)) [
  | ok s ↦ ok (tt, put_level slot s h)
  | exit ↦ exit
  | fault ↦ fault
]

mark_when : Bool → Slot → ℕ → M (Unit {0})
mark_when true slot addr = mark_done slot addr true
mark_when false slot addr = return tt

-- The cases of `complete_below` fall through from a level to those below it.
below_by_level : ℕ → Slot → ℕ → M (Unit {0})
unfolding mark_when
below_by_level level slot addr h =
    if level == 1
    then (mark_when (levels_above 0 h) slot addr
          >> mark_when (levels_above 1 h) at_l2 addr
          >> mark_when (levels_above 2 h) at_l3 addr)
        h
    else if level == 2
    then (mark_when (levels_above 1 h) at_l2 addr >> mark_when (levels_above 2 h) at_l3 addr) h
    else if level == 3
    then mark_when (levels_above 2 h) at_l3 addr h
    else exit

unfoldable pub complete_below : ℕ → Slot → M (Unit {0})
unfolding below_by_level
complete_below addr slot h = below_by_level (level_at slot h).level slot addr h

unfoldable pub complete_at : Slot → ℕ → M (Unit {0})
unfolding mark_when
complete_at slot addr h =
    (mark_when (levels_above 0 h) slot addr
        >> mark_when (levels_above 1 h) at_l2 addr
        >> mark_when (levels_above 2 h) at_l3 addr)
      h

-- `complete_read_i`, `complete_read` and `complete_write`: no call changes CACHE_LEVELS.
abbrev pub complete_read_i : ℕ → M (Unit {0})
complete_read_i = complete_at at_l1_i

abbrev pub complete_read : ℕ → M (Unit {0})
complete_read = complete_at at_l1_d

abbrev pub complete_write : ℕ → M (Unit {0})
complete_write = complete_at at_l1_d
