-- ===== src/Cache/State.antt =====
-- The state of the cache model: include/cache.h, the globals of src/cache/cache.c and the cache
-- counters of src/stats/stats.c.
use risc_v_microarchitecture.Base.{ℕ, ℤ, Bool, Run, ok, exit, fault, ltb, pos_part}

-- One word of a cache; a block is `block_size / 4` of them in a row. `data` of the source is
-- never read or written, and is `word` here.
pub record CacheLine : Type 0 where
  pub word : ℕ
  pub addr : ℕ
  pub valid : Bool
  pub dirty : Bool
  pub done : Bool
  pub reference : ℕ

-- The array is a function of the index; its length is `cache_size / 4`.
pub record CacheLevel : Type 0 where
  pub level : ℕ
  pub cache : ℕ → CacheLine
  pub write_latency : ℕ
  pub read_latency : ℕ
  pub cache_size : ℕ
  pub block_size : ℕ
  pub associativity : ℕ
  pub write_policy : ℕ
  pub write_miss_policy : ℕ
  pub replacement_policy : ℕ

pub record Stats : Type 0 where
  pub l1_d_hit_r : ℕ
  pub l1_d_hit_w : ℕ
  pub l1_d_miss_r : ℕ
  pub l1_d_miss_w : ℕ
  pub l1_d_writebacks : ℕ
  pub l1_i_hit_r : ℕ
  pub l1_i_miss_r : ℕ
  pub l1_i_writebacks : ℕ
  pub l2_hit_r : ℕ
  pub l2_hit_w : ℕ
  pub l2_miss_r : ℕ
  pub l2_miss_w : ℕ
  pub l2_writebacks : ℕ
  pub l3_hit_r : ℕ
  pub l3_hit_w : ℕ
  pub l3_miss_r : ℕ
  pub l3_miss_w : ℕ
  pub l3_writebacks : ℕ

-- `CACHE_LEVELS` is -1 for a memory with no latency, else the number of levels in use.
pub record Hierarchy : Type 0 where
  pub cache_levels : ℤ
  pub l1_i : CacheLevel
  pub l1_d : CacheLevel
  pub l2 : CacheLevel
  pub l3 : CacheLevel
  pub dram_read_latency : ℕ
  pub dram_write_latency : ℕ
  pub cycle : ℕ
  pub stats : Stats

-- Which of the four caches a function is handed: the struct is passed by value, but its `cache`
-- pointer names the array that is changed. No two caches share an array.
pub data Slot : Type 0 where
  at_l1_i at_l1_d at_l2 at_l3 : Slot

abbrev pub level_at : Slot → Hierarchy → CacheLevel
level_at at_l1_i h = h.l1_i
level_at at_l1_d h = h.l1_d
level_at at_l2 h = h.l2
level_at at_l3 h = h.l3

abbrev pub put_level : Slot → CacheLevel → Hierarchy → Hierarchy
put_level at_l1_i c h = record h { l1_i = c }
put_level at_l1_d c h = record h { l1_d = c }
put_level at_l2 c h = record h { l2 = c }
put_level at_l3 c h = record h { l3 = c }

-- `CACHE_LEVELS > n`
abbrev pub levels_above : ℕ → Hierarchy → Bool
levels_above n h = ltb n (pos_part h.cache_levels)

-- A stall count, or the -1 that reports a structural hazard.
pub data Stall : Type 0 where
  stalls : ℕ → Stall
  hazard : Stall

-- Code that reads and changes the caches, and may stop the process.
abbrev pub M : Type 0 → Type 0
M A = Hierarchy → Run (A × Hierarchy)

infixl 5 ◌>>=◌ ◌>>◌
abbrev pub ◌>>=◌ : {A B : Type 0} → M A → (A → M B) → M B
◌>>=◌ m f h = elim (m h) [ ok (a, h') ↦ f a h' | exit ↦ exit | fault ↦ fault ]

abbrev pub ◌>>◌ : {B : Type 0} → M (Unit {0}) → M B → M B
m >> k = m >>= λ _. k

abbrev pub return : {A : Type 0} → A → M A
return a h = ok (a, h)

abbrev pub halt : {A : Type 0} → M A
halt h = exit

abbrev pub count_stat : (Stats → Stats) → M (Unit {0})
count_stat f h = ok (tt, record h { stats = f h.stats })

-- `if(x == -1) return -1;`, else go on with the count.
abbrev pub unless_hazard : Stall → (ℕ → M Stall) → M Stall
unless_hazard hazard k = return hazard
unless_hazard (stalls n) k = k n
