-- ===== src/Config.antt =====
-- src/utils/configure.c and src/utils/json_loader.c: the default values, what a JSON document puts in
-- their place, and the arrays that are allocated for the result. The JSON library is a parameter:
-- `get` is cJSON_GetObjectItemCaseSensitive, `number` the field `valueint` of what
-- cJSON_IsNumber accepts, and `parse` is cJSON_Parse.
pub mod Document
pub mod Allocated
pub mod Tests
use risc_v_microarchitecture.Base.{
  ℕ, suc, ◌+◌, ◌-◌, ◌/◌, ◌%◌, ◌^◌, ◌==◌, ltb, if◌then◌else◌, ℤ, pos, negsuc, Bool, true, false, not,
  ◌&&◌, Option, none, some, Run, ok, exit,
}
use risc_v_microarchitecture.Assembler.Text.{CString, bytes}
use risc_v_microarchitecture.Cache.State.{CacheLine, CacheLevel}

-- The `int` fields of a `cache_level`; its array is allocated later.
pub record CacheConfig : Type 0 where
  pub level : ℤ
  pub cache_size : ℤ
  pub block_size : ℤ
  pub associativity : ℤ
  pub read_latency : ℤ
  pub write_latency : ℤ
  pub write_miss_policy : ℤ
  pub replacement_policy : ℤ
  pub write_policy : ℤ

-- The globals that the two files set.
pub record Configuration : Type 0 where
  pub cache_levels : ℤ
  pub l1_split : ℤ
  pub l1_d : CacheConfig
  pub l1_i : CacheConfig
  pub l2 : CacheConfig
  pub l3 : CacheConfig
  pub dram_read_latency : ℤ
  pub dram_write_latency : ℤ
  pub dram_size : ℤ
  pub forwarding_switch : ℤ
  pub branch_prediction_strategy : ℤ
  pub text_segment_limit : ℕ
  pub rodata_segment_limit : ℕ
  pub total_number_of_instructions : ℕ

-- l1_d and l1_i have the same values.
abbrev pub default_l1 : CacheConfig
default_l1 = record {
  level = pos 1;
  cache_size = pos 2048;
  block_size = pos 16;
  associativity = pos 2;
  read_latency = pos 1;
  write_latency = pos 1;
  write_miss_policy = pos 1;
  replacement_policy = pos 0;
  write_policy = pos 0;
}

abbrev pub default_l2 : CacheConfig
default_l2 = record {
  level = pos 2;
  cache_size = pos 8192;
  block_size = pos 32;
  associativity = pos 4;
  read_latency = pos 10;
  write_latency = pos 10;
  write_miss_policy = pos 0;
  replacement_policy = pos 0;
  write_policy = pos 1;
}

abbrev pub default_l3 : CacheConfig
default_l3 = record {
  level = pos 3;
  cache_size = pos 16384;
  block_size = pos 64;
  associativity = pos 8;
  read_latency = pos 30;
  write_latency = pos 30;
  write_miss_policy = pos 0;
  replacement_policy = pos 0;
  write_policy = pos 1;
}

abbrev pub defaults : Configuration
defaults = record {
  cache_levels = pos 3;
  l1_split = pos 1;
  l1_d = default_l1;
  l1_i = default_l1;
  l2 = default_l2;
  l3 = default_l3;
  dram_read_latency = pos 200;
  dram_write_latency = pos 200;
  dram_size = pos (2 ^ 30);
  forwarding_switch = pos 1;
  branch_prediction_strategy = pos 0;
  text_segment_limit = 0x1ffff;
  rodata_segment_limit = 0x3ffff;
  total_number_of_instructions = (0x1ffff + 1) / 4;
}

-- (uint32_t)v of an int v.
unfoldable pub to_uint32 : ℤ → ℕ
to_uint32 (pos n) = n % 2 ^ 32
to_uint32 (negsuc n) = (2 ^ 32 - suc n) % 2 ^ 32

-- (text_segment_limit + 1) / 4
unfoldable pub instruction_count : ℕ → ℕ
instruction_count limit = (limit + 1) % 2 ^ 32 / 4

module _ {J : Type 0} (get : J → CString → Option J) (number : J → Option ℤ) where
  -- READ_INT: `old` is the variable before.
  unfoldable pub read_int : J → CString → ℤ → ℤ
  read_int json name old = elim (get json name) [
    | none ↦ old
    | some tmp ↦ elim (number tmp) [ none ↦ old | some v ↦ v ]
  ]

  -- READ_INT into a uint32_t.
  unfoldable pub read_uint32 : J → CString → ℕ → ℕ
  read_uint32 json name old = elim (get json name) [
    | none ↦ old
    | some tmp ↦ elim (number tmp) [ none ↦ old | some v ↦ to_uint32 v ]
  ]

  unfoldable pub read_cache_config : Option J → CacheConfig → CacheConfig
  read_cache_config none c = c
  read_cache_config (some json) c = record {
    level = c.level;
    cache_size = read_int json (bytes "cache_size") c.cache_size;
    block_size = read_int json (bytes "block_size") c.block_size;
    associativity = read_int json (bytes "associativity") c.associativity;
    read_latency = read_int json (bytes "read_latency") c.read_latency;
    write_latency = read_int json (bytes "write_latency") c.write_latency;
    write_miss_policy = read_int json (bytes "write_miss_policy") c.write_miss_policy;
    replacement_policy = read_int json (bytes "replacement_policy") c.replacement_policy;
    write_policy = read_int json (bytes "write_policy") c.write_policy;
  }

  -- From the root of the document on.
  unfoldable pub read_root : J → Configuration → Configuration
  read_root root c =
      let limit = read_uint32 root (bytes "text_segment_limit") c.text_segment_limit in
      record {
        cache_levels = read_int root (bytes "CACHE_LEVELS") c.cache_levels;
        l1_split = read_int root (bytes "L1_SPLIT") c.l1_split;
        l1_d = record (read_cache_config (get root (bytes "l1_d")) c.l1_d) { level = pos 1 };
        l1_i = record (read_cache_config (get root (bytes "l1_i")) c.l1_i) { level = pos 1 };
        l2 = record (read_cache_config (get root (bytes "l2")) c.l2) { level = pos 2 };
        l3 = record (read_cache_config (get root (bytes "l3")) c.l3) { level = pos 3 };
        dram_read_latency = read_int root (bytes "DRAM_READ_LATENCY") c.dram_read_latency;
        dram_write_latency = read_int root (bytes "DRAM_WRITE_LATENCY") c.dram_write_latency;
        dram_size = read_int root (bytes "DRAM_SIZE") c.dram_size;
        forwarding_switch = read_int root (bytes "FORWARDING_SWITCH") c.forwarding_switch;
        branch_prediction_strategy =
            read_int root (bytes "BRANCH_PREDICTION_STRATEGY") c.branch_prediction_strategy;
        text_segment_limit = limit;
        rodata_segment_limit =
            read_uint32 root (bytes "rodata_segment_limit") c.rodata_segment_limit;
        total_number_of_instructions = instruction_count limit;
      }

  -- `buffer` is the text of the file, or none where it cannot be opened or read.
  unfoldable pub load_config_json :
      (CString → Option J) → Option CString → Configuration → Configuration
  load_config_json parse none c = c
  load_config_json parse (some buffer) c = elim (parse buffer) [
    | none ↦ c
    | some root ↦ read_root root c
  ]

-- A line that calloc has filled with zeros.
abbrev pub zero_line : CacheLine
zero_line = record { word = 0; addr = 0; valid = false; dirty = false; done = false; reference = 0 }

-- `sizeof(cache_line)`, with `reference` at a multiple of 8, and `sizeof(char *)`.
abbrev sizeof_cache_line : ℕ
sizeof_cache_line = 24

abbrev sizeof_pointer : ℕ
sizeof_pointer = 8

-- An `int` as a size_t, and the quotient by 4 as one: C rounds towards 0.
unfoldable pub to_size : ℤ → ℕ
to_size (pos n) = n
to_size (negsuc n) = 2 ^ 64 - suc n

unfoldable pub line_count : ℤ → ℕ
line_count (pos n) = n / 4
line_count (negsuc n) = (2 ^ 64 - suc n / 4) % 2 ^ 64

-- The natural number in an `int`. For a negative size or latency the code that uses it is not
-- modelled: `main` asks `is_regular` before the simulation.
abbrev pub natural_part : ℤ → ℕ
natural_part (pos n) = n
natural_part (negsuc n) = 0

abbrev is_natural : ℤ → Bool
is_natural (pos n) = true
is_natural (negsuc n) = false

-- Blocks of whole words, one or more, and one block or more in a set.
abbrev is_regular_cache : CacheConfig → Bool
is_regular_cache c =
    not (natural_part c.block_size == 0)
    && (natural_part c.block_size % 4 == 0
        && (not (natural_part c.associativity == 0)
            && (is_natural c.level
                && (is_natural c.cache_size
                    && (is_natural c.read_latency && is_natural c.write_latency)))))

-- The configurations whose simulation is modelled: no size or latency is negative, and every cache
-- has sets of blocks of whole words. A loop of the source over a set with other blocks makes another
-- number of rounds than it has ways.
unfoldable pub is_regular : Configuration → Bool
is_regular c =
    is_regular_cache c.l1_d
    && (is_regular_cache c.l1_i
        && (is_regular_cache c.l2
            && (is_regular_cache c.l3
                && (is_natural c.dram_read_latency && is_natural c.dram_write_latency))))

-- A cache with the array that calloc gives. The policies are only compared with 0 and 1.
unfoldable pub new_cache : CacheConfig → CacheLevel
new_cache c = record {
  level = natural_part c.level;
  cache = λ i. zero_line;
  write_latency = natural_part c.write_latency;
  read_latency = natural_part c.read_latency;
  cache_size = natural_part c.cache_size;
  block_size = natural_part c.block_size;
  associativity = natural_part c.associativity;
  write_policy = to_uint32 c.write_policy;
  write_miss_policy = to_uint32 c.write_miss_policy;
  replacement_policy = to_uint32 c.replacement_policy;
}

-- The globals behind `configure`. The result of the last calloc, for `instructions`, is not tested.
pub record System : Type 0 where
  pub config : Configuration
  pub l1_d : CacheLevel
  pub l1_i : CacheLevel
  pub l2 : CacheLevel
  pub l3 : CacheLevel
  pub dram : ℕ → ℕ
  pub has_instructions : Bool

-- `calloc k count size` is whether the k-th request, for `count` objects of `size` bytes, is granted.
module _ (calloc : ℕ → ℕ → ℕ → Bool) where
  unfoldable pub granted : Configuration → Bool
  granted c =
      calloc 0 (line_count c.l1_d.cache_size) sizeof_cache_line
      && (calloc 1 (line_count c.l1_i.cache_size) sizeof_cache_line
          && (calloc 2 (line_count c.l2.cache_size) sizeof_cache_line
              && (calloc 3 (line_count c.l3.cache_size) sizeof_cache_line
                  && calloc 4 (to_size c.dram_size) 1)))

  -- From the values on.
  unfoldable pub allocate : Configuration → Run System
  allocate c =
      if granted c
      then ok (record {
        config = c;
        l1_d = new_cache c.l1_d;
        l1_i = new_cache c.l1_i;
        l2 = new_cache c.l2;
        l3 = new_cache c.l3;
        dram = λ a. 0;
        has_instructions = calloc 5 c.total_number_of_instructions sizeof_pointer;
      })
      else exit

  -- `path` gives the text of the file, if a path is given and the file can be read.
  unfoldable pub configure :
      {J : Type 0}
      → (J → CString → Option J)
      → (J → Option ℤ)
      → (CString → Option J)
      → Option CString
      → Run System
  configure get number parse path = allocate (load_config_json get number parse path defaults)
