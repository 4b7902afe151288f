-- ===== src/Cache/Tests.antt =====
-- Runs of a small hierarchy.
use risc_v_microarchitecture.Base.{
  ℕ, ℤ, pos, ◌≡◌, refl, ◌⊎◌, inl, none, some, ◌<◌, ◌+◌, ◌*◌, ◌-◌, true, false, Run, ok, exit, fault,
  arith,
}
use risc_v_microarchitecture.Cache.State.{
  CacheLine, CacheLevel, Stats, Hierarchy, ◌>>=◌, ◌>>◌, return,
}
use risc_v_microarchitecture.Cache.Shape.{IsShaped}
use risc_v_microarchitecture.Cache.Fill.{filled_line}
use risc_v_microarchitecture.Cache.Victim.{IsLowest, victim_lem, victim_found, reference_at}
use risc_v_microarchitecture.Cache.Placed.{
  Chosen, Chosen-IsPlace, refilled, refilled-find_block, refilled-cache,
}
use risc_v_microarchitecture.Cache.Block.{
  present, space, or_same, set_done, line_at, block_words, log2, block_offset, n_sets, index_bits,
  set_index, get_tag, set_base, first_way, find_block, set_words, set_flag, touch, complete_below,
  complete_at, complete_read, complete_write,
}
use risc_v_microarchitecture.Cache.Evict.{
  int64_max, copy_from_mem, min_reference, victim, set_flags, place, write_back, replace,
  evict_fifo, evict_lru, evict,
}
use risc_v_microarchitecture.Cache.Access.{
  l3_read, l3_write, l2_read, l2_write, l1_i_read, l1_d_read, l1_d_write, set_read_counter,
  set_write_counter,
}

abbrev blank_line : CacheLine
blank_line = record {
  word = 0;
  addr = 0;
  valid = false;
  dirty = false;
  done = false;
  reference = 0;
}

-- Size, block size, ways, latencies and policies; level last.
abbrev level_of : ℕ → ℕ → ℕ → ℕ → ℕ → ℕ → ℕ → ℕ → CacheLevel
level_of size block ways latency write write_miss replacement number = record {
  level = number;
  cache = λ k. blank_line;
  write_latency = latency;
  read_latency = latency;
  cache_size = size;
  block_size = block;
  associativity = ways;
  write_policy = write;
  write_miss_policy = write_miss;
  replacement_policy = replacement;
}

abbrev zero_stats : Stats
zero_stats = record {
  l1_d_hit_r = 0;
  l1_d_hit_w = 0;
  l1_d_miss_r = 0;
  l1_d_miss_w = 0;
  l1_d_writebacks = 0;
  l1_i_hit_r = 0;
  l1_i_miss_r = 0;
  l1_i_writebacks = 0;
  l2_hit_r = 0;
  l2_hit_w = 0;
  l2_miss_r = 0;
  l2_miss_w = 0;
  l2_writebacks = 0;
  l3_hit_r = 0;
  l3_hit_w = 0;
  l3_miss_r = 0;
  l3_miss_w = 0;
  l3_writebacks = 0;
}

-- Level 1 of the default configuration, with small lower levels.
abbrev pub small : Hierarchy
small = record {
  cache_levels = pos 3;
  l1_i = level_of 64 16 2 1 0 1 0 1;
  l1_d = level_of 64 16 2 1 1 1 1 1;
  l2 = level_of 256 16 2 10 1 0 0 2;
  l3 = level_of 512 16 4 30 1 0 0 3;
  dram_read_latency = 200;
  dram_write_latency = 200;
  cycle = 1;
  stats = zero_stats;
}

abbrev count_of : {A : Type 0} → A → Run (A × Hierarchy) → A
count_of d (ok (a, h)) = a
count_of d exit = d
count_of d fault = d

unfoldable pub program : Unit {0}
unfolding log2 block_offset n_sets index_bits set_index get_tag set_base first_way find_block
    set_words set_flag touch complete_below complete_at copy_from_mem min_reference victim set_flags
    place write_back replace evict_fifo evict_lru evict l3_read l3_write l2_read l2_write l1_i_read
    l1_d_read l1_d_write set_read_counter set_write_counter
program = tt

-- A cold read goes through all levels, and the next one hits.
cold_and_warm :
    ◌≡◌ {A = ℤ × ℤ}
      (count_of
        (pos 0, pos 0)
        ((do
          a ← set_read_counter 0x1234
          complete_read 0x1234
          b ← set_read_counter 0x1238
          return (a, b))
          small))
      (pos 241, pos 1)
unfolding program
cold_and_warm = refl

write_allocates :
    ◌≡◌ {A = ℤ × ℤ}
      (count_of
        (pos 0, pos 0)
        ((do
          a ← set_write_counter 0x1234
          complete_write 0x1234
          b ← set_read_counter 0x1238
          return (a, b))
          small))
      (pos 242, pos 1)
unfolding program
write_allocates = refl

level_1 : IsShaped small.l1_d
unfolding program
level_1 = record { word = omega arith; ways = omega arith; tag = omega arith }

missed : find_block 0x1234 small.l1_d ≡ ok space
unfolding program
missed = refl

chosen : Chosen small.l1_d 0x1234 0
unfolding program
chosen = inl refl

refilled-find_block_example :
    find_block 0x1234 (
      or_same
        (set_done 0x1234 true (refilled small.l1_d level_1 0x1234 0 1 (omega arith) missed chosen))
        (refilled small.l1_d level_1 0x1234 0 1 (omega arith) missed chosen))
    ≡ ok present
refilled-find_block_example =
    refilled-find_block small.l1_d level_1 0x1234 0 1 (omega arith) missed chosen

refilled-cache_example :
    (refilled small.l1_d level_1 0x1234 0 1 (omega arith) missed chosen).cache 9
    ≡ filled_line small.l1_d level_1 0x1234
        (Chosen-IsPlace small.l1_d 0x1234 0 missed chosen).way
        (omega arith)
        1
        9
refilled-cache_example =
    refilled-cache small.l1_d level_1 0x1234 0 1 (omega arith) missed chosen
      (Chosen-IsPlace small.l1_d 0x1234 0 missed chosen) 9

-- A level whose second way is the older one.
abbrev aged : CacheLevel
aged = record small.l1_d {
  cache = λ k. record {
    word = 0;
    addr = 0x8000;
    valid = true;
    dirty = false;
    done = true;
    reference = 100 - k;
  };
}

aged-victim : victim aged 0 ≡ some 4
unfolding program
aged-victim = refl

victim_lem_example :
    (IsLowest aged 0 none 2 0 4 × ((line_at aged 0 4).done ≡ true))
    ⊎ ((i : ℕ) × IsLowest aged 0 none 2 0 i
        × ((line_at aged 0 i).done ≡ false)
        × IsLowest aged 0 (some i) 2 0 4)
victim_lem_example = victim_lem aged 0 4 aged-victim

young : (j : ℕ) → j < 2 → reference_at aged 0 (0 + j * block_words aged) < int64_max
young j lt = omega arith

victim_found_example : (r : ℕ) × (victim aged 0 ≡ some r)
victim_found_example = victim_found aged 0 (omega arith) (omega arith) young
