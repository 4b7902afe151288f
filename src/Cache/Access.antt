-- ===== src/Cache/Access.antt =====
-- src/cache/read.c and src/cache/write.c, a read and a write for each level, from the lowest up.
-- A write that allocates calls itself once more after the read; the fuel of 2 allows that call.
use risc_v_microarchitecture.Base.{
  ℕ, zero, suc, ◌+◌, ◌-◌, ◌==◌, if◌then◌else◌, ℤ, pos, negsuc, true, false, ok, exit, fault,
}
use risc_v_microarchitecture.Cache.State.{
  Hierarchy, Stats, Slot, at_l1_i, at_l1_d, at_l2, at_l3, Stall, stalls, hazard, M, ◌>>=◌, ◌>>◌,
  return, halt, level_at, levels_above, count_stat, unless_hazard,
}
use risc_v_microarchitecture.Cache.Block.{
  Found, present, space, full, find_block, touch, mark_done, mark_dirty, complete_below,
}
use risc_v_microarchitecture.Cache.Evict.{evict}

abbrev probe_at : Slot → ℕ → M Found
probe_at slot addr h = elim (find_block addr (level_at slot h)) [
  | ok found ↦ ok (found, h)
  | exit ↦ exit
  | fault ↦ fault
]

abbrev pub ask : {A : Type 0} → (Hierarchy → A) → M A
ask f h = ok (f h, h)

abbrev when_above : {A : Type 0} → ℕ → M A → M A → M A
when_above n yes_above otherwise h = if levels_above n h then yes_above h else otherwise h

-- A write handed to `evict` at a level that never writes back to that cache.
abbrev no_write : ℕ → M Stall
no_write addr h = fault

-- The end of every hit: touch, mark the block as in use, count, and give the cost.
abbrev hit : Slot → ℕ → (Stats → Stats) → (Hierarchy → ℕ) → M Stall
hit slot addr counted cost = do
  touch addr slot
  mark_done slot addr false
  count_stat counted
  ask (λ h. stalls (cost h))

-- The read of one level: `below` is the read of the next one, or the latency of the memory.
read_level : Slot → (Stats → Stats) → (Stats → Stats) → M Stall → (ℕ → Slot → M Stall) → ℕ → M Stall
read_level slot hits misses below evicts addr = do
  found ← probe_at slot addr
  elim found [
    | present ↦ hit slot addr hits (λ h. (level_at slot h).read_latency)
    | full ↦ return hazard
    | space ↦ (do
      stall_count ← below
      unless_hazard stall_count λ n. do
        stall_count2 ← evicts addr slot
        unless_hazard stall_count2
            λ n₂. do count_stat misses; ask (λ h. stalls ((level_at slot h).read_latency + n + n₂)))
  ]

memory_read : M Stall
memory_read = ask (λ h. stalls h.dram_read_latency)

memory_write : M Stall
memory_write = ask (λ h. stalls h.dram_write_latency)

unfoldable pub l3_read : ℕ → M Stall
unfolding read_level memory_read
l3_read addr =
    read_level at_l3 (λ t. record t { l3_hit_r = t.l3_hit_r + 1 })
      (λ t. record t { l3_miss_r = t.l3_miss_r + 1 }) memory_read (evict no_write no_write) addr

-- What the counters of a write of one level are.
record WriteStats : Type 0 where
  hit_w : Stats → Stats
  miss_w : Stats → Stats
  -- after a miss that allocated: the read's miss and the second write's hit do not count
  allocated : Stats → Stats

-- A write that finds no block: allocate and write again, or pass the write on to `below`.
write_miss : Slot → WriteStats → M Stall → (ℕ → M Stall) → M Stall → ℕ → ℕ → M Stall
write_miss slot counts below read again policy addr =
    if policy == 1
    then (do
      stall_count ← read addr
      unless_hazard stall_count λ n. do
        complete_below addr slot
        stall_count2 ← again
        elim stall_count2 [
          | hazard ↦ halt
          | stalls n₂ ↦ (do count_stat counts.allocated; return (stalls (n + n₂)))
        ])
    else if policy == 0
    then (do
      stall_count ← below
      unless_hazard stall_count λ n. do count_stat counts.miss_w; return (stalls n))
    else halt

write_hit : Slot → WriteStats → M Stall → ℕ → ℕ → M Stall
write_hit slot counts below policy addr =
    if policy == 0
    then (do
      stall_count ← below
      unless_hazard stall_count
          λ n. hit slot addr counts.hit_w (λ h. (level_at slot h).write_latency + n))
    else if policy == 1
    then (do
      mark_dirty slot addr true
      hit slot addr counts.hit_w (λ h. (level_at slot h).write_latency))
    else halt

-- The write of one level. `below` is the write of the next one, or the latency of the memory;
-- `again` is the call of the write itself once the block is allocated.
write_level : Slot → WriteStats → M Stall → (ℕ → M Stall) → M Stall → ℕ → M Stall
unfolding write_miss write_hit
write_level slot counts below read again addr = do
  found ← probe_at slot addr
  s ← ask (level_at slot)
  elim found [
    | present ↦ write_hit slot counts below s.write_policy addr
    | space ↦ write_miss slot counts below read again s.write_miss_policy addr
    | full ↦
        if s.write_miss_policy == 1
        then return hazard
        else write_miss slot counts below read again s.write_miss_policy addr
  ]

abbrev l3_counts : WriteStats
l3_counts = record {
  hit_w = λ t. record t { l3_hit_w = t.l3_hit_w + 1 };
  miss_w = λ t. record t { l3_miss_w = t.l3_miss_w + 1 };
  allocated = λ t. record t {
    l3_miss_r = t.l3_miss_r - 1;
    l3_hit_w = t.l3_hit_w - 1;
    l3_miss_w = t.l3_miss_w + 1;
  };
}

abbrev l2_counts : WriteStats
l2_counts = record {
  hit_w = λ t. record t { l2_hit_w = t.l2_hit_w + 1 };
  miss_w = λ t. record t { l2_miss_w = t.l2_miss_w + 1 };
  allocated = λ t. record t {
    l2_miss_r = t.l2_miss_r - 1;
    l2_hit_w = t.l2_hit_w - 1;
    l2_miss_w = t.l2_miss_w + 1;
  };
}

abbrev l1_d_counts : WriteStats
l1_d_counts = record {
  hit_w = λ t. record t { l1_d_hit_w = t.l1_d_hit_w + 1 };
  miss_w = λ t. record t { l1_d_miss_w = t.l1_d_miss_w + 1 };
  allocated = λ t. record t {
    l1_d_miss_r = t.l1_d_miss_r - 1;
    l1_d_hit_w = t.l1_d_hit_w - 1;
    l1_d_miss_w = t.l1_d_miss_w + 1;
  };
}

l3_write_fuel : ℕ → ℕ → M Stall
unfolding write_level memory_write
l3_write_fuel zero addr h = fault
l3_write_fuel (suc fuel) addr h =
    write_level at_l3 l3_counts memory_write l3_read (l3_write_fuel fuel addr) addr h

unfoldable pub l3_write : ℕ → M Stall
unfolding l3_write_fuel
l3_write = l3_write_fuel 2

unfoldable pub l2_read : ℕ → M Stall
unfolding read_level memory_read
l2_read addr =
    read_level at_l2 (λ t. record t { l2_hit_r = t.l2_hit_r + 1 })
      (λ t. record t { l2_miss_r = t.l2_miss_r + 1 }) (when_above 2 (l3_read addr) memory_read)
      (evict no_write l3_write) addr

l2_write_fuel : ℕ → ℕ → M Stall
unfolding write_level memory_write
l2_write_fuel zero addr h = fault
l2_write_fuel (suc fuel) addr h =
    write_level at_l2 l2_counts (when_above 2 (l3_write addr) memory_write) l2_read
      (l2_write_fuel fuel addr) addr h

unfoldable pub l2_write : ℕ → M Stall
unfolding l2_write_fuel
l2_write = l2_write_fuel 2

unfoldable pub l1_i_read : ℕ → M Stall
unfolding read_level memory_read
l1_i_read addr =
    read_level at_l1_i (λ t. record t { l1_i_hit_r = t.l1_i_hit_r + 1 })
      (λ t. record t { l1_i_miss_r = t.l1_i_miss_r + 1 }) (when_above 1 (l2_read addr) memory_read)
      (evict l2_write l3_write) addr

unfoldable pub l1_d_read : ℕ → M Stall
unfolding read_level memory_read
l1_d_read addr =
    read_level at_l1_d (λ t. record t { l1_d_hit_r = t.l1_d_hit_r + 1 })
      (λ t. record t { l1_d_miss_r = t.l1_d_miss_r + 1 }) (when_above 1 (l2_read addr) memory_read)
      (evict l2_write l3_write) addr

l1_d_write_fuel : ℕ → ℕ → M Stall
unfolding write_level memory_write
l1_d_write_fuel zero addr h = fault
l1_d_write_fuel (suc fuel) addr h =
    write_level at_l1_d l1_d_counts (when_above 1 (l2_write addr) memory_write) l1_d_read
      (l1_d_write_fuel fuel addr) addr h

unfoldable pub l1_d_write : ℕ → M Stall
unfolding l1_d_write_fuel
l1_d_write = l1_d_write_fuel 2

-- The `int` that `set_read_counter` and the others return.
abbrev to_int : Stall → ℤ
to_int (stalls n) = pos n
to_int hazard = negsuc 0

counter_from : ℤ → M Stall → M ℤ
counter_from (negsuc zero) m = return (pos 1)
counter_from (negsuc (suc n)) m = do c ← m; return (to_int c)
counter_from (pos n) m = do c ← m; return (to_int c)

-- The common form of the three: 1 where there is no memory latency at all, the read or write of
-- level 1 where there is a cache, and the latency of the memory where there is none.
set_counter : (ℕ → M Stall) → M Stall → ℕ → M ℤ
unfolding counter_from
set_counter level_one memory addr h =
    counter_from h.cache_levels (when_above 0 (level_one addr) memory) h

unfoldable pub set_read_i_counter : ℕ → M ℤ
unfolding set_counter memory_read
set_read_i_counter = set_counter l1_i_read memory_read

unfoldable pub set_read_counter : ℕ → M ℤ
unfolding set_counter memory_read
set_read_counter = set_counter l1_d_read memory_read

unfoldable pub set_write_counter : ℕ → M ℤ
unfolding set_counter memory_write
set_write_counter = set_counter l1_d_write memory_write
