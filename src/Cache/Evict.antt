-- ===== src/Cache/Evict.antt =====
-- src/cache/eviction.c. `evict_fifo` and `evict_lru` have the same text; the policies differ in
-- `touch`. A write-back of an upper level calls `l2_write` or `l3_write`, which are defined from
-- the eviction of the lower levels: they are arguments here.
use risc_v_microarchitecture.Base.{
  ℕ, zero, suc, ◌+◌, ◌-◌, ◌*◌, ◌%◌, ◌^◌, ◌==◌, ltb, ◌&&◌, not, if◌then◌else◌, ◌<<<◌, ◌>>>◌, Bool,
  true, false, Option, none, some, ok, exit, fault,
}
use risc_v_microarchitecture.Cache.State.{
  CacheLine, CacheLevel, Slot, at_l1_i, at_l1_d, at_l2, at_l3, Stall, stalls, M, ◌>>=◌, ◌>>◌,
  return, level_at, put_level, levels_above, count_stat,
}
use risc_v_microarchitecture.Cache.Block.{
  present, space, full, find_block, first_way, in_block, block_words, block_offset, set_base,
  line_at, set_valid, set_dirty, set_done, set_reference, or_same, complete_below,
}

abbrev pub int64_max : ℕ
int64_max = 2 ^ 63 - 1

unfoldable pub copy_from_mem : ℕ → ℕ → ℕ → (ℕ → CacheLine) → ℕ → CacheLine
copy_from_mem addr start n_words cache k =
    if in_block start n_words k
    then record (cache k) { addr = (addr + (k - start) * 4) % 2 ^ 32 }
    else cache k

module _ (s : CacheLevel) (addr : ℕ) where
  -- The search for a block that is not valid.
  abbrev pub invalid_way : Option ℕ
  invalid_way = first_way (λ i. not (line_at s addr i).valid) (block_words s) s.associativity 0

  abbrev pub skipped : Option ℕ → ℕ → Bool
  skipped none i = false
  skipped (some skip_index) i = i == skip_index

  -- The loop for the lowest reference; `none` is an index of -1.
  unfoldable pub min_reference : Option ℕ → ℕ → ℕ → ℕ → Option ℕ → Option ℕ
  min_reference skip zero i min_ref min_ref_index = min_ref_index
  min_reference skip (suc left) i min_ref min_ref_index =
      let better = not (skipped skip i) && ltb (line_at s addr i).reference min_ref in
      min_reference skip left (i + block_words s)
        (if better then (line_at s addr i).reference else min_ref)
        (if better then some i else min_ref_index)

  -- If the block with the lowest reference is not done, the lowest of the others is taken.
  unfoldable pub victim_from : Option ℕ → Option ℕ
  victim_from none = none
  victim_from (some i) =
      if (line_at s addr i).done
      then some i
      else min_reference (some i) s.associativity 0 int64_max none

  -- The block to evict from a set with no free place.
  unfoldable pub victim : Option ℕ
  unfolding victim_from
  victim = victim_from (min_reference none s.associativity 0 int64_max none)

-- The four statements after every choice of a place.
unfoldable pub set_flags : ℕ → ℕ → CacheLevel → CacheLevel
set_flags addr cycle s =
    let s₁ = or_same (set_valid addr true s) s in
    let s₂ = or_same (set_reference addr cycle s₁) s₁ in
    let s₃ = or_same (set_dirty addr false s₂) s₂ in or_same (set_done addr false s₃) s₃

-- The block at offset `i` of the set of `addr` is given the addresses of the block of `addr`.
unfoldable pub place : ℕ → ℕ → CacheLevel → CacheLevel
place addr i s =
    let block_addr = addr >>> block_offset s <<< block_offset s in
    record s { cache = copy_from_mem block_addr (set_base s addr + i) (block_words s) s.cache }

abbrev pub fill : Slot → ℕ → ℕ → M (Unit {0})
fill slot addr i h =
    ok (tt, put_level slot (set_flags addr h.cycle (place addr i (level_at slot h))) h)

count_l1_writeback : Slot → M (Unit {0})
count_l1_writeback at_l1_i = count_stat λ t. record t { l1_i_writebacks = t.l1_i_writebacks + 1 }
count_l1_writeback at_l1_d = count_stat λ t. record t { l1_d_writebacks = t.l1_d_writebacks + 1 }
count_l1_writeback at_l2 = return tt
count_l1_writeback at_l3 = return tt

module _ (l2_write l3_write : ℕ → M Stall) where
  -- The `switch` on the level for a dirty block whose first address is `old`.
  write_back_at : Slot → ℕ → ℕ → M Stall
  unfolding count_l1_writeback
  write_back_at slot level old h =
      if level == 1
      then (count_l1_writeback slot
            >> (if levels_above 1 h
                then (do stall_count ← l2_write old; complete_below old at_l2; return stall_count)
                else return (stalls h.dram_write_latency)))
          h
      else if level == 2
      then (if levels_above 2 h
            then (do
              count_stat (λ t. record t { l2_writebacks = t.l2_writebacks + 1 })
              stall_count ← l3_write old
              complete_below old at_l3
              return stall_count)
            else return (stalls h.dram_write_latency))
          h
      else if level == 3
      then (do
        count_stat (λ t. record t { l3_writebacks = t.l3_writebacks + 1 })
        return (stalls h.dram_write_latency))
          h
      else exit

  unfoldable pub write_back : Slot → ℕ → M Stall
  unfolding write_back_at
  write_back slot old h = write_back_at slot (level_at slot h).level old h

  -- The end of the two functions, at a set with no free place.
  unfoldable pub replace : Slot → ℕ → M Stall
  replace slot addr h =
      let s = level_at slot h in
      elim (victim s addr) [
        | none ↦ fault
        | some i ↦
            let line = line_at s addr i in
            if s.write_policy == 1 && line.dirty
            then (do stall_count ← write_back slot line.addr; fill slot addr i; return stall_count)
                h
            else (do fill slot addr i; return (stalls 0)) h
      ]

  evict_block : Slot → ℕ → M Stall
  evict_block slot addr h =
      let s = level_at slot h in
      elim (find_block addr s) [
        | ok present ↦ exit
        | ok space ↦ elim (invalid_way s addr) [
          | some i ↦ (do fill slot addr i; return (stalls 0)) h
          | none ↦ replace slot addr h
        ]
        | ok full ↦ exit
        | exit ↦ exit
        | fault ↦ fault
      ]

  unfoldable pub evict_fifo : ℕ → Slot → M Stall
  unfolding evict_block
  evict_fifo addr slot = evict_block slot addr

  unfoldable pub evict_lru : ℕ → Slot → M Stall
  unfolding evict_block
  evict_lru addr slot = evict_block slot addr

  unfoldable pub evict : ℕ → Slot → M Stall
  evict addr slot h =
      if (level_at slot h).replacement_policy == 0
      then evict_fifo addr slot h
      else if (level_at slot h).replacement_policy == 1
      then evict_lru addr slot h
      else exit
