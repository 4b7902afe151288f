-- ===== src/Memory/Tests.antt =====
-- A memory of 64 bytes with no caches, and what the theorems say of it.
use risc_v_microarchitecture.Base.{
  ℕ, ◌+◌, ◌-◌, ◌%◌, ◌^◌, ◌≡◌, refl, arith, if◌then◌else◌, leb, ◌&&◌, bit_and, true, false, pos,
  negsuc, ok,
}
use risc_v_microarchitecture.Cache.State.{Hierarchy}
use risc_v_microarchitecture.Cache.Access.{set_read_counter, set_write_counter}
use risc_v_microarchitecture.Cache.Block.{complete_read, complete_write, complete_at}
use risc_v_microarchitecture.Cache.Tests.{small, program}
use risc_v_microarchitecture.Memory.{Memory, load_value, store_value, update, add_stalls}
use risc_v_microarchitecture.Memory.RoundTrip.{store-load_word, store-load_half}
use risc_v_microarchitecture.Memory.Latency.{
  read_calls, write_calls, reading, writing, read_calls_lem, write_calls_lem,
}

-- `CACHE_LEVELS` 0: every access takes the latency of the DRAM.
abbrev uncached : Hierarchy
uncached = record small { cache_levels = pos 0; dram_read_latency = 3; dram_write_latency = 4 }

abbrev pub sample : Memory
sample = record {
  caches = uncached;
  dram = λ k. k % 2 ^ 8;
  dram_size = 64;
  text_segment_limit = 16;
  rodata_segment_limit = 16;
  mfc_i = true;
  mar_i = 0;
  mbr_i = 0;
  mfc = true;
  mar = 20;
  mbr = 7;
  counter_i = negsuc 0;
  counter_r = negsuc 0;
  counter_w = negsuc 0;
  structural_hazard_stall = false;
  n_reads = 0;
  n_writes = 0;
  n_instruction_reads = 0;
  n_read_i_stalls = 0;
  n_read_d_stalls = 0;
  n_write_d_stalls = 0;
  n_structural_hazards = 0;
}

store-load_word_example :
    (d : ℕ → ℕ) × (store_value 2 64 (λ k. 0) 20 0x89ABCDEF ≡ ok d)
    × (load_value 2 d 20 ≡ ok 0x89ABCDEF)
    × ((k : ℕ) → d k ≡ (if leb 20 k && leb k (20 + 3) then d k else 0))
store-load_word_example = store-load_word (λ k. 0) 20 0x89ABCDEF 64 (omega arith) refl (omega arith)

store-load_half_example :
    (d : ℕ → ℕ) × (store_value 1 64 (λ k. 0) 22 0x89ABCDEF ≡ ok d)
    × (load_value 4 d 22 ≡ ok 0xCDEF)
    × (load_value 1 d 22 ≡ ok 0xFFFFCDEF)
    × ((k : ℕ) → d k ≡ (if leb 22 k && leb k (22 + 1) then d k else 0))
store-load_half_example = store-load_half (λ k. 0) 22 0x89ABCDEF 64 (omega arith) refl (omega arith)

asked_for_read : set_read_counter 20 uncached ≡ ok (pos 3, uncached)
unfolding set_read_counter
asked_for_read = refl

asked_for_write : set_write_counter 20 uncached ≡ ok (pos 4, uncached)
unfolding set_write_counter
asked_for_write = refl

completed : (a : ℕ) → complete_read a uncached ≡ ok (tt, uncached)
unfolding complete_at
completed a = refl

completed_write : complete_write 20 uncached ≡ ok (tt, uncached)
unfolding complete_at
completed_write = refl

loaded : load_value 2 sample.dram 20 ≡ ok 0x17161514
unfolding load_value
loaded = refl

read_calls_example :
    (read_calls 2 (1 + (1 - 1)) sample ≡ ok (reading 2 1 uncached sample))
    × (read_calls 2 3 sample
        ≡ ok (record sample {
          caches = uncached;
          counter_r = negsuc 0;
          mfc = true;
          mbr = 0x17161514;
          n_reads = 0 + 1;
          n_read_d_stalls = add_stalls 0 (pos 2);
        }))
read_calls_example =
    read_calls_lem 2 uncached sample 0 1 1 0x17161514 uncached refl asked_for_read (omega arith)
      (completed 20) (omega arith) loaded

abbrev stored_byte : ℕ → ℕ
stored_byte = update sample.dram 20 (bit_and 7 0x000000FF)

stored : store_value 0 64 sample.dram 20 7 ≡ ok stored_byte
unfolding store_value
stored = refl

write_calls_example :
    (write_calls 0 (1 + (2 - 1)) sample ≡ ok (writing 3 1 uncached sample))
    × (write_calls 0 4 sample
        ≡ ok (record sample {
          caches = uncached;
          dram = stored_byte;
          counter_w = negsuc 0;
          mfc = true;
          n_writes = 0 + 1;
          n_write_d_stalls = add_stalls 0 (pos 3);
        }))
write_calls_example =
    write_calls_lem 0 uncached sample 0 2 1 stored_byte uncached refl asked_for_write (omega arith)
      completed_write (omega arith) (omega arith) (omega arith) stored

-- One level whose blocks are all on their way from another address.
abbrev crowded : Hierarchy
crowded = record small {
  cache_levels = pos 1;
  l1_d = record small.l1_d {
    cache = λ k. record {
      word = 0;
      addr = 0x8000;
      valid = true;
      dirty = false;
      done = false;
      reference = 0;
    };
  };
}

hazard_reported : set_read_counter 20 crowded ≡ ok (negsuc 0, crowded)
unfolding program set_read_counter
hazard_reported = refl
