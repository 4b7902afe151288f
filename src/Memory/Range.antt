-- ===== src/Memory/Range.antt =====
-- The range check of `read_memory` in src/memory/memory.c.
use risc_v_microarchitecture.Base.{ℕ, ◌+◌, ◌%◌, ◌≤◌, ◌<◌, ◌≡◌, arith, negsuc, true, ok, fault}
use risc_v_microarchitecture.Cache.State.{Hierarchy}
use risc_v_microarchitecture.Cache.Block.{complete_read}
use risc_v_microarchitecture.Memory.{Memory, finish_read, load_value, word_at}

module _ (m : Memory) (h : Hierarchy) (completed : complete_read m.mar m.caches ≡ ok (tt, h)) where
  -- A load of any width, also of a byte, from one of the last three bytes of the memory, once the
  -- caches have completed it, reads beyond the array, since four bytes are read and only the first
  -- is checked.
  pub finish_read-end :
      (opcode : ℕ) → m.mar < m.dram_size → m.dram_size ≤ m.mar + 3 → finish_read opcode m ≡ fault
  unfolding finish_read
  finish_read-end opcode inside short = ground (arith, completed)

  -- The end of a word load that the caches have completed, from an aligned address inside a memory
  -- of whole words: it gives a result, in which the port is free and idle again, holds the four
  -- bytes and has counted the read, and nothing else changed but the caches.
  pub finish_read-word :
      m.dram_size % 4 ≡ 0
      → m.mar % 4 ≡ 0
      → m.mar < m.dram_size
      → finish_read 2 m
        ≡ ok (record m {
          caches = h;
          n_reads = m.n_reads + 1;
          mbr = word_at m.dram m.mar;
          mfc = true;
          counter_r = negsuc 0;
        })
  unfolding finish_read load_value
  finish_read-word whole aligned inside = ground (arith, completed)
