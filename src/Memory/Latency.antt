-- ===== src/Memory/Latency.antt =====
-- The counters of the data port of src/memory/memory.c.
use risc_v_microarchitecture.Base.{
  ℕ, zero, suc, ◌+◌, ◌-◌, ◌%◌, ◌^◌, ◌≤◌, ◌<◌, ◌≡◌, refl, arith, pos, negsuc, false, true, Run, ok,
  ◌>>=◌,
}
use risc_v_microarchitecture.Cache.State.{Hierarchy}
use risc_v_microarchitecture.Cache.Block.{complete_read, complete_write}
use risc_v_microarchitecture.Cache.Access.{set_read_counter, set_write_counter}
use risc_v_microarchitecture.Memory.{
  Memory, read_memory, finish_read, count_read, write_memory, finish_write, count_write, add_stalls,
  load_value, store_value,
}

-- `k` calls in a row, as the pipeline makes one in each cycle of a stall.
abbrev pub read_calls : ℕ → ℕ → Memory → Run Memory
read_calls opcode zero m = ok m
read_calls opcode (suc k) m = read_memory opcode m >>= read_calls opcode k

abbrev pub write_calls : ℕ → ℕ → Memory → Run Memory
write_calls opcode zero m = ok m
write_calls opcode (suc k) m = write_memory opcode m >>= write_calls opcode k

-- The state of a data port that waits, with `n` more calls to come before the last.
abbrev pub reading : ℕ → ℕ → Hierarchy → Memory → Memory
reading n left h m = record m {
  caches = h;
  counter_r = pos left;
  n_read_d_stalls = add_stalls m.n_read_d_stalls (pos n);
  mfc = false;
}

abbrev pub writing : ℕ → ℕ → Hierarchy → Memory → Memory
writing n left h m = record m {
  caches = h;
  counter_w = pos left;
  n_write_d_stalls = add_stalls m.n_write_d_stalls (pos n);
  mfc = false;
}

-- The last call, where the caches have completed the access and the address is in range.
finish_read-ok :
    (opcode : ℕ) (m : Memory) (v : ℕ) (h : Hierarchy)
    → complete_read m.mar m.caches ≡ ok (tt, h)
    → m.mar + 3 < m.dram_size
    → load_value opcode m.dram m.mar ≡ ok v
    → finish_read opcode m
      ≡ ok (record m {
        caches = h;
        n_reads = m.n_reads + 1;
        mbr = v;
        mfc = true;
        counter_r = negsuc 0;
      })
unfolding finish_read
finish_read-ok opcode m v h completes inside loaded = ground (arith, completes, loaded)

finish_write-ok :
    (opcode : ℕ) (m : Memory) (d : ℕ → ℕ) (h : Hierarchy)
    → complete_write m.mar m.caches ≡ ok (tt, h)
    → m.text_segment_limit < m.mar
    → m.rodata_segment_limit < m.mar
    → m.mar < m.dram_size
    → store_value opcode m.dram_size m.dram m.mar m.mbr ≡ ok d
    → finish_write opcode m
      ≡ ok (record m {
        caches = h;
        n_writes = m.n_writes + 1;
        dram = d;
        mfc = true;
        counter_w = negsuc 0;
      })
unfolding finish_write
finish_write-ok opcode m d h completes text rodata inside stored = ground (arith, completes, stored)

module _ (opcode : ℕ) (h : Hierarchy) where
  read_waits :
      (m : Memory) (n left k : ℕ)
      → read_calls opcode k (reading n (left + k) h m) ≡ ok (reading n left h m)
  unfolding read_memory
  read_waits m n left zero = ground arith
  read_waits m n left (suc k) =
      let e : left + suc k ≡ suc (left + k) = omega arith in rw e (read_waits m n left k)

  read_ends :
      (m : Memory) (n k : ℕ)
      → read_calls opcode (suc k) (reading n k h m) ≡ finish_read opcode (reading n 0 h m) >>= ok
  unfolding read_memory
  read_ends m n zero = refl
  read_ends m n (suc k) = read_ends m n k

  write_ends :
      (m : Memory) (n k : ℕ)
      → write_calls opcode (suc k) (writing n k h m) ≡ finish_write opcode (writing n 0 h m) >>= ok
  unfolding write_memory
  write_ends m n zero = refl
  write_ends m n (suc k) = write_ends m n k

  write_waits :
      (m : Memory) (n left k : ℕ)
      → write_calls opcode k (writing n (left + k) h m) ≡ ok (writing n left h m)
  unfolding write_memory
  write_waits m n left zero = ground arith
  write_waits m n left (suc k) =
      let e : left + suc k ≡ suc (left + k) = omega arith in rw e (write_waits m n left k)

  read_calls-finish :
      (m : Memory) (idle n : ℕ)
      → m.counter_r ≡ negsuc idle
      → set_read_counter m.mar m.caches ≡ ok (pos (suc (suc n)), h)
      → (read_memory opcode m ≡ ok (reading (suc n) n h m))
        × (read_calls opcode (suc (suc n)) m ≡ finish_read opcode (reading (suc n) 0 h m) >>= ok)
  unfolding read_memory
  read_calls-finish m idle n at_rest asked =
      let first : read_memory opcode m ≡ ok (reading (suc n) n h m) =
        rw (at_rest, count_read, asked) in
      (first, rw first (read_ends m (suc n) n))

  write_calls-finish :
      (m : Memory) (idle n : ℕ)
      → m.counter_w ≡ negsuc idle
      → set_write_counter m.mar m.caches ≡ ok (pos (suc (suc n)), h)
      → (write_memory opcode m ≡ ok (writing (suc n) n h m))
        × (write_calls opcode (suc (suc n)) m ≡ finish_write opcode (writing (suc n) 0 h m) >>= ok)
  unfolding write_memory
  write_calls-finish m idle n at_rest asked =
      let first : write_memory opcode m ≡ ok (writing (suc n) n h m) =
        rw (at_rest, count_write, asked) in
      (first, rw first (write_ends m (suc n) n))

  -- On an idle port, a read for which the caches ask `n + 2` cycles: after the first call and
  -- `n - left` more, for a `left` up to `n`, the port is busy, with `left` calls to wait and the
  -- stall count raised by `n + 1`. Where the caches complete the read, the word at the address is
  -- inside the DRAM and the `switch` loads the value `v`, `n + 2` calls in a row return: `v` is in
  -- `mbr`, the port is idle and says so, and one read more is counted.
  pub read_calls_lem :
      (m : Memory) (idle n left v : ℕ) (h' : Hierarchy)
      → m.counter_r ≡ negsuc idle
      → set_read_counter m.mar m.caches ≡ ok (pos (suc (suc n)), h)
      → left ≤ n
      → complete_read m.mar h ≡ ok (tt, h')
      → m.mar + 3 < m.dram_size
      → load_value opcode m.dram m.mar ≡ ok v
      → (read_calls opcode (suc (n - left)) m ≡ ok (reading (suc n) left h m))
        × (read_calls opcode (suc (suc n)) m
            ≡ ok (record m {
              caches = h';
              counter_r = negsuc 0;
              mfc = true;
              mbr = v;
              n_reads = m.n_reads + 1;
              n_read_d_stalls = add_stalls m.n_read_d_stalls (pos (suc n));
            }))
  read_calls_lem m idle n left v h' at_rest asked le completes inside loaded =
      let (first, last) = read_calls-finish m idle n at_rest asked in
      let e : left + (n - left) ≡ n = omega arith in
      (
        rw first (rw e at (read_waits m (suc n) left (n - left))),
        rw (last, finish_read-ok opcode (reading (suc n) 0 h m) v h' completes inside loaded) refl,
      )

  -- On an idle port, a write for which the caches ask `n + 2` cycles: after the first call and
  -- `n - left` more, for a `left` up to `n`, the port is busy, with `left` calls to wait and the
  -- stall count raised by `n + 1`. Where the caches complete the write, the address is above the
  -- text and the read-only data and inside the DRAM and the `switch` leaves the bytes `d`, `n + 2`
  -- calls in a row return: the DRAM is `d`, the port is idle and says so, and one write more is
  -- counted.
  pub write_calls_lem :
      (m : Memory) (idle n left : ℕ) (d : ℕ → ℕ) (h' : Hierarchy)
      → m.counter_w ≡ negsuc idle
      → set_write_counter m.mar m.caches ≡ ok (pos (suc (suc n)), h)
      → left ≤ n
      → complete_write m.mar h ≡ ok (tt, h')
      → m.text_segment_limit < m.mar
      → m.rodata_segment_limit < m.mar
      → m.mar < m.dram_size
      → store_value opcode m.dram_size m.dram m.mar m.mbr ≡ ok d
      → (write_calls opcode (suc (n - left)) m ≡ ok (writing (suc n) left h m))
        × (write_calls opcode (suc (suc n)) m
            ≡ ok (record m {
              caches = h';
              dram = d;
              counter_w = negsuc 0;
              mfc = true;
              n_writes = m.n_writes + 1;
              n_write_d_stalls = add_stalls m.n_write_d_stalls (pos (suc n));
            }))
  write_calls_lem m idle n left d h' at_rest asked le completes text rodata inside stored =
      let (first, last) = write_calls-finish m idle n at_rest asked in
      let e : left + (n - left) ≡ n = omega arith in
      (
        rw first (rw e at (write_waits m (suc n) left (n - left))),
        rw
            (
              last,
              finish_write-ok opcode (writing (suc n) 0 h m) d h' completes text rodata inside
                  stored,
            )
            refl,
      )

  -- On an idle port, a hazard that the caches report as -1 is not seen: the counter becomes -2,
  -- which is not the -1 that the function tests, so no stall is flagged and no hazard counted. The
  -- port is left busy and the stall count lowered by 2.
  pub read_memory_hazard :
      (m : Memory) (idle : ℕ)
      → m.counter_r ≡ negsuc idle
      → set_read_counter m.mar m.caches ≡ ok (negsuc 0, h)
      → (m' : Memory) × (read_memory opcode m ≡ ok m')
        × (m'.structural_hazard_stall ≡ m.structural_hazard_stall)
        × (m'.n_structural_hazards ≡ m.n_structural_hazards)
        × (m'.mfc ≡ false)
        × (m'.n_read_d_stalls ≡ (m.n_read_d_stalls + 2 ^ 64 - 2) % 2 ^ 64)
  unfolding read_memory
  read_memory_hazard m idle at_rest asked = (
    record m {
      caches = h;
      counter_r = negsuc 1;
      n_read_d_stalls = add_stalls m.n_read_d_stalls (negsuc 1);
      mfc = false;
    },
    rw (at_rest, count_read, asked),
    refl,
    refl,
    refl,
    ground arith,
  )
