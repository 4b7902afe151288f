-- ===== src/Memory.antt =====
-- src/memory/memory.c: the instruction port and the data port of the memory. The state is the
-- globals of the file with the three `static int counter`; trace files are not modelled.
pub mod RoundTrip
pub mod Latency
pub mod Range
pub mod Tests
use risc_v_microarchitecture.Base.{
  ℕ, zero, suc, ◌+◌, ◌-◌, ◌/◌, ◌%◌, ◌^◌, ◌==◌, ltb, leb, ◌&&◌, ◌||◌, not, if◌then◌else◌, ℤ, pos,
  negsuc, pos_part, neg_part, Bool, true, false, ◌<<<◌, ◌>>>◌, sar, bit_and, bit_or, Run, ok, exit,
  fault,
}
use risc_v_microarchitecture.Cache.State.{Hierarchy}
use risc_v_microarchitecture.Cache.Block.{complete_read, complete_read_i, complete_write}
use risc_v_microarchitecture.Cache.Access.{set_read_counter, set_read_i_counter, set_write_counter}

-- `mfc` and `mfc_i` are true for COMPLETED. `dram` has `dram_size` bytes. A counter of -1 means
-- that the port is idle.
pub record Memory : Type 0 where
  pub caches : Hierarchy
  pub dram : ℕ → ℕ
  pub dram_size : ℕ
  pub text_segment_limit : ℕ
  pub rodata_segment_limit : ℕ
  pub mfc_i : Bool
  pub mar_i : ℕ
  pub mbr_i : ℕ
  pub mfc : Bool
  pub mar : ℕ
  pub mbr : ℕ
  pub counter_i : ℤ
  pub counter_r : ℤ
  pub counter_w : ℤ
  pub structural_hazard_stall : Bool
  pub n_reads : ℕ
  pub n_writes : ℕ
  pub n_instruction_reads : ℕ
  pub n_read_i_stalls : ℕ
  pub n_read_d_stalls : ℕ
  pub n_write_d_stalls : ℕ
  pub n_structural_hazards : ℕ

-- `x - 1` on int.
abbrev pub pred_int : ℤ → ℤ
pred_int (pos zero) = negsuc 0
pred_int (pos (suc n)) = pos n
pred_int (negsuc n) = negsuc (suc n)

-- `n += c` for a uint64_t `n` and an int `c`.
abbrev pub add_stalls : ℕ → ℤ → ℕ
add_stalls n c = (n + pos_part c + 2 ^ 64 - neg_part c) % 2 ^ 64

-- The caches after an operation that gives nothing back.
abbrev on_caches :
    (Hierarchy → Run (Unit {0} × Hierarchy)) → Memory → (Memory → Run Memory) → Run Memory
on_caches f m k = elim (f m.caches) [
  | ok (_, h) ↦ k (record m { caches = h })
  | exit ↦ exit
  | fault ↦ fault
]

-- The hazard branch of the three functions.
abbrev report_hazard : Memory → Memory
report_hazard m = record m {
  n_structural_hazards = m.n_structural_hazards + 1;
  structural_hazard_stall = true;
}

abbrev pub update : (ℕ → ℕ) → ℕ → ℕ → ℕ → ℕ
update dram a v k = if k == a then v else dram k

-- The four bytes of a word, in place.
abbrev pub word_at : (ℕ → ℕ) → ℕ → ℕ
word_at dram a =
    bit_or (bit_or (bit_or (dram a) (dram (a + 1) <<< 8)) (dram (a + 2) <<< 16))
      (dram (a + 3) <<< 24)

abbrev cancel_read_i : Memory → Run Memory
cancel_read_i m =
    on_caches (complete_read_i m.mar_i) (record m { counter_i = negsuc 0; mfc_i = true }) ok

-- The `counter == 0` branch of `read_memory_i`.
unfoldable finish_read_i : Memory → Run Memory
finish_read_i m = on_caches (complete_read_i m.mar_i) m λ m'.
    if ltb m'.text_segment_limit m'.mar_i
    then exit
    else if not (m'.mar_i % 4 == 0)
    then exit
    else if leb m'.dram_size (m'.mar_i + 3)
    then fault
    else ok (record m' {
      n_instruction_reads = m'.n_instruction_reads + 1;
      mbr_i = word_at m'.dram m'.mar_i;
      mfc_i = true;
      counter_i = negsuc 0;
    })

-- The code below the reload of the counter.
unfoldable step_read_i : ℤ → Memory → Run Memory
unfolding finish_read_i
step_read_i (pos zero) m = finish_read_i m
step_read_i (pos (suc n)) m = ok (record m { counter_i = pos n })
step_read_i (negsuc n) m = ok m

unfoldable loaded_read_i : ℤ → Memory → Run Memory
unfolding step_read_i
loaded_read_i (negsuc zero) m = ok (report_hazard (record m { counter_i = negsuc 0 }))
loaded_read_i c m =
    step_read_i c
      (record m { counter_i = c; n_read_i_stalls = add_stalls m.n_read_i_stalls c; mfc_i = false })

unfoldable count_read_i : ℤ → Memory → Run Memory
unfolding loaded_read_i
count_read_i (pos n) m = step_read_i (pos n) m
count_read_i (negsuc n) m = elim (set_read_i_counter m.mar_i m.caches) [
  | ok (c, h) ↦ loaded_read_i (pred_int c) (record m { caches = h })
  | exit ↦ exit
  | fault ↦ fault
]

unfoldable pub read_memory_i : Bool → Memory → Run Memory
unfolding count_read_i
read_memory_i true m = cancel_read_i m
read_memory_i false m = count_read_i m.counter_i m

-- The `switch` of `read_memory`.
unfoldable pub load_value : ℕ → (ℕ → ℕ) → ℕ → Run ℕ
load_value opcode dram mar =
    let b0 = dram mar in
    let b1 = dram (mar + 1) <<< 8 in
    if opcode == 0b000
    then ok (sar (b0 <<< 24) 24)
    else if opcode == 0b001
    then (if mar % 2 == 0 then ok (sar (bit_or b0 b1 <<< 16) 16) else exit)
    else if opcode == 0b010
    then (if mar % 4 == 0 then ok (word_at dram mar) else exit)
    else if opcode == 0b011
    then ok b0
    else if opcode == 0b100
    then (if mar % 2 == 0 then ok (bit_or b0 b1) else exit)
    else exit

-- The four bytes are read before the `switch`, also for a byte or a halfword.
unfoldable pub finish_read : ℕ → Memory → Run Memory
unfolding load_value
finish_read opcode m = on_caches (complete_read m.mar) m λ m'.
    if leb m'.dram_size m'.mar
    then exit
    else if leb m'.dram_size (m'.mar + 3)
    then fault
    else (elim (load_value opcode m'.dram m'.mar) [
      | ok v ↦
          ok (record m' { n_reads = m'.n_reads + 1; mbr = v; mfc = true; counter_r = negsuc 0 })
      | exit ↦ exit
      | fault ↦ fault
    ])

unfoldable step_read : ℕ → ℤ → Memory → Run Memory
unfolding finish_read
step_read opcode (pos zero) m = finish_read opcode m
step_read opcode (pos (suc n)) m = ok (record m { counter_r = pos n })
step_read opcode (negsuc n) m = ok m

unfoldable loaded_read : ℕ → ℤ → Memory → Run Memory
unfolding step_read
loaded_read opcode (negsuc zero) m = ok (report_hazard (record m { counter_r = negsuc 0 }))
loaded_read opcode c m =
    step_read opcode c
      (record m { counter_r = c; n_read_d_stalls = add_stalls m.n_read_d_stalls c; mfc = false })

unfoldable pub count_read : ℕ → ℤ → Memory → Run Memory
unfolding loaded_read
count_read opcode (pos n) m = step_read opcode (pos n) m
count_read opcode (negsuc n) m = elim (set_read_counter m.mar m.caches) [
  | ok (c, h) ↦ loaded_read opcode (pred_int c) (record m { caches = h })
  | exit ↦ exit
  | fault ↦ fault
]

unfoldable pub read_memory : ℕ → Memory → Run Memory
unfolding count_read
read_memory opcode m = count_read opcode m.counter_r m

-- The `switch` of `write_memory`: the bytes of `mbr` from the lowest up.
unfoldable pub store_value : ℕ → ℕ → (ℕ → ℕ) → ℕ → ℕ → Run (ℕ → ℕ)
store_value opcode size dram mar mbr =
    let b0 = bit_and mbr 0x000000FF in
    let b1 = bit_and mbr 0x0000FF00 >>> 8 in
    let b2 = bit_and mbr 0x00FF0000 >>> 16 in
    let b3 = bit_and mbr 0xFF000000 >>> 24 in
    if opcode == 0b000
    then ok (update dram mar b0)
    else if opcode == 0b001
    then (if not (mar % 2 == 0)
        then exit
        else if leb size (mar + 1)
        then fault
        else ok (update (update dram mar b0) (mar + 1) b1))
    else if opcode == 0b010
    then (if not (mar % 4 == 0)
        then exit
        else if leb size (mar + 3)
        then fault
        else ok
            (update (update (update (update dram mar b0) (mar + 1) b1) (mar + 2) b2) (mar + 3) b3))
    else exit

unfoldable pub finish_write : ℕ → Memory → Run Memory
unfolding store_value
finish_write opcode m = on_caches (complete_write m.mar) m λ m'.
    if leb m'.mar m'.text_segment_limit
    then exit
    else if leb m'.mar m'.rodata_segment_limit
    then exit
    else if leb m'.dram_size m'.mar
    then exit
    else (elim (store_value opcode m'.dram_size m'.dram m'.mar m'.mbr) [
      | ok d ↦
          ok (record m' { n_writes = m'.n_writes + 1; dram = d; mfc = true; counter_w = negsuc 0 })
      | exit ↦ exit
      | fault ↦ fault
    ])

unfoldable step_write : ℕ → ℤ → Memory → Run Memory
unfolding finish_write
step_write opcode (pos zero) m = finish_write opcode m
step_write opcode (pos (suc n)) m = ok (record m { counter_w = pos n })
step_write opcode (negsuc n) m = ok m

unfoldable loaded_write : ℕ → ℤ → Memory → Run Memory
unfolding step_write
loaded_write opcode (negsuc zero) m = ok (report_hazard (record m { counter_w = negsuc 0 }))
loaded_write opcode c m =
    step_write opcode c
      (record m { counter_w = c; n_write_d_stalls = add_stalls m.n_write_d_stalls c; mfc = false })

unfoldable pub count_write : ℕ → ℤ → Memory → Run Memory
unfolding loaded_write
count_write opcode (pos n) m = step_write opcode (pos n) m
count_write opcode (negsuc n) m = elim (set_write_counter m.mar m.caches) [
  | ok (c, h) ↦ loaded_write opcode (pred_int c) (record m { caches = h })
  | exit ↦ exit
  | fault ↦ fault
]

unfoldable pub write_memory : ℕ → Memory → Run Memory
unfolding count_write
write_memory opcode m = count_write opcode m.counter_w m
