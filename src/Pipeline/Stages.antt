-- ===== src/Pipeline/Stages.antt =====
-- src/pipeline/if.c, src/pipeline/ma.c and src/pipeline/wb.c.
use risc_v_microarchitecture.Base.{
  ℕ, ◌+◌, ◌/◌, ◌==◌, if◌then◌else◌, true, false, add32, bit_and, ◌>>>◌, Run, ok, ◌>>=◌,
}
use risc_v_microarchitecture.Memory.{read_memory_i, read_memory, write_memory}
use risc_v_microarchitecture.Pipeline.State.{Machine, Ins, null, blank, text, CpuStats, empty_if_id}
use risc_v_microarchitecture.Pipeline.Forward.{forward_ma}

unfoldable pub fetched : Machine → Machine
fetched m =
    if m.memory.mfc_i
    then record m {
      ir = m.memory.mbr_i;
      pc = add32 m.pc 4;
      if_id = record {
        ir = m.memory.mbr_i;
        pc = m.pc;
        pc_next = add32 m.pc 4;
        ins = m.instructions (m.pc / 4);
      };
    }
    else record m { if_id = empty_if_id }

unfoldable pub if_stage : Machine → Run Machine
unfolding fetched
if_stage m =
    let memory = if m.memory.mfc_i then record m.memory { mar_i = m.pc } else m.memory in
    read_memory_i false memory >>= λ memory'. ok (fetched (record m { memory = memory' }))

abbrev count_cpu : (CpuStats → CpuStats) → Machine → Machine
count_cpu f m = record m { stats = f m.stats }

-- The outcome of a branch against its prediction; `actual` is bit 1 and `predicted` bit 0 of
-- `branch_taken`.
unfoldable pub resolve_branch : ℕ → ℕ → Machine → Machine
resolve_branch actual predicted m =
    let m₁ = count_cpu (λ t. record t { n_branch_instructions = t.n_branch_instructions + 1 }) m in
    let m₂ =
      if actual == 1
      then count_cpu (λ t. record t { branches_taken = t.branches_taken + 1 }) m₁
      else count_cpu (λ t. record t { branches_not_taken = t.branches_not_taken + 1 }) m₁ in
    if actual == predicted
    then count_cpu (λ t. record t { branch_hit = t.branch_hit + 1 }) m₂
    else if actual == 1
    then count_cpu (λ t. record t { branch_miss = t.branch_miss + 1 })
        (record m₂ { pc = m.ex_ma.pc_next; flush = true })
    else count_cpu (λ t. record t { branch_miss = t.branch_miss + 1 })
        (record m₂ { pc = m.ex_ma.result; flush = true })

-- The branch of the stage with no memory access.
unfoldable pub ma_control_flow : Machine → Machine
unfolding resolve_branch
ma_control_flow m =
    let control = m.ex_ma.cs_ma in
    if control.jump_or_branch == 1
    then record m { pc = m.ex_ma.pc_next; flush = true }
    else if control.jump_or_branch == 2
    then resolve_branch (bit_and control.branch_taken 0b10 >>> 1) (bit_and control.branch_taken 0b1)
        m
    else m

-- The access: the value that `result` gets, and the machine after it.
unfoldable pub ma_access : Machine → Run (ℕ × Machine)
ma_access m =
    let opcode = m.ex_ma.cs_ma.read_write_opcode in
    let mem_opcode = bit_and opcode 0x7 in
    if bit_and opcode 0x8 >>> 3 == 0
    then (read_memory mem_opcode (record m.memory { mar = m.ex_ma.result }) >>= λ memory.
        ok (memory.mbr, record m { memory = memory }))
    else (let (value, m') = forward_ma m.ex_ma.r2 m.ex_ma.nrs2 m in
        write_memory mem_opcode (record m'.memory { mbr = value; mar = m'.ex_ma.result })
        >>= λ memory. ok (m'.ex_ma.result, record m' { memory = memory }))

unfoldable pub fill_ma_wb : ℕ → Machine → Machine
fill_ma_wb result m = record m {
  ma_wb = record { result = result; nrd = m.ex_ma.nrd; cs_wb = m.ex_ma.cs_wb; ins = m.ex_ma.ins };
}

unfoldable pub ma_stage : Machine → Run Machine
unfolding ma_control_flow ma_access fill_ma_wb
ma_stage m =
    if m.ex_ma.cs_ma.mem == 0
    then ok (fill_ma_wb m.ex_ma.result (ma_control_flow m))
    else (ma_access m >>= λ (result, m'). ok (fill_ma_wb result m'))

-- Register 0 is set back to 0 after every write.
unfoldable pub write_register : ℕ → ℕ → (ℕ → ℕ) → ℕ → ℕ
write_register nrd value reg_file k = if k == 0 then 0 else if k == nrd then value else reg_file k

-- `ins != NULL && strcmp(ins, blank) != 0`
abbrev retires : Ins → ℕ
retires null = 0
retires blank = 0
retires (text n) = 1

unfoldable pub wb_stage : Machine → Machine
unfolding write_register
wb_stage m =
    let regs =
      if m.ma_wb.cs_wb.wb == 1
      then write_register m.ma_wb.nrd m.ma_wb.result m.reg_file
      else m.reg_file in
    record m {
      reg_file = regs;
      recent_wb = m.wb_if;
      wb_if = m.ma_wb;
      stats = record m.stats { n_instructions = m.stats.n_instructions + retires m.ma_wb.ins };
    }
