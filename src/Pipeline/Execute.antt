-- ===== src/Pipeline/Execute.antt =====
-- src/pipeline/ex.c.
use risc_v_microarchitecture.Base.{
  ℕ, ◌*◌, ◌==◌, ◌&&◌, if◌then◌else◌, true, bit_and, bit_or, Run, ok, exit, ◌>>=◌,
}
use risc_v_microarchitecture.Alu.{
  arithmetic_unit, logical_unit, less_than_comparator, branch_comparator,
}
use risc_v_microarchitecture.Pipeline.State.{Machine, IdEx}
use risc_v_microarchitecture.Pipeline.Forward.{forward_ex}

-- What the `switch` on the type of operation computes.
pub record ExResult : Type 0 where
  pub result : ℕ
  pub pc_next : ℕ
  pub actual_branch_taken : ℕ
  pub jump_taken : ℕ

unfoldable pub plain_result : IdEx → ℕ → ExResult
plain_result id_ex v = record {
  result = v;
  pc_next = id_ex.pc_next;
  actual_branch_taken = 0;
  jump_taken = 0;
}

-- `store` does nothing in the source.
unfoldable pub execute : IdEx → ℕ → ℕ → Run ExResult
unfolding plain_result
execute id_ex operand1 operand2 =
    let control = id_ex.cs_ex in
    if control.type == 0b00
    then (arithmetic_unit operand1 operand2 control.arithmetic_opcode >>= λ v.
        ok (plain_result id_ex v))
    else if control.type == 0b01
    then (logical_unit operand1 operand2 control.logic_opcode control.sign >>= λ v.
        ok (plain_result id_ex v))
    else if control.type == 0b10
    then (less_than_comparator operand1 operand2 control.sign >>= λ v. ok (plain_result id_ex v))
    else if control.type == 0b11
    then (if control.branch_opcode == 0b100
        then (arithmetic_unit operand1 operand2 control.arithmetic_opcode >>= λ target. ok (record {
          result = id_ex.pc_next;
          pc_next = target;
          actual_branch_taken = 0;
          jump_taken = 1;
        }))
        else (arithmetic_unit id_ex.pc id_ex.imm control.arithmetic_opcode >>= λ target.
            branch_comparator operand1 operand2 control.branch_opcode control.sign >>= λ taken.
            ok (record {
              result = id_ex.pc_next;
              pc_next = target;
              actual_branch_taken = taken;
              jump_taken = 0;
            })))
    else exit

unfoldable pub operand_one : Machine → Run (ℕ × Machine)
operand_one m =
    if m.id_ex.cs_ex.source1 == 0
    then ok (m.id_ex.pc, m)
    else if m.id_ex.cs_ex.source1 == 1
    then ok (forward_ex m.id_ex.r1 m.id_ex.nrs1 m)
    else exit

unfoldable pub operand_two : Machine → Run (ℕ × Machine)
operand_two m =
    if m.id_ex.cs_ex.source2 == 0
    then ok (forward_ex m.id_ex.r2 m.id_ex.nrs2 m)
    else if m.id_ex.cs_ex.source2 == 1
    then ok (m.id_ex.imm, m)
    else exit

unfoldable pub store_data : Machine → ℕ × Machine
store_data m =
    if m.id_ex.cs_ma.mem == 1 && bit_and m.id_ex.cs_ma.read_write_opcode 0x8 == 0x8
    then forward_ex m.id_ex.r2 m.id_ex.nrs2 m
    else (m.id_ex.r2, m)

-- The assignments to `ex_ma` at the end of the stage.
unfoldable pub fill_ex_ma : ExResult → ℕ → Machine → Machine
fill_ex_ma r data_out m = record m {
  ex_ma = record {
    pc_next = r.pc_next;
    nrs2 = m.id_ex.nrs2;
    r2 = data_out;
    result = r.result;
    nrd = m.id_ex.nrd;
    cs_ma = record m.id_ex.cs_ma {
      branch_taken =
          bit_or m.id_ex.cs_ma.branch_taken (bit_or r.actual_branch_taken r.jump_taken * 2);
    };
    cs_wb = m.id_ex.cs_wb;
    ins = m.id_ex.ins;
  };
}

-- The stage for an instruction that is no system call.
unfoldable pub operate : Machine → Run Machine
unfolding operand_one operand_two store_data fill_ex_ma
operate m = operand_one m >>= λ (operand1, m₁). operand_two m₁ >>= λ (operand2, m₂).
    execute m₂.id_ex operand1 operand2 >>= λ r.
    let (data_out, m₃) = store_data m₂ in ok (fill_ex_ma r data_out m₃)

unfoldable pub ex_stage : Machine → Run Machine
ex_stage m =
    if m.id_ex.cs_ex.system_call == 1
    then ok (record m { pause = true; ex_ma = record m.ex_ma { ins = m.id_ex.ins } })
    else if m.id_ex.cs_ex.system_call == 2
    then ok (record m { trap = true; ex_ma = record m.ex_ma { ins = m.id_ex.ins } })
    else operate m
