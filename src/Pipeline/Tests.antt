-- ===== src/Pipeline/Tests.antt =====
-- A machine with an instruction in EX, and what the theorems say of it.
use risc_v_microarchitecture.Base.{
  ◌+◌, ◌/◌, ◌%◌, ◌==◌, ◌≡◌, refl, arith, false, not, if◌then◌else◌, ok,
}
use risc_v_microarchitecture.Alu.{flag}
use risc_v_microarchitecture.Control.Signals.{CuOutput, ma_control}
use risc_v_microarchitecture.Control.Decode.{decode}
use risc_v_microarchitecture.Control.Tests.{addi_signals, addi_decodes}
use risc_v_microarchitecture.Memory.Tests.{sample}
use risc_v_microarchitecture.Pipeline.State.{
  Machine, null, CpuStats, empty_if_id, empty_id_ex, empty_ex_ma, empty_ma_wb,
}
use risc_v_microarchitecture.Pipeline.Forward.{forward_ex, forward_ma}
use risc_v_microarchitecture.Pipeline.Execute.{execute, plain_result, ex_stage}
use risc_v_microarchitecture.Pipeline.Decode.{conflicts, set_hazard_stall}
use risc_v_microarchitecture.Pipeline.Stages.{ma_control_flow}
use risc_v_microarchitecture.Pipeline.Decoded.{ex_stage_total}
use risc_v_microarchitecture.Pipeline.Hazards.{
  commit, program_order, forward_ex-program_order, forward_ma-program_order,
  set_hazard_stall-program_order,
}
use risc_v_microarchitecture.Pipeline.Resolve.{ma_control_flow-branch}
use risc_v_microarchitecture.Pipeline.Isa.{sra_op, assembled, meaning, assembled-execute}

abbrev no_counts : CpuStats
no_counts = record {
  branches_taken = 0;
  branches_not_taken = 0;
  branch_miss = 0;
  branch_hit = 0;
  n_branch_instructions = 0;
  id_flushes = 0;
  ex_flushes = 0;
  n_forwards_to_ex = 0;
  n_forwards_to_ma = 0;
  n_instructions = 0;
}

abbrev pub idle : Machine
idle = record {
  memory = sample;
  instructions = λ k. null;
  reg_file = λ k. 0;
  pc = 0;
  ir = 0;
  if_id = empty_if_id;
  id_ex = empty_id_ex;
  ex_ma = empty_ex_ma;
  ma_wb = empty_ma_wb;
  wb_if = empty_ma_wb;
  recent_wb = empty_ma_wb;
  pause = false;
  trap = false;
  forwarding_stall = false;
  data_hazard_stall = false;
  flush = false;
  forwarding_switch = 1;
  branch_prediction_strategy = 0;
  change_pc = false;
  jump_pc = 0;
  stats = no_counts;
}

abbrev decoded_addi : Machine
decoded_addi = record idle { id_ex = record empty_id_ex { cs_ex = addi_signals.cs_ex } }

ex_stage_total_example : (m' : Machine) × (ex_stage decoded_addi ≡ ok m')
ex_stage_total_example = ex_stage_total 0 0x00500293 addi_signals decoded_addi addi_decodes refl

-- Register 5 is written by the instruction in MA, and by an older one.
abbrev writing_5 : Machine
writing_5 = record idle {
  ex_ma = record empty_ex_ma { nrd = 5; result = 7; cs_wb = record { wb = 1 } };
  wb_if = record empty_ma_wb { nrd = 5; result = 3; cs_wb = record { wb = 1 } };
  ma_wb = record empty_ma_wb { nrd = 6; result = 9; cs_wb = record { wb = 1 } };
}

no_stall : (forward_ex 0 5 writing_5).1.forwarding_stall ≡ false
unfolding forward_ex
no_stall = refl

forward_ex-program_order_example : (forward_ex 0 5 writing_5).0 ≡ program_order (λ k. 0) writing_5 5
forward_ex-program_order_example = forward_ex-program_order (λ k. 0) 5 writing_5 refl no_stall

forward_ma-program_order_example :
    (forward_ma 0 6 writing_5).0 ≡ commit 1 6 9 (commit 0 0 0 (λ k. 0)) 6
forward_ma-program_order_example = forward_ma-program_order (λ k. 0) 6 writing_5 refl

-- An `addi` that reads register 4.
abbrev reading_4 : Machine
reading_4 = record writing_5 { id_ex = record empty_id_ex { nrs1 = 4; cs_ex = addi_signals.cs_ex } }

free : set_hazard_stall reading_4 ≡ false
unfolding set_hazard_stall conflicts
free = refl

set_hazard_stall-program_order_example : program_order (λ k. 0) reading_4 4 ≡ 0
set_hazard_stall-program_order_example = set_hazard_stall-program_order reading_4 4 refl free refl

-- A branch that is taken against the prediction.
abbrev branching : Machine
branching = record idle { ex_ma = record empty_ex_ma { pc_next = 64; cs_ma = ma_control 0 0 2 2 } }

ma_control_flow-branch_example :
    let actual = 2 / 2 in
    let predicted = 2 % 2 in
    let m' = ma_control_flow branching in
    (m'.flush ≡ not (actual == predicted))
    × (m'.pc ≡ (if actual == predicted then 0 else if actual == 1 then 64 else 0))
    × (m'.stats.n_branch_instructions ≡ 0 + 1)
    × (m'.stats.branches_taken ≡ 0 + actual)
    × (m'.stats.branches_not_taken ≡ 0 + flag (actual == 0))
    × (m'.stats.branch_miss ≡ 0 + flag (not (actual == predicted)))
    × (m'.stats.branch_hit ≡ 0 + flag (actual == predicted))
ma_control_flow-branch_example = ma_control_flow-branch branching refl (omega arith) refl

-- `sra x5, x6, x7` of -8 by 1.
assembled-execute_example :
    (out : CuOutput) × (decode 0 (assembled sra_op 5 6 7) ≡ ok out)
    × (out.cs_wb.wb ≡ 1)
    × (execute (record empty_id_ex { cs_ex = out.cs_ex }) 0xFFFFFFF8 1
        ≡ ok (plain_result empty_id_ex (meaning sra_op 0xFFFFFFF8 1)))
assembled-execute_example =
    assembled-execute sra_op 5 6 7 0 empty_id_ex 0xFFFFFFF8 1 (omega arith) (omega arith)
      (omega arith) (omega arith) (omega arith)
