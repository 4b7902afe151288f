-- ===== src/Pipeline/Decode.antt =====
-- src/pipeline/id.c.
use risc_v_microarchitecture.Base.{
  ℕ, ◌==◌, ◌&&◌, ◌||◌, not, if◌then◌else◌, Bool, true, false, add32, bit_and, ◌>>>◌, Run, ok, ◌>>=◌,
}
use risc_v_microarchitecture.Alu.{generate_immediate, b_type}
use risc_v_microarchitecture.Control.Signals.{CuOutput}
use risc_v_microarchitecture.Control.{decode}
use risc_v_microarchitecture.Memory.{read_memory_i}
use risc_v_microarchitecture.Pipeline.State.{Machine, IdEx}

-- A register that the instruction in ID needs has a pending write to `nrd`.
unfoldable pub conflicts : IdEx → ℕ → Bool
conflicts id_ex nrd =
    id_ex.cs_ex.source1 == 1 && nrd == id_ex.nrs1 && not (id_ex.nrs1 == 0)
    || id_ex.cs_ex.source2 == 0 && nrd == id_ex.nrs2 && not (id_ex.nrs2 == 0)
    || id_ex.cs_ma.mem == 1
      && bit_and id_ex.cs_ma.read_write_opcode 0x8 == 0x8
      && nrd == id_ex.nrs2
      && not (id_ex.nrs2 == 0)

unfoldable pub set_hazard_stall : Machine → Bool
unfolding conflicts
set_hazard_stall m =
    m.ex_ma.cs_wb.wb == 1 && conflicts m.id_ex m.ex_ma.nrd
    || m.ma_wb.cs_wb.wb == 1 && conflicts m.id_ex m.ma_wb.nrd
    || m.wb_if.cs_wb.wb == 1 && conflicts m.id_ex m.wb_if.nrd

abbrev pub on_memory : Machine → (Machine → Run Machine) → Bool → Run Machine
on_memory m k cancel = read_memory_i cancel m.memory >>= λ mem. k (record m { memory = mem })

-- The copy into `id_ex`.
unfoldable pub load_id_ex : CuOutput → Machine → Machine
load_id_ex out m =
    let ir = m.if_id.ir in
    let nrs1 = bit_and ir 0x000F8000 >>> 15 in
    let nrs2 = bit_and ir 0x01F00000 >>> 20 in
    record m {
      id_ex = record {
        pc = m.if_id.pc;
        pc_next = m.if_id.pc_next;
        nrs1 = nrs1;
        r1 = m.reg_file nrs1;
        nrs2 = nrs2;
        r2 = m.reg_file nrs2;
        imm = generate_immediate out.format ir;
        nrd = bit_and ir 0x00000F80 >>> 7;
        cs_ex = out.cs_ex;
        cs_ma = out.cs_ma;
        cs_wb = out.cs_wb;
        ins = m.if_id.ins;
      };
    }

-- The end of the stage: a branch that is predicted taken changes the pc in the next cycle.
unfoldable pub predict_jump : CuOutput → Machine → Machine
predict_jump out m =
    if out.cs_ma.branch_taken == 1 && out.cs_ex.type == 0b11 && out.cs_ma.jump_or_branch == 2
    then record m {
      change_pc = true;
      jump_pc = add32 m.if_id.pc (generate_immediate b_type m.if_id.ir);
    }
    else m

unfoldable pub decoded : CuOutput → Machine → Machine
unfolding load_id_ex predict_jump
decoded out m =
    let m' = load_id_ex out m in
    if m.forwarding_switch == 0 && set_hazard_stall m'
    then record m' { data_hazard_stall = true }
    else predict_jump out m'

unfoldable pub id_stage : Machine → Run Machine
unfolding decoded
id_stage m =
    if m.change_pc
    then on_memory m
        (λ m'. ok (record m' { pc = m'.jump_pc; flush = true; jump_pc = 0; change_pc = false }))
        true
    else decode m.branch_prediction_strategy m.if_id.ir >>= λ out. ok (decoded out m)

unfoldable pub reset_decode_flags : Machine → Machine
reset_decode_flags m = record m { change_pc = false; jump_pc = 0 }

unfoldable pub update_operands : Machine → Machine
update_operands m = record m {
  id_ex = record m.id_ex { r1 = m.reg_file m.id_ex.nrs1; r2 = m.reg_file m.id_ex.nrs2 };
}
