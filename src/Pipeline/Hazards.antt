-- ===== src/Pipeline/Hazards.antt =====
-- The forwarding of src/forwarding/forwarding.c and the hazard test of src/pipeline/id.c, against
-- the register file of sequential execution.
use risc_v_microarchitecture.Base.{
  ℕ, ◌≡◌, ◌∙◌, ◌==◌, ◌&&◌, ◌||◌, if◌then◌else◌, Bool, true, false, bit_and, arith,
}
use risc_v_microarchitecture.Pipeline.State.{Machine, IdEx}
use risc_v_microarchitecture.Pipeline.Forward.{forward_ex, forward_ma}
use risc_v_microarchitecture.Pipeline.Decode.{conflicts, set_hazard_stall}
use risc_v_microarchitecture.Pipeline.Stages.{write_register}

-- The register file after the write of one more instruction.
abbrev pub commit : ℕ → ℕ → ℕ → (ℕ → ℕ) → ℕ → ℕ
commit wb nrd result regs k = if wb == 1 then write_register nrd result regs k else regs k

-- The register file that the instruction in EX would find, were the ones before it complete: the
-- oldest, in `wb_if`, writes first, then the one in `ma_wb`, then the one in `ex_ma`.
unfoldable pub program_order : (ℕ → ℕ) → Machine → ℕ → ℕ
program_order regs m = commit m.ex_ma.cs_wb.wb m.ex_ma.nrd m.ex_ma.result (
    commit m.ma_wb.cs_wb.wb m.ma_wb.nrd m.ma_wb.result
      (commit m.wb_if.cs_wb.wb m.wb_if.nrd m.wb_if.result regs))

-- A register file whose register 0 holds 0, read when the instruction was decoded: the forwarding
-- unit either asks for a stall or gives the operand of program order, the writes of the three
-- older instructions in the pipeline done.
pub forward_ex-program_order :
    (regs : ℕ → ℕ) (n : ℕ) (m : Machine)
    → regs 0 ≡ 0
    → (forward_ex (regs n) n m).1.forwarding_stall ≡ false
    → (forward_ex (regs n) n m).0 ≡ program_order regs m n
unfolding forward_ex program_order write_register
forward_ex-program_order regs n m zero_reg no_stall = ground arith

-- A register file whose register 0 holds 0: the data of a store in MA is that of program order,
-- the writes of the two instructions before it done, the one in `recent_wb` and then the one in
-- `ma_wb`.
pub forward_ma-program_order :
    (regs : ℕ → ℕ) (n : ℕ) (m : Machine)
    → regs 0 ≡ 0
    → (forward_ma (regs n) n m).0
      ≡ commit m.ma_wb.cs_wb.wb m.ma_wb.nrd m.ma_wb.result
          (commit m.recent_wb.cs_wb.wb m.recent_wb.nrd m.recent_wb.result regs)
          n
unfolding forward_ma write_register
forward_ma-program_order regs n m zero_reg = ground arith

-- The instruction reads register `n`: as rs1 where the first operand is a register, as rs2 where
-- the second one is, and as rs2 of a store.
abbrev reads_register : IdEx → ℕ → Bool
reads_register id_ex n =
    id_ex.cs_ex.source1 == 1 && n == id_ex.nrs1
    || id_ex.cs_ex.source2 == 0 && n == id_ex.nrs2
    || id_ex.cs_ma.mem == 1 && bit_and id_ex.cs_ma.read_write_opcode 0x8 == 0x8 && n == id_ex.nrs2

conflicts-reads_register :
    (id_ex : IdEx) (nrd n : ℕ)
    → conflicts id_ex nrd ≡ false
    → reads_register id_ex n ≡ true
    → nrd ≡ n
    → n ≡ 0
unfolding conflicts
conflicts-reads_register id_ex nrd n free used e = ground arith

commit-reads_register :
    (id_ex : IdEx) (n wb nrd result : ℕ) (regs : ℕ → ℕ)
    → (wb == 1 && conflicts id_ex nrd) ≡ false
    → reads_register id_ex n ≡ true
    → regs 0 ≡ 0
    → (commit wb nrd result regs n ≡ regs n) × (commit wb nrd result regs 0 ≡ 0)
unfolding write_register
commit-reads_register id_ex n wb nrd result regs free used zero_reg =
    ground (arith, conflicts-reads_register id_ex nrd n)

or_false : (a b c : Bool) → (a || b || c) ≡ false → (a ≡ false) × (b ≡ false) × (c ≡ false)
or_false a b c h = ground arith

-- With forwarding off and register 0 at 0, an instruction that the hazard test of ID lets through
-- reads no register that an older instruction in the pipeline is still to change: what the
-- register file holds is the value of program order.
pub set_hazard_stall-program_order :
    (m : Machine) (n : ℕ)
    → m.reg_file 0 ≡ 0
    → set_hazard_stall m ≡ false
    → reads_register m.id_ex n ≡ true
    → program_order m.reg_file m n ≡ m.reg_file n
unfolding set_hazard_stall program_order
set_hazard_stall-program_order m n zero_reg free used =
    let (f₁, f₂, f₃) = or_false _ _ _ free in
    let write = λ (wb nrd result : ℕ). commit-reads_register m.id_ex n wb nrd result in
    let (e₃, z₃) = write m.wb_if.cs_wb.wb m.wb_if.nrd m.wb_if.result m.reg_file f₃ used zero_reg in
    let (e₂, z₂) = write m.ma_wb.cs_wb.wb m.ma_wb.nrd m.ma_wb.result _ f₂ used z₃ in
    let (e₁, z₁) = write m.ex_ma.cs_wb.wb m.ex_ma.nrd m.ex_ma.result _ f₁ used z₂ in e₁ ∙ e₂ ∙ e₃
