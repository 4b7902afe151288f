-- ===== src/Simulator/Order.antt =====
-- A cycle of src/execution/simulator.c against program order: WB, MA and EX.
use risc_v_microarchitecture.Base.{
  ℕ, ◌≡◌, refl, ap, ◌∙◌, arith, ◌==◌, if◌then◌else◌, Bool-cases, inl, inr, true, false, Run, ok,
  Ensures, Ensures-ok, Ensures-if, Ensures-exit, Ensures->>=,
}
use risc_v_microarchitecture.Pipeline.State.{Machine, CpuStats, IdEx}
use risc_v_microarchitecture.Pipeline.Forward.{forward_ex, writes_reg}
use risc_v_microarchitecture.Pipeline.Execute.{
  ExResult, execute, operand_one, operand_two, store_data, fill_ex_ma, operate,
}
use risc_v_microarchitecture.Pipeline.Stages.{ma_stage, ma_control_flow, fill_ma_wb, wb_stage}
use risc_v_microarchitecture.Pipeline.Hazards.{commit, program_order, forward_ex-program_order}

-- The register file that the instruction in EX has to find: that of WB and of MA complete.
unfoldable pub in_order : Machine → ℕ → ℕ
in_order m =
    commit m.ex_ma.cs_wb.wb m.ex_ma.nrd m.ex_ma.result
      (commit m.ma_wb.cs_wb.wb m.ma_wb.nrd m.ma_wb.result m.reg_file)

-- Register 0 holds 0, and the operands of EX were read from the register file.
pub record IsRead (m : Machine) : Type 0 where
  pub zero_register : m.reg_file 0 ≡ 0
  pub first : m.id_ex.r1 ≡ m.reg_file m.id_ex.nrs1
  pub second : m.id_ex.r2 ≡ m.reg_file m.id_ex.nrs2

-- No instruction in MA or EX accesses the memory or changes the flow of control, none in EX is a
-- system call, and no flag of the pipeline is set.
pub record IsReady (m : Machine) : Type 0 where
  pub no_access : m.ex_ma.cs_ma.mem ≡ 0
  pub no_jump : m.ex_ma.cs_ma.jump_or_branch ≡ 0
  pub no_call : m.id_ex.cs_ex.system_call ≡ 0
  pub no_store : m.id_ex.cs_ma.mem ≡ 0
  pub completed : m.memory.mfc ≡ true
  pub no_flush : m.flush ≡ false
  pub no_hazard : m.memory.structural_hazard_stall ≡ false
  pub no_pause : m.pause ≡ false
  pub no_trap : m.trap ≡ false
  pub no_stall : m.forwarding_stall ≡ false

-- The machine when EX starts.
unfoldable pub before_ex : Machine → Machine
before_ex m = fill_ma_wb (wb_stage m).ex_ma.result (wb_stage m)

pub ma_stage-before_ex : (m : Machine) → IsReady m → ma_stage (wb_stage m) ≡ ok (before_ex m)
unfolding ma_stage ma_control_flow before_ex wb_stage
ma_stage-before_ex m r = ground (arith, r.no_access, r.no_jump)

-- What the instruction in MA is to write stands both in `ex_ma` and in `ma_wb` then.
pub record IsPassed (m : Machine) : Type 0 where
  pub wb : m.ma_wb.cs_wb.wb ≡ m.ex_ma.cs_wb.wb
  pub nrd : m.ma_wb.nrd ≡ m.ex_ma.nrd
  pub access : m.ex_ma.cs_ma.mem ≡ 0

-- Forwarding then needs no stall, and changes the counters only.
forward_ex-IsPassed :
    (v n : ℕ) (m : Machine)
    → IsPassed m
    → (t : CpuStats) × ((forward_ex v n m).1 ≡ record m { stats = t })
unfolding forward_ex
forward_ex-IsPassed v n m p = elim (Bool-cases (writes_reg m.ex_ma.cs_wb.wb m.ex_ma.nrd n)) [
  | inl t ↦
      let reads : (m.ex_ma.cs_ma.mem == 1) ≡ false = ground (arith, p.access) in
      rw (t, reads) (_, refl)
  | inr t ↦
      let passed : writes_reg m.ma_wb.cs_wb.wb m.ma_wb.nrd n ≡ false = rw (p.wb, p.nrd) t in
      elim (Bool-cases (writes_reg m.wb_if.cs_wb.wb m.wb_if.nrd n)) [
        | inl u ↦ rw (t, passed, u) (_, refl)
        | inr u ↦ rw (t, passed, u) (_, refl)
      ]
]

-- The operands of an instruction, from a register file.
unfoldable pub first_operand : (ℕ → ℕ) → IdEx → ℕ
first_operand regs id_ex = if id_ex.cs_ex.source1 == 0 then id_ex.pc else regs id_ex.nrs1

unfoldable pub second_operand : (ℕ → ℕ) → IdEx → ℕ
second_operand regs id_ex = if id_ex.cs_ex.source2 == 0 then regs id_ex.nrs2 else id_ex.imm

-- EX finds the value `x`, and changes the counters.
IsFound : Machine → ℕ → ℕ × Machine → Type 0
IsFound m x v = (v.0 ≡ x) × ((t : CpuStats) × (v.1 ≡ record m { stats = t }))

-- EX gives what the instruction computes from the operands that it finds in a register file.
abbrev pub IsExecuted : (ℕ → ℕ) → Machine → Machine → Type 0
IsExecuted regs m m' =
    (r : ExResult) × (execute m.id_ex (first_operand regs m.id_ex) (second_operand regs m.id_ex)
      ≡ ok r)
    × ((stored : ℕ) × (t : CpuStats) × (m' ≡ fill_ex_ma r stored (record m { stats = t })))

module _ (regs : ℕ → ℕ) (m : Machine) (zero_register : regs 0 ≡ 0) (passed : IsPassed m)
    (no_stall : m.forwarding_stall ≡ false) where
  forward_ex-IsFound :
      (v n : ℕ) → v ≡ regs n → IsFound m (program_order regs m n) (forward_ex v n m)
  unfolding IsFound
  forward_ex-IsFound v n e =
      let (t, same) = forward_ex-IsPassed (regs n) n m passed in
      let kept : (forward_ex (regs n) n m).1.forwarding_stall ≡ false =
        ap (λ (m' : Machine). m'.forwarding_stall) same ∙ no_stall in
      rw e (forward_ex-program_order regs n m zero_register kept, (t, same))

  operand_one-IsFound :
      m.id_ex.r1 ≡ regs m.id_ex.nrs1
      → Ensures (IsFound m (first_operand (program_order regs m) m.id_ex)) (operand_one m)
  unfolding operand_one first_operand IsFound
  operand_one-IsFound e = elim (Bool-cases (m.id_ex.cs_ex.source1 == 0)) [
    | inl t ↦ rw t (Ensures-ok _ _ (refl, (m.stats, refl)))
    | inr t ↦ rw t (
        Ensures-if _ _ _ (Ensures-ok _ _ (forward_ex-IsFound m.id_ex.r1 m.id_ex.nrs1 e))
          (Ensures-exit _))
  ]

  operand_two-IsFound :
      m.id_ex.r2 ≡ regs m.id_ex.nrs2
      → Ensures (IsFound m (second_operand (program_order regs m) m.id_ex)) (operand_two m)
  unfolding operand_two second_operand IsFound
  operand_two-IsFound e = elim (Bool-cases (m.id_ex.cs_ex.source2 == 0)) [
    | inl t ↦ rw t (Ensures-ok _ _ (forward_ex-IsFound m.id_ex.r2 m.id_ex.nrs2 e))
    | inr t ↦ rw t (Ensures-if _ _ _ (Ensures-ok _ _ (refl, (m.stats, refl))) (Ensures-exit _))
  ]

  operated :
      (v w : ℕ × Machine) (r : ExResult)
      → IsFound m (first_operand (program_order regs m) m.id_ex) v
      → IsFound m (second_operand (program_order regs m) m.id_ex) w
      → m.id_ex.cs_ma.mem ≡ 0
      → execute w.1.id_ex v.0 w.0 ≡ ok r
      → IsExecuted (program_order regs m) m (fill_ex_ma r (store_data w.1).0 (store_data w.1).1)
  unfolding IsFound store_data
  operated v w r (ev, (t, same)) (ew, (u, same')) no_store e =
      let plain : (m.id_ex.cs_ma.mem == 1) ≡ false = ground (arith, no_store) in
      (r, rw (ev, ew, same') at e, (m.id_ex.r2, u, rw (same', plain) refl))

operand_two-after :
    (regs : ℕ → ℕ) (m : Machine) (v : ℕ × Machine) (x : ℕ)
    → regs 0 ≡ 0
    → IsPassed m
    → m.forwarding_stall ≡ false
    → m.id_ex.r2 ≡ regs m.id_ex.nrs2
    → IsFound m x v
    → Ensures (IsFound m (second_operand (program_order regs m) m.id_ex)) (operand_two v.1)
unfolding IsFound program_order
operand_two-after regs m v x z p s e (ev, (t, same)) = rw same (
    operand_two-IsFound regs (record m { stats = t }) z
      (record { wb = p.wb; nrd = p.nrd; access = p.access }) s e)

known {ℓ} : {A : Type ℓ} (m : Run A) → Ensures (λ a. m ≡ ok a) m
known m = record { ensured = λ a e. e }

pub operate-IsExecuted :
    (regs : ℕ → ℕ) (m : Machine)
    → regs 0 ≡ 0
    → IsPassed m
    → m.forwarding_stall ≡ false
    → m.id_ex.r1 ≡ regs m.id_ex.nrs1
    → m.id_ex.r2 ≡ regs m.id_ex.nrs2
    → m.id_ex.cs_ma.mem ≡ 0
    → Ensures (IsExecuted (program_order regs m) m) (operate m)
unfolding operate
operate-IsExecuted regs m z p s e₁ e₂ no_store =
    Ensures->>= _ (operand_one-IsFound regs m z p s e₁) λ v f.
      Ensures->>= _ (operand_two-after regs m v _ z p s e₂ f) λ w g.
        Ensures->>= _ (known (execute w.1.id_ex v.0 w.0))
          λ r e. Ensures-ok _ _ (operated regs m z p s v w r f g no_store e)
