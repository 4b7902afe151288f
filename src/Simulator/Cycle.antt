-- ===== src/Simulator/Cycle.antt =====
-- A whole cycle of src/execution/simulator.c against program order.
use risc_v_microarchitecture.Base.{
  ℕ, ◌≡◌, refl, ap, ◌∙◌, arith, if◌then◌else◌, Bool, true, false, Run, ok, ◌>>=◌, Ensures,
  Ensures-ok, Ensures->>=,
}
use risc_v_microarchitecture.Pipeline.State.{Machine, CpuStats}
use risc_v_microarchitecture.Pipeline.Execute.{ExResult, execute, fill_ex_ma, operate, ex_stage}
use risc_v_microarchitecture.Pipeline.Stages.{fill_ma_wb, wb_stage, write_register}
use risc_v_microarchitecture.Pipeline.Hazards.{commit, program_order}
use risc_v_microarchitecture.Simulator.{State, step, after_memory, execute_cycle, front_end}
use risc_v_microarchitecture.Simulator.Frame.{IsFramed, front_end-IsKept}
use risc_v_microarchitecture.Simulator.Order.{
  in_order, IsRead, IsReady, IsPassed, before_ex, ma_stage-before_ex, first_operand, second_operand,
  IsExecuted, operate-IsExecuted,
}

-- The register file of program order after the instruction in EX.
pub IsAdvanced : Machine → Machine → Type 0
IsAdvanced m m' =
    (r : ExResult) × (execute m.id_ex (first_operand (in_order m) m.id_ex)
        (second_operand (in_order m) m.id_ex)
      ≡ ok r)
    × ((k : ℕ) → in_order m' k ≡ commit m.id_ex.cs_wb.wb m.id_ex.nrd r.result (in_order m) k)

Ensures-else {ℓ κ} :
    {A : Type ℓ} {P : A → Type κ} (b : Bool) (x y : Run A)
    → b ≡ false
    → Ensures P y
    → Ensures P (if b then x else y)
Ensures-else true x y e p = cc
Ensures-else false x y e p = p

Ensures-same {ℓ κ} : {A : Type ℓ} {P : A → Type κ} (x y : Run A) → x ≡ y → Ensures P y → Ensures P x
Ensures-same x y e p = rw e p

-- What EX finds is the register file in program order.
program_order-before_ex :
    (m : Machine) (k : ℕ) → program_order m.reg_file (before_ex m) k ≡ in_order m k
unfolding program_order before_ex in_order fill_ma_wb wb_stage write_register
program_order-before_ex m k = ground arith

after_memory-before_ex :
    (s : State) (m : Machine)
    → IsReady m
    → after_memory s (before_ex m) ≡ execute_cycle s (before_ex m)
unfolding after_memory before_ex fill_ma_wb wb_stage
after_memory-before_ex s m r = ground (arith, r.completed, r.no_flush, r.no_hazard)

ex_stage-before_ex : (m : Machine) → IsReady m → ex_stage (before_ex m) ≡ operate (before_ex m)
unfolding ex_stage before_ex fill_ma_wb wb_stage
ex_stage-before_ex m r = ground (arith, r.no_call)

-- The machine behind EX, with the result of the instruction.
abbrev executed : Machine → ExResult → ℕ → CpuStats → Machine
executed m r stored t = fill_ex_ma r stored (record (before_ex m) { stats = t })

executed-advances :
    (m m' : Machine) (r : ExResult) (stored : ℕ) (t : CpuStats)
    → IsFramed
        (executed m r stored t).reg_file
        (executed m r stored t).ex_ma
        (executed m r stored t).ma_wb
        m'
    → (k : ℕ) → in_order m' k ≡ commit m.id_ex.cs_wb.wb m.id_ex.nrd r.result (in_order m) k
unfolding in_order before_ex fill_ex_ma fill_ma_wb wb_stage write_register
executed-advances m m' r stored t f k = rw (f.same_ex_ma, f.same_ma_wb, f.same_regs) (ground arith)

executed-zero :
    (m : Machine) (r : ExResult) (stored : ℕ) (t : CpuStats)
    → m.reg_file 0 ≡ 0
    → (executed m r stored t).reg_file 0 ≡ 0
unfolding before_ex fill_ex_ma fill_ma_wb wb_stage write_register
executed-zero m r stored t z = ground arith

execute-in_order :
    (m : Machine) (r : ExResult)
    → execute
        (before_ex m).id_ex
        (first_operand (program_order m.reg_file (before_ex m)) (before_ex m).id_ex)
        (second_operand (program_order m.reg_file (before_ex m)) (before_ex m).id_ex)
      ≡ ok r
    → execute m.id_ex (first_operand (in_order m) m.id_ex) (second_operand (in_order m) m.id_ex)
      ≡ ok r
unfolding before_ex fill_ma_wb wb_stage first_operand second_operand
execute-in_order m r e =
    rw (program_order-before_ex m m.id_ex.nrs1, program_order-before_ex m m.id_ex.nrs2) at e

-- What holds after the cycle.
record IsCycled (m : Machine) (s : State) : Type 0 where
  read : IsRead s.machine
  advanced : IsAdvanced m s.machine

module _ (m : Machine) where
  passed : IsReady m → IsPassed (before_ex m)
  unfolding before_ex fill_ma_wb wb_stage
  passed p = record { wb = refl; nrd = refl; access = p.no_access }

  kept_flag : IsReady m → (before_ex m).forwarding_stall ≡ false
  unfolding before_ex fill_ma_wb wb_stage
  kept_flag p = p.no_stall

  first_read : IsRead m → (before_ex m).id_ex.r1 ≡ m.reg_file (before_ex m).id_ex.nrs1
  unfolding before_ex fill_ma_wb wb_stage
  first_read z = z.first

  second_read : IsRead m → (before_ex m).id_ex.r2 ≡ m.reg_file (before_ex m).id_ex.nrs2
  unfolding before_ex fill_ma_wb wb_stage
  second_read z = z.second

  no_store : IsReady m → (before_ex m).id_ex.cs_ma.mem ≡ 0
  unfolding before_ex fill_ma_wb wb_stage
  no_store p = p.no_store

  -- EX sets no flag.
  no_flag :
      (m' : Machine)
      → IsReady m
      → IsExecuted (program_order m.reg_file (before_ex m)) (before_ex m) m'
      → (m'.pause ≡ false) × (m'.trap ≡ false) × (m'.forwarding_stall ≡ false)
  unfolding before_ex fill_ma_wb wb_stage fill_ex_ma
  no_flag m' p (r, e, (stored, t, same)) = (
    ap (λ (q : Machine). q.pause) same ∙ p.no_pause,
    ap (λ (q : Machine). q.trap) same ∙ p.no_trap,
    ap (λ (q : Machine). q.forwarding_stall) same ∙ p.no_stall,
  )

behind_ex-IsCycled :
    (s : State) (m m' : Machine)
    → IsRead m
    → IsReady m
    → IsExecuted (program_order m.reg_file (before_ex m)) (before_ex m) m'
    → Ensures (IsCycled m) (front_end m' >>= λ (_, m''). ok (record s { machine = m'' }))
unfolding IsAdvanced
behind_ex-IsCycled s m m' z p (r, e, (stored, t, same)) =
    let x = executed m r stored t in
    let zero_register = executed-zero m r stored t z.zero_register in
    let framed : IsFramed x.reg_file x.ex_ma x.ma_wb m' = record {
      same_regs = ap (λ (q : Machine). q.reg_file) same;
      same_ex_ma = ap (λ (q : Machine). q.ex_ma) same;
      same_ma_wb = ap (λ (q : Machine). q.ma_wb) same;
    } in
    Ensures->>= _ (front_end-IsKept x.reg_file x.ex_ma x.ma_wb m' zero_register framed) λ v k.
      Ensures-ok _ _ (record {
        read = record {
          zero_register = ap (λ (f : ℕ → ℕ). f 0) k.framed.same_regs ∙ zero_register;
          first = k.operands.first;
          second = k.operands.second;
        };
        advanced = (r, execute-in_order m r e, executed-advances m v.1 r stored t k.framed);
      })

step-execute_cycle :
    (s : State) → IsReady s.machine → step s ≡ execute_cycle s (before_ex s.machine)
unfolding step
step-execute_cycle s p =
    ap (λ (x : Run Machine). x >>= after_memory s) (ma_stage-before_ex s.machine p)
    ∙ after_memory-before_ex s s.machine p

execute_cycle-IsCycled :
    (s : State)
    → IsRead s.machine
    → IsReady s.machine
    → Ensures (IsCycled s.machine) (execute_cycle s (before_ex s.machine))
unfolding execute_cycle
execute_cycle-IsCycled s z p =
    let m = s.machine in
    let b = before_ex m in
    let run : Ensures (IsExecuted (program_order m.reg_file b) b) (ex_stage b) =
      Ensures-same (ex_stage b) (operate b) (ex_stage-before_ex m p) (
        operate-IsExecuted m.reg_file b z.zero_register (passed m p) (kept_flag m p)
          (first_read m z) (second_read m z) (no_store m p)) in
    Ensures->>= _ run λ m' e. Ensures-else m'.pause _ _ (no_flag m m' p e).0 (
      Ensures-else m'.trap _ _ (no_flag m m' p e).1 (
        Ensures-else m'.forwarding_stall _ _ (no_flag m m' p e).2
          (behind_ex-IsCycled s m m' z p e)))

-- Register 0 holds 0, the operands in EX were read from the register file, no flag of the pipeline
-- is set, and neither MA nor EX has a load or a store, MA no jump or branch and EX no system call:
-- a cycle that gives a state has computed the instruction in EX from the register file of program
-- order, with the write of this instruction added, whatever is fetched and decoded; register 0 holds
-- 0 and the operands of the next instruction are read.
pub step-in_order :
    (s s' : State)
    → IsRead s.machine
    → IsReady s.machine
    → step s ≡ ok s'
    → IsRead s'.machine × IsAdvanced s.machine s'.machine
step-in_order s s' z p e =
    let c =
      (Ensures-same _ _ (step-execute_cycle s p) (execute_cycle-IsCycled s z p)).ensured s' e in
    (c.read, c.advanced)
