-- ===== src/Simulator.antt =====
-- src/execution/simulator.c: the loop of `simulate`, whose body is a step from cycle to cycle.
pub mod Registers
pub mod Loop
pub mod Frame
pub mod Order
pub mod Cycle
mod Tests
use risc_v_microarchitecture.Base.{
  ℕ, zero, suc, ◌+◌, ◌==◌, if◌then◌else◌, ℤ, pos, negsuc, Bool, true, false, Run, ok, exit, fault,
  ◌>>=◌,
}
use risc_v_microarchitecture.Memory.{read_memory_i, pred_int}
use risc_v_microarchitecture.Pipeline.State.{
  Machine, empty_if_id, empty_id_ex, empty_ex_ma, empty_ma_wb,
}
use risc_v_microarchitecture.Pipeline.Execute.{ex_stage}
use risc_v_microarchitecture.Pipeline.Decode.{
  id_stage, reset_decode_flags, update_operands, on_memory,
}
use risc_v_microarchitecture.Pipeline.Stages.{if_stage, ma_stage, wb_stage}

-- The machine with the local variables of `simulate`; `stopped` is set by a `break`.
pub record State : Type 0 where
  pub machine : Machine
  pub pause_counter : ℤ
  pub trap_counter : ℤ
  pub halt : Bool
  pub stopped : Bool

-- `cycle++`
abbrev pub next_cycle : Machine → Machine
next_cycle m = record m {
  memory = record m.memory {
    caches = record m.memory.caches { cycle = m.memory.caches.cycle + 1 };
  };
}

-- The stall on a memory access that is not complete.
unfoldable pub memory_stall : Machine → Machine
memory_stall m = next_cycle (update_operands (record m { ma_wb = empty_ma_wb }))

-- The flush by the memory stage: what stands behind it is cleared, and the fetch cancelled.
unfoldable pub flush_execute : Machine → Run Machine
flush_execute m =
    on_memory (record m { ex_ma = empty_ex_ma; id_ex = empty_id_ex; if_id = empty_if_id })
      (λ m'.
        let r = reset_decode_flags m' in
        ok (record r {
          stats = record r.stats { ex_flushes = r.stats.ex_flushes + 1 };
          flush = false;
        }))
      true

-- IF makes its attempt on the memory; the other stages stand still.
unfoldable pub structural_stall : Machine → Run Machine
structural_stall m = if_stage (update_operands (record m { ma_wb = empty_ma_wb })) >>= λ m'.
    let c = if m'.memory.mfc_i then m' else record m' { if_id = empty_if_id } in
    ok (next_cycle (record c { memory = record c.memory { structural_hazard_stall = false } }))

-- The flush by the decode stage, for a branch that was predicted taken.
unfoldable pub flush_decode : Machine → Run Machine
flush_decode m =
    if m.flush
    then on_memory (record m { id_ex = empty_id_ex; if_id = empty_if_id })
        (λ m'. ok (record m' {
          stats = record m'.stats { id_flushes = m'.stats.id_flushes + 1 };
          flush = false;
        }))
        true
    else ok m

-- IF and the end of the cycle; the Boolean says that the source did not `continue` early.
unfoldable pub fetch : Machine → Run (Bool × Machine)
fetch m = if_stage m >>= λ m'. ok (
    if m'.memory.mfc_i
    then (true, next_cycle m')
    else (false, next_cycle (record m' { if_id = empty_if_id })))

-- ID and IF: the end of a cycle, which the source has three times.
unfoldable pub front_end : Machine → Run (Bool × Machine)
unfolding flush_decode fetch
front_end m = id_stage m >>= λ m'.
    if m'.data_hazard_stall
    then ok (false, next_cycle (record m' { id_ex = empty_id_ex; data_hazard_stall = false }))
    else (flush_decode m' >>= λ m''. fetch m'')

-- `counter == 0`
abbrev pub is_zero : ℤ → Bool
is_zero (pos zero) = true
is_zero (pos (suc n)) = false
is_zero (negsuc n) = false

-- An ebreak in EX: one cycle of stall, then a cycle that ends the loop.
unfoldable pub pause_cycle : State → Machine → Run State
pause_cycle s m =
    if is_zero s.pause_counter
    then (front_end m >>= λ (finished, m'). ok (
        if finished
        then record s {
          machine = record m' { pause = false };
          pause_counter = pred_int s.pause_counter;
          stopped = true;
        }
        else record s { machine = m' }))
    else ok (record s {
      machine = next_cycle (record m { ex_ma = empty_ex_ma; pause = false });
      pause_counter = pos 0;
    })

-- An ecall in EX; register 17 with `SYSTEM_HALT_CODE`, which is 0, halts.
unfoldable pub trap_cycle : State → Machine → Run State
trap_cycle s m =
    if is_zero s.trap_counter
    then (front_end m >>= λ (finished, m'). ok (
        if finished
        then (let trapped = record s {
          machine = record m' { trap = false };
          trap_counter = pred_int s.trap_counter;
        } in
            if m'.reg_file 17 == 0 then record trapped { halt = true; stopped = true } else trapped)
        else record s { machine = m' }))
    else ok (record s {
      machine = next_cycle (record m { ex_ma = empty_ex_ma; trap = false });
      trap_counter = pos 0;
    })

-- The stall of EX on a value that is still in MA.
unfoldable pub forwarding_stall_cycle : Machine → Machine
forwarding_stall_cycle m =
    next_cycle
      (record (update_operands (record m { ex_ma = empty_ex_ma })) { forwarding_stall = false })

-- The cycle from EX on.
unfoldable pub execute_cycle : State → Machine → Run State
unfolding pause_cycle trap_cycle forwarding_stall_cycle
execute_cycle s m = ex_stage m >>= λ m'.
    if m'.pause
    then pause_cycle s m'
    else if m'.trap
    then trap_cycle s m'
    else if m'.forwarding_stall
    then ok (record s { machine = forwarding_stall_cycle m' })
    else (front_end m' >>= λ (_, m''). ok (record s { machine = m'' }))

-- The cycle from the end of MA on.
unfoldable pub after_memory : State → Machine → Run State
unfolding memory_stall flush_execute structural_stall
after_memory s m =
    if m.memory.mfc
    then (if m.flush
        then (flush_execute m >>= λ m'. execute_cycle s m')
        else if m.memory.structural_hazard_stall
        then (structural_stall m >>= λ m'. ok (record s { machine = m' }))
        else execute_cycle s m)
    else ok (record s { machine = memory_stall m })

-- One turn of the `while (1)`.
unfoldable pub step : State → Run State
step s = ma_stage (wb_stage s.machine) >>= λ m. after_memory s m

-- The loop, on fuel: the state after at most that number of cycles.
unfoldable pub run : ℕ → State → Run State
run zero s = ok s
run (suc n) s = if s.stopped then ok s else (step s >>= λ s'. run n s')

-- The start of the loop at the entry point.
abbrev pub start : ℕ → Machine → State
start entry m = record {
  machine = record m { pc = entry };
  pause_counter = negsuc 0;
  trap_counter = negsuc 0;
  halt = false;
  stopped = false;
}

unfoldable pub simulate : ℕ → ℕ → Machine → Run State
unfolding run
simulate fuel entry m = run fuel (start entry m)
