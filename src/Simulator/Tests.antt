-- ===== src/Simulator/Tests.antt =====
-- A program that runs to its halt: `addi x5, x0, 5` and `ecall` with register 17 at 0.
use risc_v_microarchitecture.Base.{
  ◌≡◌, refl, ◌==◌, if◌then◌else◌, negsuc, pos, true, false, Run, ok, exit, fault,
}
use risc_v_microarchitecture.Cache.Tests.{program}
use risc_v_microarchitecture.Cache.Access.{set_read_i_counter, set_read_counter}
use risc_v_microarchitecture.Cache.Block.{complete_at}
use risc_v_microarchitecture.Memory.{read_memory_i, read_memory, finish_read, load_value}
use risc_v_microarchitecture.Control.Decode.{decode, dispatch, get_format, read_i_format}
use risc_v_microarchitecture.Alu.{arithmetic_unit, generate_immediate, immediate_i}
use risc_v_microarchitecture.Pipeline.State.{Machine}
use risc_v_microarchitecture.Pipeline.Forward.{forward_ex, forward_ma}
use risc_v_microarchitecture.Pipeline.Execute.{ex_stage, operate, execute, plain_result}
use risc_v_microarchitecture.Pipeline.Decode.{
  id_stage, decoded, load_id_ex, predict_jump, set_hazard_stall, reset_decode_flags,
  update_operands,
}
use risc_v_microarchitecture.Pipeline.Stages.{
  if_stage, fetched, ma_stage, ma_access, ma_control_flow, wb_stage, write_register,
}
use risc_v_microarchitecture.Pipeline.Tests.{idle}
use risc_v_microarchitecture.Simulator.{
  State, simulate, step, run, after_memory, execute_cycle, front_end,
}
use risc_v_microarchitecture.Simulator.Registers.{IsSound}
use risc_v_microarchitecture.Simulator.Loop.{simulate-IsSound}
use risc_v_microarchitecture.Simulator.Order.{IsRead, IsReady}
use risc_v_microarchitecture.Simulator.Cycle.{IsAdvanced, step-in_order}

abbrev loaded : Machine
loaded = record idle {
  memory = record idle.memory {
    caches = record idle.memory.caches { cache_levels = negsuc 0 };
    dram = λ k.
        if k == 0
        then 0x93
        else if k == 1
        then 0x02
        else if k == 2
        then 0x50
        else if k == 4
        then 0x73
        else 0;
  };
}

abbrev last : Run State → State
last (ok s) = s
last exit = record {
  machine = loaded;
  pause_counter = pos 0;
  trap_counter = pos 0;
  halt = false;
  stopped = false;
}
last fault = record {
  machine = loaded;
  pause_counter = pos 0;
  trap_counter = pos 0;
  halt = false;
  stopped = false;
}

machine_code : Unit {0}
unfolding set_read_i_counter set_read_counter complete_at read_memory_i read_memory finish_read
    load_value decode dispatch get_format read_i_format arithmetic_unit generate_immediate
    immediate_i forward_ex forward_ma ex_stage operate execute plain_result id_stage decoded
    load_id_ex predict_jump set_hazard_stall reset_decode_flags update_operands if_stage fetched
    ma_stage ma_access ma_control_flow wb_stage write_register simulate step run after_memory
    execute_cycle front_end
machine_code = tt

register_5 : (last (simulate 12 0 loaded)).machine.reg_file 5 ≡ 5
unfolding program machine_code
register_5 = refl

halts : (last (simulate 12 0 loaded)).halt ≡ true
unfolding program machine_code
halts = refl

runs : simulate 12 0 loaded ≡ ok (last (simulate 12 0 loaded))
unfolding program machine_code
runs = refl

simulate-IsSound_example : IsSound (last (simulate 12 0 loaded)).machine
simulate-IsSound_example =
    simulate-IsSound 12 0 loaded (last (simulate 12 0 loaded))
      (record { zero_register = refl; outcomes = refl; predictions = refl }) runs

-- After two cycles `addi x5, x0, 5` is in EX.
abbrev second_cycle : State
second_cycle = last (simulate 2 0 loaded)

second_cycle-IsRead : IsRead second_cycle.machine
unfolding program machine_code
second_cycle-IsRead = record { zero_register = refl; first = refl; second = refl }

second_cycle-IsReady : IsReady second_cycle.machine
unfolding program machine_code
second_cycle-IsReady = record {
  no_access = refl;
  no_jump = refl;
  no_call = refl;
  no_store = refl;
  completed = refl;
  no_flush = refl;
  no_hazard = refl;
  no_pause = refl;
  no_trap = refl;
  no_stall = refl;
}

third_cycle : step second_cycle ≡ ok (last (step second_cycle))
unfolding program machine_code
third_cycle = refl

step-in_order_example :
    IsRead (last (step second_cycle)).machine
    × IsAdvanced second_cycle.machine (last (step second_cycle)).machine
step-in_order_example =
    step-in_order second_cycle (last (step second_cycle)) second_cycle-IsRead second_cycle-IsReady
      third_cycle
