-- ===== src/Simulator/Loop.antt =====
-- The invariant of Simulator/Registers, over the cycles of src/execution/simulator.c.
use risc_v_microarchitecture.Base.{
  ℕ, zero, suc, ◌≡◌, ◌==◌, pos, Bool, ok, Run, Ensures, Ensures-if, Ensures-ok, Ensures-then,
  Ensures->>=, ◌>>=◌, if◌then◌else◌, if-split, true, false,
}
use risc_v_microarchitecture.Pipeline.State.{
  Machine, empty_if_id, empty_id_ex, empty_ex_ma, empty_ma_wb,
}
use risc_v_microarchitecture.Pipeline.Decode.{reset_decode_flags, update_operands}
use risc_v_microarchitecture.Simulator.{
  State, is_zero, next_cycle, memory_stall, flush_execute, structural_stall, flush_decode, fetch,
  front_end, pause_cycle, trap_cycle, forwarding_stall_cycle, execute_cycle, after_memory, step,
  run, simulate, start,
}
use risc_v_microarchitecture.Simulator.Registers.{
  IsSound, Sound, wb_stage-IsSound, ma_stage-IsSound, ex_stage-IsSound, id_stage-IsSound,
  if_stage-IsSound,
}

abbrev SoundFlag : Run (Bool × Machine) → Type 0
SoundFlag = Ensures (λ v. IsSound v.1)

abbrev SoundState : Run State → Type 0
SoundState = Ensures (λ s. IsSound s.machine)

ruleset sound = (Ensures-if, Ensures-ok, Ensures-then)

flush_decode-IsSound : (m : Machine) → IsSound m → Sound (flush_decode m)
unfolding flush_decode
flush_decode-IsSound m s = search (sound)

fetch-IsSound : (m : Machine) → IsSound m → SoundFlag (fetch m)
unfolding fetch
fetch-IsSound m s = Ensures->>= _ (if_stage-IsSound m s) λ m' p. Ensures-ok _ _ (
    if-split (λ (v : Bool × Machine). IsSound v.1) m'.memory.mfc_i (true, next_cycle m')
      (false, next_cycle (record m' { if_id = empty_if_id })) p p)

front_end-IsSound : (m : Machine) → IsSound m → SoundFlag (front_end m)
unfolding front_end
front_end-IsSound m s = Ensures->>= _ (id_stage-IsSound m s) λ m' p.
    let stalled : SoundFlag
        (ok (false, next_cycle (record m' { id_ex = empty_id_ex; data_hazard_stall = false }))) =
      Ensures-ok _ _ p in
    Ensures-if m'.data_hazard_stall _ _ stalled
      (Ensures->>= _ (flush_decode-IsSound m' p) fetch-IsSound)

flush_execute-IsSound : (m : Machine) → IsSound m → Sound (flush_execute m)
unfolding flush_execute reset_decode_flags
flush_execute-IsSound m s = search (sound)

structural_stall-IsSound : (m : Machine) → IsSound m → Sound (structural_stall m)
unfolding structural_stall update_operands
structural_stall-IsSound m s =
    Ensures->>= _ (if_stage-IsSound (update_operands (record m { ma_wb = empty_ma_wb })) s) λ m' p.
      Ensures-ok _ _ (if-split IsSound m'.memory.mfc_i m' (record m' { if_id = empty_if_id }) p p)

-- The two ways in which a cycle with a system call in EX ends.
system_cycle-IsSound :
    (b : Bool) (m : Machine) (s : State) (k : Bool × Machine → State)
    → IsSound m
    → IsSound s.machine
    → ((v : Bool × Machine) → IsSound v.1 → IsSound (k v).machine)
    → SoundState (if b then (front_end m >>= λ v. ok (k v)) else ok s)
system_cycle-IsSound b m s k p q r =
    Ensures-if b _ (ok s) (Ensures->>= _ (front_end-IsSound m p) λ v p'. Ensures-ok _ _ (r v p'))
      (Ensures-ok _ s q)

pause_cycle-IsSound : (s : State) (m : Machine) → IsSound m → SoundState (pause_cycle s m)
unfolding pause_cycle
pause_cycle-IsSound s m p =
    system_cycle-IsSound (is_zero s.pause_counter) m
      (record s {
        machine = next_cycle (record m { ex_ma = empty_ex_ma; pause = false });
        pause_counter = pos 0;
      })
      _ p p
      λ (finished, m') p'.
        if-split (λ (t : State). IsSound t.machine) finished _ (record s { machine = m' }) p' p'

trap_cycle-IsSound : (s : State) (m : Machine) → IsSound m → SoundState (trap_cycle s m)
unfolding trap_cycle
trap_cycle-IsSound s m p =
    system_cycle-IsSound (is_zero s.trap_counter) m
      (record s {
        machine = next_cycle (record m { ex_ma = empty_ex_ma; trap = false });
        trap_counter = pos 0;
      })
      _ p p
      λ (finished, m') p'.
        if-split (λ (t : State). IsSound t.machine) finished _ _
          (if-split (λ (t : State). IsSound t.machine) (m'.reg_file 17 == 0) _ _ p' p') p'

execute_cycle-IsSound : (s : State) (m : Machine) → IsSound m → SoundState (execute_cycle s m)
unfolding execute_cycle forwarding_stall_cycle update_operands
execute_cycle-IsSound s m p = Ensures->>= _ (ex_stage-IsSound m p) λ m' p'.
    let stalled : SoundState (ok (record s { machine = forwarding_stall_cycle m' })) =
      Ensures-ok _ _ p' in
    let plain : SoundState (front_end m' >>= λ (b, m''). ok (record s { machine = m'' })) =
      Ensures->>= _ (front_end-IsSound m' p') λ v q. Ensures-ok _ _ q in
    Ensures-if m'.pause _ _ (pause_cycle-IsSound s m' p') (
      Ensures-if m'.trap _ _ (trap_cycle-IsSound s m' p')
        (Ensures-if m'.forwarding_stall _ _ stalled plain))

after_memory-IsSound : (s : State) (m : Machine) → IsSound m → SoundState (after_memory s m)
unfolding after_memory memory_stall update_operands
after_memory-IsSound s m p =
    let flushed : SoundState (flush_execute m >>= λ m'. execute_cycle s m') =
      Ensures->>= _ (flush_execute-IsSound m p) (execute_cycle-IsSound s) in
    let stalled : SoundState (structural_stall m >>= λ m'. ok (record s { machine = m' })) =
      Ensures->>= _ (structural_stall-IsSound m p) λ m' q. Ensures-ok _ _ q in
    let waiting : SoundState (ok (record s { machine = memory_stall m })) = Ensures-ok _ _ p in
    Ensures-if m.memory.mfc _ _
      (Ensures-if m.flush _ _ flushed
        (Ensures-if m.memory.structural_hazard_stall _ _ stalled (execute_cycle-IsSound s m p)))
      waiting

step-IsSound : (s : State) → IsSound s.machine → SoundState (step s)
unfolding step
step-IsSound s p =
    Ensures->>= _ (ma_stage-IsSound _ (wb_stage-IsSound s.machine p)) (after_memory-IsSound s)

run-IsSound : (fuel : ℕ) (s : State) → IsSound s.machine → SoundState (run fuel s)
unfolding run
run-IsSound zero s p = search (sound)
run-IsSound (suc n) s p =
    let rest : SoundState (step s >>= λ s'. run n s') =
      Ensures->>= _ (step-IsSound s p) (run-IsSound n) in
    Ensures-if s.stopped _ _ (Ensures-ok _ s p) rest

-- From a machine whose register 0 holds 0 and whose branch counters agree, every state that the
-- loop of `simulate` comes to is such a machine.
pub simulate-IsSound :
    (fuel entry : ℕ) (m : Machine) (s : State)
    → IsSound m
    → simulate fuel entry m ≡ ok s
    → IsSound s.machine
unfolding simulate
simulate-IsSound fuel entry m s p e = (run-IsSound fuel (start entry m) p).ensured s e
