-- ===== src/Simulator/Registers.antt =====
-- The invariant of the loop of src/execution/simulator.c, over the stages.
use risc_v_microarchitecture.Base.{
  ℕ, ◌+◌, ◌≡◌, arith, Run, ok, ◌==◌, ◌>>=◌, Ensures, Ensures-ok, Ensures-exit, Ensures-if,
  Ensures-then, Ensures->>=,
}
use risc_v_microarchitecture.Control.Signals.{CuOutput}
use risc_v_microarchitecture.Pipeline.State.{Machine}
use risc_v_microarchitecture.Pipeline.Forward.{forward_ex, forward_ma}
use risc_v_microarchitecture.Pipeline.Execute.{
  operand_one, operand_two, store_data, fill_ex_ma, operate, ex_stage,
}
use risc_v_microarchitecture.Pipeline.Decode.{id_stage, decoded, load_id_ex, predict_jump}
use risc_v_microarchitecture.Pipeline.Stages.{
  if_stage, fetched, ma_stage, ma_access, ma_control_flow, resolve_branch, fill_ma_wb, wb_stage,
  write_register,
}

-- The numbers of the invariant.
pub record IsBalanced (register_0 taken not_taken hit miss branches : ℕ) : Type 0 where
  pub zero_register : register_0 ≡ 0
  pub outcomes : taken + not_taken ≡ branches
  pub predictions : hit + miss ≡ branches

-- The invariant: register 0 holds 0, and every branch is counted once as taken or not taken and
-- once as a hit or a miss.
abbrev pub IsSound : Machine → Type 0
IsSound m =
    IsBalanced (m.reg_file 0) m.stats.branches_taken m.stats.branches_not_taken m.stats.branch_hit
      m.stats.branch_miss m.stats.n_branch_instructions

abbrev pub Sound : Run Machine → Type 0
Sound = Ensures IsSound

abbrev SoundValue : Run (ℕ × Machine) → Type 0
SoundValue = Ensures (λ v. IsSound v.1)

pub wb_stage-IsSound : (m : Machine) → IsSound m → IsSound (wb_stage m)
unfolding wb_stage write_register
wb_stage-IsSound m s = ground (arith, s.zero_register, s.outcomes, s.predictions)

ma_control_flow-IsSound : (m : Machine) → IsSound m → IsSound (ma_control_flow m)
unfolding ma_control_flow resolve_branch
ma_control_flow-IsSound m s = ground (arith, s.zero_register, s.outcomes, s.predictions)

forward_ex-IsSound : (v n : ℕ) (m : Machine) → IsSound m → IsSound (forward_ex v n m).1
unfolding forward_ex
forward_ex-IsSound v n m s = ground (arith, s.zero_register, s.outcomes, s.predictions)

forward_ma-IsSound : (v n : ℕ) (m : Machine) → IsSound m → IsSound (forward_ma v n m).1
unfolding forward_ma
forward_ma-IsSound v n m s = ground (arith, s.zero_register, s.outcomes, s.predictions)

store_data-IsSound : (m : Machine) → IsSound m → IsSound (store_data m).1
unfolding store_data forward_ex
store_data-IsSound m s = ground (arith, s.zero_register, s.outcomes, s.predictions)

decoded-IsSound : (out : CuOutput) (m : Machine) → IsSound m → IsSound (decoded out m)
unfolding decoded load_id_ex predict_jump
decoded-IsSound out m s = ground (arith, s.zero_register, s.outcomes, s.predictions)

fetched-IsSound : (m : Machine) → IsSound m → IsSound (fetched m)
unfolding fetched
fetched-IsSound m s = ground (arith, s.zero_register, s.outcomes, s.predictions)

ruleset sound = (Ensures-if, Ensures-ok, Ensures-exit, Ensures-then)

ma_access-IsSound : (m : Machine) → IsSound m → SoundValue (ma_access m)
unfolding ma_access
ma_access-IsSound m s = search (sound, forward_ma-IsSound)

pub ma_stage-IsSound : (m : Machine) → IsSound m → Sound (ma_stage m)
unfolding ma_stage fill_ma_wb
ma_stage-IsSound m s =
    let access : Sound (ma_access m >>= λ (result, m'). ok (fill_ma_wb result m')) =
      Ensures->>= _ (ma_access-IsSound m s) λ v p. Ensures-ok _ _ p in
    let plain : Sound (ok (fill_ma_wb m.ex_ma.result (ma_control_flow m))) =
      Ensures-ok _ _ (ma_control_flow-IsSound m s) in
    Ensures-if (m.ex_ma.cs_ma.mem == 0) _ _ plain access

operand_one-IsSound : (m : Machine) → IsSound m → SoundValue (operand_one m)
unfolding operand_one
operand_one-IsSound m s = search (sound, forward_ex-IsSound)

operand_two-IsSound : (m : Machine) → IsSound m → SoundValue (operand_two m)
unfolding operand_two
operand_two-IsSound m s = search (sound, forward_ex-IsSound)

operate-IsSound : (m : Machine) → IsSound m → Sound (operate m)
unfolding operate fill_ex_ma
operate-IsSound m s = Ensures->>= _ (operand_one-IsSound m s) λ (a, m₁) s₁.
    Ensures->>= _ (operand_two-IsSound m₁ s₁) λ (b, m₂) s₂. search (sound, store_data-IsSound m₂)

pub ex_stage-IsSound : (m : Machine) → IsSound m → Sound (ex_stage m)
unfolding ex_stage
ex_stage-IsSound m s = search (sound, operate-IsSound)

pub id_stage-IsSound : (m : Machine) → IsSound m → Sound (id_stage m)
unfolding id_stage
id_stage-IsSound m s = search (sound, decoded-IsSound)

pub if_stage-IsSound : (m : Machine) → IsSound m → Sound (if_stage m)
unfolding if_stage
if_stage-IsSound m s = search (sound, fetched-IsSound)
