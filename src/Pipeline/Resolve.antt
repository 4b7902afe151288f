-- ===== src/Pipeline/Resolve.antt =====
-- The resolution of branches in src/pipeline/ma.c.
use risc_v_microarchitecture.Base.{◌+◌, ◌/◌, ◌%◌, ◌<◌, ◌==◌, not, if◌then◌else◌, ◌≡◌, false, arith}
use risc_v_microarchitecture.Bits.{and_field}
use risc_v_microarchitecture.Alu.{flag}
use risc_v_microarchitecture.Pipeline.State.{Machine}
use risc_v_microarchitecture.Pipeline.Stages.{resolve_branch, ma_control_flow}

-- The resolution of a branch in MA, for the control word of a branch, a two-bit `branch_taken` and
-- no flush asked for before: a flush is asked for exactly when the prediction was wrong, and then
-- the fetch goes on at the target where the branch is taken and behind the branch where it is not;
-- the counter of branches goes up by one, and so does the one of taken or of not taken branches
-- that fits, and the one of hits or of misses, the other of each pair being left as it was.
pub ma_control_flow-branch :
    (m : Machine)
    → m.ex_ma.cs_ma.jump_or_branch ≡ 2
    → m.ex_ma.cs_ma.branch_taken < 4
    → m.flush ≡ false
    → let actual = m.ex_ma.cs_ma.branch_taken / 2 in
      let predicted = m.ex_ma.cs_ma.branch_taken % 2 in
      let m' = ma_control_flow m in
      (m'.flush ≡ not (actual == predicted))
      × (m'.pc ≡ (
          if actual == predicted
          then m.pc
          else if actual == 1
          then m.ex_ma.pc_next
          else m.ex_ma.result))
      × (m'.stats.n_branch_instructions ≡ m.stats.n_branch_instructions + 1)
      × (m'.stats.branches_taken ≡ m.stats.branches_taken + actual)
      × (m'.stats.branches_not_taken ≡ m.stats.branches_not_taken + flag (actual == 0))
      × (m'.stats.branch_miss ≡ m.stats.branch_miss + flag (not (actual == predicted)))
      × (m'.stats.branch_hit ≡ m.stats.branch_hit + flag (actual == predicted))
unfolding ma_control_flow resolve_branch
ma_control_flow-branch m branch range calm =
    let b = m.ex_ma.cs_ma.branch_taken in
    let low = and_field 0 1 b (omega arith) (omega arith) in
    let high = and_field 1 1 b (omega arith) (omega arith) in ground (arith, low, high)
