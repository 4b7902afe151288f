-- ===== src/Branch.antt =====
-- src/branch/: the branch predictors. The dynamic ones are empty in the source: they predict 0,
-- and `store` reaches only functions with no body, so it changes no state.
use risc_v_microarchitecture.Base.{ℕ, ◌^◌, ◌==◌, ltb, if◌then◌else◌, Run, ok, exit}
use risc_v_microarchitecture.Alu.{b_type, generate_immediate}

unfoldable predict_not_taken : ℕ → ℕ
predict_not_taken ir = 0

unfoldable predict_taken : ℕ → ℕ
predict_taken ir = 1

unfoldable predict_based_on_offset : ℕ → ℕ
predict_based_on_offset ir =
    let imm = generate_immediate b_type ir in if ltb imm (2 ^ 31) then 0 else 1

unfoldable taken_not_taken_switch : ℕ → ℕ
taken_not_taken_switch ir = 0

unfoldable branch_history_table : ℕ → ℕ
branch_history_table ir = 0

-- The first argument is `BRANCH_PREDICTION_STRATEGY`.
unfoldable pub predict : ℕ → ℕ → Run ℕ
unfolding predict_not_taken predict_taken predict_based_on_offset taken_not_taken_switch
    branch_history_table
predict strategy ir =
    if strategy == 0
    then ok (predict_not_taken ir)
    else if strategy == 1
    then ok (predict_taken ir)
    else if strategy == 2
    then ok (predict_based_on_offset ir)
    else if strategy == 3
    then ok (taken_not_taken_switch ir)
    else if strategy == 4
    then ok (branch_history_table ir)
    else exit
