-- ===== src/Pipeline/Forward.antt =====
-- src/forwarding/forwarding.c. A function gives its value and the machine with the stall flag and
-- the counters changed.
use risc_v_microarchitecture.Base.{ℕ, ◌+◌, ◌==◌, ◌&&◌, not, if◌then◌else◌, Bool, true}
use risc_v_microarchitecture.Pipeline.State.{Machine}

-- `wb == 1 && (n_reg == nrd && nrd != 0)`
abbrev pub writes_reg : ℕ → ℕ → ℕ → Bool
writes_reg wb nrd n_reg = wb == 1 && (n_reg == nrd && not (nrd == 0))

abbrev forwarded_to_ex : Machine → Machine
forwarded_to_ex m = record m {
  stats = record m.stats { n_forwards_to_ex = m.stats.n_forwards_to_ex + 1 };
}

abbrev forwarded_to_ma : Machine → Machine
forwarded_to_ma m = record m {
  stats = record m.stats { n_forwards_to_ma = m.stats.n_forwards_to_ma + 1 };
}

unfoldable pub forward_ex : ℕ → ℕ → Machine → ℕ × Machine
forward_ex original_value n_reg m =
    if writes_reg m.ex_ma.cs_wb.wb m.ex_ma.nrd n_reg
    then (if m.ex_ma.cs_ma.mem == 1
        then (0, record m { forwarding_stall = true })
        else (m.ex_ma.result, forwarded_to_ex m))
    else if writes_reg m.ma_wb.cs_wb.wb m.ma_wb.nrd n_reg
    then (0, record m { forwarding_stall = true })
    else if writes_reg m.wb_if.cs_wb.wb m.wb_if.nrd n_reg
    then (m.wb_if.result, forwarded_to_ex m)
    else (original_value, m)

unfoldable pub forward_ma : ℕ → ℕ → Machine → ℕ × Machine
forward_ma original_value n_reg m =
    if writes_reg m.ma_wb.cs_wb.wb m.ma_wb.nrd n_reg
    then (m.ma_wb.result, forwarded_to_ma m)
    else if writes_reg m.recent_wb.cs_wb.wb m.recent_wb.nrd n_reg
    then (m.recent_wb.result, forwarded_to_ma m)
    else (original_value, m)
