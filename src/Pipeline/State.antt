-- ===== src/Pipeline/State.antt =====
-- The pipeline registers of include/pipeline.h and the globals of include/component_declaration.h.
use risc_v_microarchitecture.Base.{ℕ, Bool}
use risc_v_microarchitecture.Control.Signals.{
  ExControl, MaControl, WbControl, ex_control, ma_control,
}
use risc_v_microarchitecture.Memory.{Memory}

-- The text of an instruction, which is for display: the null pointer, the blank text of a bubble,
-- or one of the loaded texts, by number.
pub data Ins : Type 0 where
  null blank : Ins
  text : ℕ → Ins

pub record IfId : Type 0 where
  pub ir : ℕ
  pub pc : ℕ
  pub pc_next : ℕ
  pub ins : Ins

pub record IdEx : Type 0 where
  pub pc : ℕ
  pub pc_next : ℕ
  pub nrs1 : ℕ
  pub r1 : ℕ
  pub nrs2 : ℕ
  pub r2 : ℕ
  pub imm : ℕ
  pub nrd : ℕ
  pub cs_ex : ExControl
  pub cs_ma : MaControl
  pub cs_wb : WbControl
  pub ins : Ins

pub record ExMa : Type 0 where
  pub pc_next : ℕ
  pub nrs2 : ℕ
  pub r2 : ℕ
  pub result : ℕ
  pub nrd : ℕ
  pub cs_ma : MaControl
  pub cs_wb : WbControl
  pub ins : Ins

-- `MA_WB` and `WB_IF` have the same fields.
pub record MaWb : Type 0 where
  pub result : ℕ
  pub nrd : ℕ
  pub cs_wb : WbControl
  pub ins : Ins

pub record CpuStats : Type 0 where
  pub branches_taken : ℕ
  pub branches_not_taken : ℕ
  pub branch_miss : ℕ
  pub branch_hit : ℕ
  pub n_branch_instructions : ℕ
  pub id_flushes : ℕ
  pub ex_flushes : ℕ
  pub n_forwards_to_ex : ℕ
  pub n_forwards_to_ma : ℕ
  pub n_instructions : ℕ

-- `change_pc` and `jump_pc` are the static variables of id.c. The cycle count is the one of the
-- caches, `memory.caches.cycle`.
pub record Machine : Type 0 where
  pub memory : Memory
  pub instructions : ℕ → Ins
  pub reg_file : ℕ → ℕ
  pub pc : ℕ
  pub ir : ℕ
  pub if_id : IfId
  pub id_ex : IdEx
  pub ex_ma : ExMa
  pub ma_wb : MaWb
  pub wb_if : MaWb
  pub recent_wb : MaWb
  pub pause : Bool
  pub trap : Bool
  pub forwarding_stall : Bool
  pub data_hazard_stall : Bool
  pub flush : Bool
  pub forwarding_switch : ℕ
  pub branch_prediction_strategy : ℕ
  pub change_pc : Bool
  pub jump_pc : ℕ
  pub stats : CpuStats

-- The cleared pipeline registers.
abbrev pub empty_if_id : IfId
empty_if_id = record { ir = 0; pc = 0; pc_next = 0; ins = blank }

abbrev pub empty_id_ex : IdEx
empty_id_ex = record {
  pc = 0;
  pc_next = 0;
  nrs1 = 0;
  r1 = 0;
  nrs2 = 0;
  r2 = 0;
  imm = 0;
  nrd = 0;
  cs_ex = ex_control 0 0 0 0 0 0 0 0;
  cs_ma = ma_control 0 0 0 0;
  cs_wb = record { wb = 0 };
  ins = blank;
}

abbrev pub empty_ex_ma : ExMa
empty_ex_ma = record {
  pc_next = 0;
  nrs2 = 0;
  r2 = 0;
  result = 0;
  nrd = 0;
  cs_ma = ma_control 0 0 0 0;
  cs_wb = record { wb = 0 };
  ins = blank;
}

abbrev pub empty_ma_wb : MaWb
empty_ma_wb = record { result = 0; nrd = 0; cs_wb = record { wb = 0 }; ins = blank }
