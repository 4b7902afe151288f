-- ===== src/Control/Signals.antt =====
-- The control signals of include/control.h. Each field is the small number of the C struct.
use risc_v_microarchitecture.Base.{ℕ}
use risc_v_microarchitecture.Alu.{Format}

pub record ExControl : Type 0 where
  pub source1 : ℕ
  pub source2 : ℕ
  pub sign : ℕ
  pub type : ℕ
  pub arithmetic_opcode : ℕ
  pub logic_opcode : ℕ
  pub branch_opcode : ℕ
  pub system_call : ℕ

pub record MaControl : Type 0 where
  pub mem : ℕ
  pub read_write_opcode : ℕ
  pub branch_taken : ℕ
  pub jump_or_branch : ℕ

pub record WbControl : Type 0 where
  pub wb : ℕ

pub record CuOutput : Type 0 where
  pub format : Format
  pub cs_ex : ExControl
  pub cs_ma : MaControl
  pub cs_wb : WbControl

-- The positional initialisers of the source.
abbrev pub ex_control : (a b c d e f g h : ℕ) → ExControl
ex_control a b c d e f g h = record {
  source1 = a;
  source2 = b;
  sign = c;
  type = d;
  arithmetic_opcode = e;
  logic_opcode = f;
  branch_opcode = g;
  system_call = h;
}

abbrev pub ma_control : (a b c d : ℕ) → MaControl
ma_control a b c d = record { mem = a; read_write_opcode = b; branch_taken = c; jump_or_branch = d }

abbrev pub cu_output : Format → ExControl → MaControl → ℕ → CuOutput
cu_output format ex ma wb = record {
  format = format;
  cs_ex = ex;
  cs_ma = ma;
  cs_wb = record { wb = wb };
}
