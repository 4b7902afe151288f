-- ===== src/Control/Bounds.antt =====
-- The ranges of the control signals that src/execution/control.c gives.
use risc_v_microarchitecture.Base.{
  ℕ, ◌≤◌, ◌≡◌, ◌==◌, if◌then◌else◌, Bool, true, false, bit_and, ◌⊎◌, arith, ok,
}
use risc_v_microarchitecture.Control.Signals.{CuOutput}
use risc_v_microarchitecture.Control.Decode.{
  decode, read_r_format, read_i_format, read_s_format, read_b_format, read_u_format, read_j_format,
  get_format, dispatch, system_output,
}
use risc_v_microarchitecture.Branch.{predict}
use risc_v_microarchitecture.Alu.{Format, bubble, r_type, i_type, s_type, b_type, u_type, j_type}

pub record IsControl (out : CuOutput) : Type 0 where
  pub source1 : out.cs_ex.source1 ≤ 1
  pub source2 : out.cs_ex.source2 ≤ 1
  pub sign : out.cs_ex.sign ≤ 1
  pub type : out.cs_ex.type ≤ 3
  pub arithmetic : out.cs_ex.arithmetic_opcode ≤ 1
  pub logic : out.cs_ex.logic_opcode ≤ 6
  pub branch : out.cs_ex.branch_opcode ≤ 4
  pub system : out.cs_ex.system_call ≤ 2
  pub mem : out.cs_ma.mem ≤ 1
  pub read_write :
      (out.cs_ma.read_write_opcode ≤ 4)
      ⊎ (8 ≤ out.cs_ma.read_write_opcode) × (out.cs_ma.read_write_opcode ≤ 10)
  pub taken : out.cs_ma.branch_taken ≤ 1
  pub jump : out.cs_ma.jump_or_branch ≤ 2
  pub wb : out.cs_wb.wb ≤ 1

read_r_format-IsControl : (ir : ℕ) {out : CuOutput} → read_r_format ir ≡ ok out → IsControl out
unfolding read_r_format
read_r_format-IsControl ir h = ground arith

read_i_format-IsControl : (ir : ℕ) {out : CuOutput} → read_i_format ir ≡ ok out → IsControl out
unfolding read_i_format
read_i_format-IsControl ir h = ground arith

read_b_format-IsControl :
    (strategy ir : ℕ) {out : CuOutput} → read_b_format strategy ir ≡ ok out → IsControl out
unfolding read_b_format predict
read_b_format-IsControl strategy ir h = ground arith

read_s_format-IsControl : (ir : ℕ) {out : CuOutput} → read_s_format ir ≡ ok out → IsControl out
unfolding read_s_format
read_s_format-IsControl ir h = ground arith

read_u_format-IsControl : (ir : ℕ) {out : CuOutput} → read_u_format ir ≡ ok out → IsControl out
unfolding read_u_format
read_u_format-IsControl ir h = ground arith

read_j_format-IsControl : (ir : ℕ) {out : CuOutput} → read_j_format ir ≡ ok out → IsControl out
unfolding read_j_format
read_j_format-IsControl ir h = ground arith

dispatch-IsControl :
    (strategy ir : ℕ) (format : Format) {out : CuOutput}
    → dispatch strategy ir format ≡ ok out
    → IsControl out
unfolding dispatch
dispatch-IsControl strategy ir bubble h = cc
dispatch-IsControl strategy ir r_type h = read_r_format-IsControl ir h
dispatch-IsControl strategy ir i_type h = read_i_format-IsControl ir h
dispatch-IsControl strategy ir s_type h = read_s_format-IsControl ir h
dispatch-IsControl strategy ir b_type h = read_b_format-IsControl strategy ir h
dispatch-IsControl strategy ir u_type h = read_u_format-IsControl ir h
dispatch-IsControl strategy ir j_type h = read_j_format-IsControl ir h

-- A word that decodes, whatever its bits and the branch prediction strategy, gives control signals
-- within the range of their fields.
pub decode-IsControl :
    (strategy ir : ℕ) (out : CuOutput) → decode strategy ir ≡ ok out → IsControl out
unfolding decode
decode-IsControl strategy ir out h = cases (bit_and ir 0x7F == 0) h
  where
    cases :
        (bubble? : Bool)
        → (if bubble? then system_output 0 else dispatch strategy ir (get_format (bit_and ir 0x7F)))
          ≡ ok out
        → IsControl out
    cases true h = ground arith
    cases false h = dispatch-IsControl strategy ir (get_format (bit_and ir 0x7F)) h
