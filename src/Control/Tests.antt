-- ===== src/Control/Tests.antt =====
-- A decoded word.
use risc_v_microarchitecture.Base.{◌≡◌, refl, ok}
use risc_v_microarchitecture.Alu.{i_type}
use risc_v_microarchitecture.Control.Signals.{CuOutput, ex_control, ma_control, cu_output}
use risc_v_microarchitecture.Control.Decode.{decode, dispatch, get_format, read_i_format}
use risc_v_microarchitecture.Control.Bounds.{IsControl, decode-IsControl}

-- `addi x5, x0, 5`
abbrev pub addi_signals : CuOutput
addi_signals = cu_output i_type (ex_control 1 1 1 0 0 0 0 0) (ma_control 0 0 0 0) 1

pub addi_decodes : decode 0 0x00500293 ≡ ok addi_signals
unfolding decode dispatch get_format read_i_format
addi_decodes = refl

decode-IsControl_example : IsControl addi_signals
decode-IsControl_example = decode-IsControl 0 0x00500293 addi_signals addi_decodes
