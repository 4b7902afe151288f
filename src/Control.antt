-- ===== src/Control.antt =====
-- src/execution/control.c: from an instruction word to control signals.
pub mod Signals
pub mod Decode
pub mod Bounds
pub mod Tests
pub use Signals.*
unfoldable pub use Decode.{
  i_table, get_format, funct3, funct7, read_r_format, read_i_format, read_s_format, read_b_format,
  read_u_format, read_j_format, decode,
}
