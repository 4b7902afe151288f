-- ===== src/Assembler/Tests.antt =====
-- Encoded instructions.
use risc_v_microarchitecture.Base.{◌+◌, ◌*◌, ◌-◌, ◌^◌, ◌≡◌, arith}
use risc_v_microarchitecture.Alu.{immediate_i, immediate_s}
use risc_v_microarchitecture.Alu.Immediate.{bits}
use risc_v_microarchitecture.Assembler.{read_s_format, read_i_format}
use risc_v_microarchitecture.Assembler.Encode.{read_s_format-immediate_s, read_i_format-immediate_i}

-- `sw x5, -8(x2)`.
read_s_format-immediate_s_example :
    let ir = read_s_format (0b0100011 + 2 * 2 ^ 12) 5 2 (2 ^ 32 - 8) in
    (immediate_s ir ≡ 2 ^ 32 - 8)
    × (bits 20 5 ir ≡ 5)
    × (bits 15 5 ir ≡ 2)
    × (bits 0 7 ir ≡ 0b0100011)
    × (bits 12 3 ir ≡ 2)
read_s_format-immediate_s_example =
    read_s_format-immediate_s 0b0100011 2 (omega arith) (omega arith) 5 2 (2 ^ 32 - 8) (omega arith)
      (omega arith) (omega arith) (omega arith)

-- `addi x5, x2, -8`.
read_i_format-immediate_i_example :
    let ir = read_i_format (0b0010011 + 0 * 2 ^ 12) 5 2 (2 ^ 32 - 8) in
    (immediate_i ir ≡ 2 ^ 32 - 8)
    × (bits 7 5 ir ≡ 5)
    × (bits 15 5 ir ≡ 2)
    × (bits 0 7 ir ≡ 0b0010011)
    × (bits 12 3 ir ≡ 0)
read_i_format-immediate_i_example =
    read_i_format-immediate_i 0b0010011 0 (omega arith) (omega arith) 5 2 (2 ^ 32 - 8) (omega arith)
      (omega arith) (omega arith) (omega arith)
