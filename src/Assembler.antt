-- ===== src/Assembler.antt =====
-- src/assembler/core/opcode_generator.c: an instruction word from an opcode word, the numbers that
-- the operand readers give, and the address of a label. `int` values are their 32-bit patterns; a
-- label that the symbol table does not hold (the -1 of `get_address`) is `none`.
pub mod Encode
pub mod Text
pub mod Table
pub mod Operands
pub mod Parser
pub mod Symbols
pub mod Opcode
pub mod Program
mod Tests
use risc_v_microarchitecture.Base.{
  ℕ, ◌-◌, ◌^◌, not, ◌&&◌, if◌then◌else◌, sub32, ◌<<<◌, ◌>>>◌, slt, bit_and, bit_or, Option, none,
  some,
}

unfoldable pub read_b_format : ℕ → ℕ → ℕ → Option ℕ → ℕ → ℕ
read_b_format opcode arg1 arg2 none current_instruction_address = 0
read_b_format opcode arg1 arg2 (some label) current_instruction_address =
    let op₁ = bit_or opcode (arg1 <<< 15) in
    let op₂ = bit_or op₁ (arg2 <<< 20) in
    let arg3 = sub32 label current_instruction_address in
    let op₃ = bit_or op₂ (bit_and arg3 0x1E <<< 7) in
    let op₄ = bit_or op₃ (bit_and arg3 0x7E0 <<< 20) in
    let op₅ = bit_or op₄ (bit_and arg3 0x800 >>> 4) in
    let op₆ = bit_or op₅ (bit_and arg3 0x1000 <<< 19) in
    if not (slt arg3 (2 ^ 32 - 4096)) && not (slt 4095 arg3) then op₆ else 0

unfoldable pub read_j_format : ℕ → ℕ → Option ℕ → ℕ → ℕ
read_j_format opcode arg1 none current_instruction_address = 0
read_j_format opcode arg1 (some label) current_instruction_address =
    let op₁ = bit_or opcode (arg1 <<< 7) in
    let arg2 = sub32 label current_instruction_address in
    let op₂ = bit_or op₁ (bit_and arg2 0x7FE <<< 20) in
    let op₃ = bit_or op₂ (bit_and arg2 0x800 <<< 9) in
    let op₄ = bit_or op₃ (bit_and arg2 0xFF000) in
    let op₅ = bit_or op₄ (bit_and arg2 0x100000 <<< 11) in
    if not (slt arg2 (2 ^ 32 - 1048576)) && not (slt 1048575 arg2) then op₅ else 0

unfoldable pub read_s_format : ℕ → ℕ → ℕ → ℕ → ℕ
read_s_format opcode arg1 arg2 arg3 =
    let op₁ = bit_or opcode (arg1 <<< 20) in
    let op₂ = bit_or op₁ (arg2 <<< 15) in
    let op₃ = bit_or op₂ (bit_and arg3 0x1F <<< 7) in bit_or op₃ (bit_and arg3 0xFE0 <<< 20)

unfoldable pub read_u_format : ℕ → ℕ → ℕ → ℕ
read_u_format opcode arg1 arg2 = let op₁ = bit_or opcode (arg1 <<< 7) in bit_or op₁ (arg2 <<< 12)

unfoldable pub read_i_format : ℕ → ℕ → ℕ → ℕ → ℕ
read_i_format opcode arg1 arg2 arg3 =
    let op₁ = bit_or opcode (arg1 <<< 7) in
    let op₂ = bit_or op₁ (arg2 <<< 15) in bit_or op₂ (arg3 <<< 20)

unfoldable pub read_r_format : ℕ → ℕ → ℕ → ℕ → ℕ
read_r_format opcode arg1 arg2 arg3 =
    let op₁ = bit_or opcode (arg1 <<< 7) in
    let op₂ = bit_or op₁ (arg2 <<< 15) in bit_or op₂ (arg3 <<< 20)

-- The start of `get_opcode`: opcode, funct3 and funct7 of the instruction's row.
unfoldable pub opcode_word : ℕ → ℕ → ℕ → ℕ
opcode_word opcode funct3 funct7 =
    let op₁ = bit_or opcode (funct3 <<< 12) in bit_or op₁ (funct7 <<< 25)
