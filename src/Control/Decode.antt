-- ===== src/Control/Decode.antt =====
-- The instruction table and `decode`, a function for each format as in the source.
use risc_v_microarchitecture.Base.{
  ℕ, ◌==◌, if◌then◌else◌, ◌>>>◌, bit_and, List, [], ◌∷◌, Run, ok, exit, ◌>>=◌,
}
use risc_v_microarchitecture.Alu.{Format, bubble, r_type, i_type, s_type, b_type, u_type, j_type}
use risc_v_microarchitecture.Branch.{predict}
use risc_v_microarchitecture.Control.Signals.{CuOutput, ex_control, ma_control, cu_output}

-- A row of the table. The simulator reads the format and the opcode; the name and the operand
-- letters serve the assembler.
pub record IBlock : Type 0 where
  pub format : Format
  pub opcode : ℕ
  pub funct3 : ℕ
  pub funct7 : ℕ

abbrev row : Format → ℕ → ℕ → ℕ → IBlock
row f o a b = record { format = f; opcode = o; funct3 = a; funct7 = b }

abbrev pub i_table : List IBlock
i_table =
    row r_type 0b0110011 0 0
    ∷ row r_type 0b0110011 0 32
    ∷ row r_type 0b0110011 1 0
    ∷ row r_type 0b0110011 2 0
    ∷ row r_type 0b0110011 3 0
    ∷ row r_type 0b0110011 4 0
    ∷ row r_type 0b0110011 5 0
    ∷ row r_type 0b0110011 5 32
    ∷ row r_type 0b0110011 6 0
    ∷ row r_type 0b0110011 7 0
    ∷ row i_type 0b0010011 0 0
    ∷ row i_type 0b0010011 2 0
    ∷ row i_type 0b0010011 3 0
    ∷ row i_type 0b0010011 4 0
    ∷ row i_type 0b0010011 6 0
    ∷ row i_type 0b0010011 7 0
    ∷ row i_type 0b0010011 1 0
    ∷ row i_type 0b0010011 5 0
    ∷ row i_type 0b0010011 5 32
    ∷ row u_type 0b0110111 0 0
    ∷ row u_type 0b0010111 0 0
    ∷ row j_type 0b1101111 0 0
    ∷ row i_type 0b1100111 0 0
    ∷ row b_type 0b1100011 0 0
    ∷ row b_type 0b1100011 1 0
    ∷ row b_type 0b1100011 4 0
    ∷ row b_type 0b1100011 5 0
    ∷ row b_type 0b1100011 6 0
    ∷ row b_type 0b1100011 7 0
    ∷ row i_type 0b0000011 0 0
    ∷ row i_type 0b0000011 1 0
    ∷ row i_type 0b0000011 2 0
    ∷ row i_type 0b0000011 4 0
    ∷ row i_type 0b0000011 5 0
    ∷ row s_type 0b0100011 0 0
    ∷ row s_type 0b0100011 1 0
    ∷ row s_type 0b0100011 2 0
    ∷ row i_type 0b1110011 0 0
    ∷ row i_type 0b1110011 0 1
    ∷ row i_type 0b0001111 0 0
    ∷ row i_type 0b0010011 0 0
    ∷ []

search_format : ℕ → List IBlock → Format
search_format opcode [] = bubble
search_format opcode (block ∷ blocks) =
    if block.opcode == opcode then block.format else search_format opcode blocks

-- `bubble` is the 0 that says that no row fits.
unfoldable pub get_format : ℕ → Format
unfolding search_format
get_format opcode = search_format opcode i_table

abbrev pub funct3 : ℕ → ℕ
funct3 ir = bit_and ir 0x00007000 >>> 12

abbrev pub funct7 : ℕ → ℕ
funct7 ir = bit_and ir 0xFE000000 >>> 25

-- A register-register or immediate operation: it writes back, and touches no memory.
abbrev alu_output : Format → (a b c d e f g h : ℕ) → Run CuOutput
alu_output format a b c d e f g h =
    ok (cu_output format (ex_control a b c d e f g h) (ma_control 0 0 0 0) 1)

unfoldable pub read_r_format : ℕ → Run CuOutput
read_r_format ir =
    if funct3 ir == 0b000
    then (if funct7 ir == 0b0000000
        then alu_output r_type 1 0 1 0 0 0 0 0
        else if funct7 ir == 0b0100000
        then alu_output r_type 1 0 1 0 1 0 0 0
        else exit)
    else if funct3 ir == 0b001
    then alu_output r_type 1 0 0 0b01 0 0b011 0 0
    else if funct3 ir == 0b010
    then alu_output r_type 1 0 1 0b10 0 0 0 0
    else if funct3 ir == 0b011
    then alu_output r_type 1 0 0 0b10 0 0 0 0
    else if funct3 ir == 0b100
    then alu_output r_type 1 0 0 0b01 0 0b010 0 0
    else if funct3 ir == 0b101
    then (if funct7 ir == 0b0000000
        then alu_output r_type 1 0 0 0b01 0 0b100 0 0
        else if funct7 ir == 0b0100000
        then alu_output r_type 1 0 1 0b01 0 0b100 0 0
        else exit)
    else if funct3 ir == 0b110
    then alu_output r_type 1 0 0 0b01 0 0b001 0 0
    else if funct3 ir == 0b111
    then alu_output r_type 1 0 0 0b01 0 0b000 0 0
    else exit

-- `read_i_format` for the opcode of the immediate operations. The eight cases of funct3 are all
-- there, so the source does not fall through to the next opcode.
read_i_arithmetic : ℕ → Run CuOutput
read_i_arithmetic ir =
    if funct3 ir == 0b000
    then alu_output i_type 1 1 1 0 0 0 0 0
    else if funct3 ir == 0b010
    then alu_output i_type 1 1 1 0b10 0 0 0 0
    else if funct3 ir == 0b011
    then alu_output i_type 1 1 0 0b10 0 0 0 0
    else if funct3 ir == 0b100
    then alu_output i_type 1 1 0 0b01 0 0b010 0 0
    else if funct3 ir == 0b110
    then alu_output i_type 1 1 0 0b01 0 0b001 0 0
    else if funct3 ir == 0b111
    then alu_output i_type 1 1 0 0b01 0 0b000 0 0
    else if funct3 ir == 0b001
    then (if funct7 ir == 0b0000000 then alu_output i_type 1 1 0 0b01 0 0b011 0 0 else exit)
    else (if funct7 ir == 0b0000000
        then alu_output i_type 1 1 0 0b01 0 0b100 0 0
        else if funct7 ir == 0b0100000
        then alu_output i_type 1 1 1 0b01 0 0b100 0 0
        else exit)

-- A load: the address is rs1 plus the immediate, and the memory stage reads.
abbrev load_output : ℕ → Run CuOutput
load_output code = ok (cu_output i_type (ex_control 1 1 0 0 0 0 0 0) (ma_control 1 code 0 0) 1)

read_i_load : ℕ → Run CuOutput
read_i_load ir =
    if funct3 ir == 0b000
    then load_output 0b0000
    else if funct3 ir == 0b001
    then load_output 0b0001
    else if funct3 ir == 0b010
    then load_output 0b0010
    else if funct3 ir == 0b100
    then load_output 0b0011
    else if funct3 ir == 0b101
    then load_output 0b0100
    else exit

-- What the source gives for a system call or a fence: a bubble with the system code.
abbrev pub system_output : ℕ → Run CuOutput
system_output code = ok (cu_output bubble (ex_control 0 0 0 0 0 0 0 code) (ma_control 0 0 0 0) 0)

unfoldable pub read_i_format : ℕ → Run CuOutput
unfolding read_i_arithmetic read_i_load
read_i_format ir =
    let opcode = bit_and ir 0x0000007F in
    if opcode == 0b0010011
    then read_i_arithmetic ir
    else if opcode == 0b1100111
    then ok (cu_output i_type (ex_control 1 1 1 0b11 0 0 0b100 0) (ma_control 0 0 1 1) 1)
    else if opcode == 0b0000011
    then read_i_load ir
    else if opcode == 0b1110011
    then (if funct7 ir == 0
        then system_output 0b10
        else if funct7 ir == 1
        then system_output 1
        else exit)
    else if opcode == 0b0001111
    then system_output 0
    else exit

abbrev store_output : ℕ → Run CuOutput
store_output code = ok (cu_output s_type (ex_control 1 1 0 0 0 0 0 0) (ma_control 1 code 0 0) 0)

unfoldable pub read_s_format : ℕ → Run CuOutput
read_s_format ir =
    if funct3 ir == 0b000
    then store_output 0b1000
    else if funct3 ir == 0b001
    then store_output 0b1001
    else if funct3 ir == 0b010
    then store_output 0b1010
    else exit

abbrev branch_output : ℕ → ℕ → ℕ → ℕ → Run CuOutput
branch_output strategy ir sign code = predict strategy ir >>= λ taken.
    ok (cu_output b_type (ex_control 1 0 sign 0b11 0 0 code 0) (ma_control 0 0 taken 2) 0)

unfoldable pub read_b_format : ℕ → ℕ → Run CuOutput
read_b_format strategy ir =
    if funct3 ir == 0b000
    then branch_output strategy ir 0 0b000
    else if funct3 ir == 0b001
    then branch_output strategy ir 0 0b001
    else if funct3 ir == 0b100
    then branch_output strategy ir 1 0b010
    else if funct3 ir == 0b101
    then branch_output strategy ir 1 0b011
    else if funct3 ir == 0b110
    then branch_output strategy ir 0 0b010
    else if funct3 ir == 0b111
    then branch_output strategy ir 0 0b011
    else exit

unfoldable pub read_u_format : ℕ → Run CuOutput
read_u_format ir =
    let opcode = bit_and ir 0x0000007F in
    if opcode == 0b0110111
    then alu_output u_type 0 1 0 0b01 0 0b101 0 0
    else if opcode == 0b0010111
    then alu_output u_type 0 1 0 0b01 0 0b110 0 0
    else exit

unfoldable pub read_j_format : ℕ → Run CuOutput
read_j_format ir =
    let opcode = bit_and ir 0x0000007F in
    if opcode == 0b1101111
    then ok (cu_output j_type (ex_control 0 1 1 0b11 0 0 0b100 0) (ma_control 0 0 1 1) 1)
    else exit

-- The dispatch of `decode` on the format.
unfoldable pub dispatch : ℕ → ℕ → Format → Run CuOutput
dispatch strategy ir bubble = exit
dispatch strategy ir r_type = read_r_format ir
dispatch strategy ir i_type = read_i_format ir
dispatch strategy ir s_type = read_s_format ir
dispatch strategy ir b_type = read_b_format strategy ir
dispatch strategy ir u_type = read_u_format ir
dispatch strategy ir j_type = read_j_format ir

-- The first argument is the branch prediction strategy, a global of the source.
unfoldable pub decode : ℕ → ℕ → Run CuOutput
unfolding dispatch
decode strategy ir =
    let opcode = bit_and ir 0x7F in
    if opcode == 0 then system_output 0 else dispatch strategy ir (get_format opcode)
