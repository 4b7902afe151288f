-- ===== src/Assembler/Table.antt =====
-- The instruction table of include/assembler.h, its search and the syntax check of
-- src/assembler/core/syntax_analyzer.c.
use Prim.Native.String.{String}
use risc_v_microarchitecture.Base.{
  ℕ, zero, suc, ◌-◌, Bool, true, false, ltb, ◌==◌, if◌then◌else◌, List, [], ◌∷◌, Option, none, some,
}
use risc_v_microarchitecture.Assembler.Text.{CString, bytes, same, length}

-- The letters of the operands, and 0.
pub data Operand : Type 0 where
  op_r : Operand
  op_i : Operand
  op_s : Operand
  op_u : Operand
  op_l : Operand
  op_a : Operand
  no_operand : Operand

pub data Format : Type 0 where
  format_r : Format
  format_i : Format
  format_u : Format
  format_j : Format
  format_b : Format
  format_s : Format

pub record IBlock : Type 0 where
  pub operation : CString
  pub number_of_operands : ℕ
  pub op1 : Operand
  pub op2 : Operand
  pub op3 : Operand
  pub format : Format
  pub opcode : ℕ
  pub funct3 : ℕ
  pub funct7 : ℕ

abbrev row : String → ℕ → Operand → Operand → Operand → Format → ℕ → ℕ → ℕ → IBlock
row name n a b c f opcode funct3 funct7 = record {
  operation = bytes name;
  number_of_operands = n;
  op1 = a;
  op2 = b;
  op3 = c;
  format = f;
  opcode = opcode;
  funct3 = funct3;
  funct7 = funct7;
}

unfoldable pub i_table : List IBlock
i_table =
    row "add" 3 op_r op_r op_r format_r 0x33 0 0x00
    ∷ row "sub" 3 op_r op_r op_r format_r 0x33 0 0x20
    ∷ row "sll" 3 op_r op_r op_r format_r 0x33 1 0x00
    ∷ row "slt" 3 op_r op_r op_r format_r 0x33 2 0x00
    ∷ row "sltu" 3 op_r op_r op_r format_r 0x33 3 0x00
    ∷ row "xor" 3 op_r op_r op_r format_r 0x33 4 0x00
    ∷ row "srl" 3 op_r op_r op_r format_r 0x33 5 0x00
    ∷ row "sra" 3 op_r op_r op_r format_r 0x33 5 0x20
    ∷ row "or" 3 op_r op_r op_r format_r 0x33 6 0x00
    ∷ row "and" 3 op_r op_r op_r format_r 0x33 7 0x00
    ∷ row "addi" 3 op_r op_r op_i format_i 0x13 0 0x00
    ∷ row "slti" 3 op_r op_r op_i format_i 0x13 2 0x00
    ∷ row "sltiu" 3 op_r op_r op_i format_i 0x13 3 0x00
    ∷ row "xori" 3 op_r op_r op_i format_i 0x13 4 0x00
    ∷ row "ori" 3 op_r op_r op_i format_i 0x13 6 0x00
    ∷ row "andi" 3 op_r op_r op_i format_i 0x13 7 0x00
    ∷ row "slli" 3 op_r op_r op_s format_i 0x13 1 0x00
    ∷ row "srli" 3 op_r op_r op_s format_i 0x13 5 0x00
    ∷ row "srai" 3 op_r op_r op_s format_i 0x13 5 0x20
    ∷ row "lui" 2 op_r op_u no_operand format_u 0x37 0 0x00
    ∷ row "auipc" 2 op_r op_u no_operand format_u 0x17 0 0x00
    ∷ row "jal" 2 op_r op_l no_operand format_j 0x6F 0 0x00
    ∷ row "jalr" 2 op_r op_a no_operand format_i 0x67 0 0x00
    ∷ row "beq" 3 op_r op_r op_l format_b 0x63 0 0x00
    ∷ row "bne" 3 op_r op_r op_l format_b 0x63 1 0x00
    ∷ row "blt" 3 op_r op_r op_l format_b 0x63 4 0x00
    ∷ row "bge" 3 op_r op_r op_l format_b 0x63 5 0x00
    ∷ row "bltu" 3 op_r op_r op_l format_b 0x63 6 0x00
    ∷ row "bgeu" 3 op_r op_r op_l format_b 0x63 7 0x00
    ∷ row "lb" 2 op_r op_a no_operand format_i 0x03 0 0x00
    ∷ row "lh" 2 op_r op_a no_operand format_i 0x03 1 0x00
    ∷ row "lw" 2 op_r op_a no_operand format_i 0x03 2 0x00
    ∷ row "lbu" 2 op_r op_a no_operand format_i 0x03 4 0x00
    ∷ row "lhu" 2 op_r op_a no_operand format_i 0x03 5 0x00
    ∷ row "sb" 2 op_r op_a no_operand format_s 0x23 0 0x00
    ∷ row "sh" 2 op_r op_a no_operand format_s 0x23 1 0x00
    ∷ row "sw" 2 op_r op_a no_operand format_s 0x23 2 0x00
    ∷ row "ecall" 0 no_operand no_operand no_operand format_i 0x73 0 0x00
    ∷ row "ebreak" 0 no_operand no_operand no_operand format_i 0x73 0 0x01
    ∷ row "fence" 0 no_operand no_operand no_operand format_i 0x0F 0 0x00
    ∷ row "nop" 0 no_operand no_operand no_operand format_i 0x13 0 0x00
    ∷ []

unfoldable pub find_i_block : CString → List IBlock → Option IBlock
find_i_block s [] = none
find_i_block s (block ∷ blocks) =
    let rest = find_i_block s blocks in if same s block.operation then some block else rest

unfoldable pub get_i_block : CString → Option IBlock
get_i_block s = find_i_block s i_table

-- `array[k]` of the tokens that a line has written. The buffers are those of every line, so a token
-- behind them is what an earlier line left there: the code below asks `is_written` before it reads.
abbrev pub token : List CString → ℕ → CString
token [] k = []
token (t ∷ ts) zero = t
token (t ∷ ts) (suc k) = token ts k

-- Whether the line has written each token that the row of its operation names. A line that has
-- tokens has the first.
unfoldable pub is_written : List CString → Bool
is_written array = elim (get_i_block (token array 0)) [
  | none ↦ true
  | some block ↦ ltb block.number_of_operands (length array)
]

unfoldable pub check_syntax : List CString → ℕ → Bool
check_syntax array ntokens = if ntokens == 0 then true else (elim (get_i_block (token array 0)) [
  | none ↦ false
  | some block ↦ block.number_of_operands == ntokens - 1
])
