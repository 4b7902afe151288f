-- ===== src/Assembler/Program/Rows.antt =====
-- The rows of include/assembler.h for the two formats with labels, and the words of such rows.
use risc_v_microarchitecture.Base.{
  ℕ, ◌+◌, ◌*◌, ◌^◌, ◌<◌, ◌≡◌, refl, arith, Bool, true, false, ◌&&◌, ltb, ◌==◌, List, [], ◌∷◌, some,
  ok,
}
use risc_v_microarchitecture.Bits.{or_at, or-zero}
use risc_v_microarchitecture.Assembler.{opcode_word, read_b_format, read_j_format}
use risc_v_microarchitecture.Assembler.Text.{CString}
use risc_v_microarchitecture.Assembler.Table.{
  Operand, op_r, op_i, op_s, op_u, op_l, op_a, no_operand, format_j, format_b, IBlock, find_i_block,
  get_i_block, i_table, token,
}
use risc_v_microarchitecture.Assembler.Operands.{read_r}
use risc_v_microarchitecture.Assembler.Symbols.{SymbolTable, get_address}
use risc_v_microarchitecture.Assembler.Opcode.{read_operand, encode, get_opcode}

-- The columns of the table's rows of the two formats with labels.
abbrev is_r : Operand → Bool
is_r op_r = true
is_r _ = false

is_row : IBlock → Bool
is_row block = elim block.format [
  | format_b ↦
      block.opcode == 0x63
      && (ltb block.funct3 8
          && (block.funct7 == 0
              && (block.number_of_operands == 3 && (is_r block.op1 && is_r block.op2))))
  | format_j ↦
      block.opcode == 0x6F
      && (block.funct3 == 0
          && (block.funct7 == 0 && (block.number_of_operands == 2 && is_r block.op1)))
  | _ ↦ true
]

every : List IBlock → Bool
every [] = true
every (b ∷ bs) = is_row b && every bs

find_i_block-is_row :
    (s : CString) (bs : List IBlock) (b : IBlock)
    → every bs ≡ true
    → find_i_block s bs ≡ some b
    → is_row b ≡ true
unfolding every find_i_block
find_i_block-is_row s [] b h f = absurd cc
find_i_block-is_row s (c ∷ bs) b h f = ground (arith, find_i_block-is_row s bs b)

get_i_block-is_row : (s : CString) (b : IBlock) → get_i_block s ≡ some b → is_row b ≡ true
unfolding get_i_block every is_row i_table
get_i_block-is_row s b h = find_i_block-is_row s i_table b refl h

opcode_word-plain : (op f : ℕ) → op < 128 → f < 8 → opcode_word op f 0 ≡ op + f * 2 ^ 12
unfolding opcode_word
opcode_word-plain op f ho hf =
    ground (
      arith,
      or_at 12 3 op f (omega arith) (omega arith) hf (omega arith),
      or-zero (op + f * 2 ^ 12),
    )

abbrev pub IsBranchRow : IBlock → Type 0
IsBranchRow block =
    (block.opcode ≡ 0x63)
    × (block.funct3 < 8)
    × (block.funct7 ≡ 0)
    × (block.number_of_operands ≡ 3)
    × (block.op1 ≡ op_r)
    × (block.op2 ≡ op_r)

is_r_lem : (o : Operand) → is_r o ≡ true → o ≡ op_r
is_r_lem op_r h = refl
is_r_lem op_i h = absurd cc
is_r_lem op_s h = absurd cc
is_r_lem op_u h = absurd cc
is_r_lem op_l h = absurd cc
is_r_lem op_a h = absurd cc
is_r_lem no_operand h = absurd cc

pub branch_row :
    (tokens : List CString) (block : IBlock)
    → get_i_block (token tokens 0) ≡ some block
    → block.format ≡ format_b
    → IsBranchRow block
unfolding is_row
branch_row tokens block found e =
    let row = get_i_block-is_row (token tokens 0) block found in
    ground (arith, is_r_lem block.op1, is_r_lem block.op2)

-- The word of an operation that is in the table.
get_opcode-encode :
    (head : SymbolTable) (tokens : List CString) (a w : ℕ) (block : IBlock)
    → get_i_block (token tokens 0) ≡ some block
    → get_opcode head tokens a ≡ ok w
    → encode head block tokens a block.format (opcode_word block.opcode block.funct3 block.funct7)
      ≡ w
unfolding get_opcode
get_opcode-encode head tokens a w block found e = ground arith

abbrev pub IsJumpRow : IBlock → Type 0
IsJumpRow block =
    (block.opcode ≡ 0x6F)
    × (block.funct3 ≡ 0)
    × (block.funct7 ≡ 0)
    × (block.number_of_operands ≡ 2)
    × (block.op1 ≡ op_r)

pub jump_row :
    (tokens : List CString) (block : IBlock)
    → get_i_block (token tokens 0) ≡ some block
    → block.format ≡ format_j
    → IsJumpRow block
unfolding is_row
jump_row tokens block found e =
    let row = get_i_block-is_row (token tokens 0) block found in ground (arith, is_r_lem block.op1)

pub branch_word :
    (head : SymbolTable) (tokens : List CString) (a w : ℕ) (block : IBlock)
    → get_i_block (token tokens 0) ≡ some block
    → get_opcode head tokens a ≡ ok w
    → block.format ≡ format_b
    → IsBranchRow block
    → read_b_format
        (0x63 + block.funct3 * 2 ^ 12)
        (read_r (token tokens 1))
        (read_r (token tokens 2))
        (get_address (token tokens 3) head)
        a
      ≡ w
unfolding encode read_operand
branch_word head tokens a w block found e is_branch (b₁, b₂, b₃, b₄, b₅, b₆) =
    let word = get_opcode-encode head tokens a w block found e in
    rw (← word, is_branch, b₅, b₆, b₁, b₃, opcode_word-plain 0x63 block.funct3 (omega arith) b₂)
      refl

pub jump_word :
    (head : SymbolTable) (tokens : List CString) (a w : ℕ) (block : IBlock)
    → get_i_block (token tokens 0) ≡ some block
    → get_opcode head tokens a ≡ ok w
    → block.format ≡ format_j
    → IsJumpRow block
    → read_j_format 0x6F (read_r (token tokens 1)) (get_address (token tokens 2) head) a ≡ w
unfolding encode read_operand opcode_word
jump_word head tokens a w block found e is_jump (b₁, b₂, b₃, b₄, b₅) =
    let word = get_opcode-encode head tokens a w block found e in
    rw (← word, is_jump, b₅, b₁, b₂, b₃) refl
