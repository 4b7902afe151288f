-- ===== src/Assembler/Program/Tests.antt =====
-- A program with both kinds of labels, assembled.
use risc_v_microarchitecture.Base.{
  ◌==◌, get_elem?, ℕ, ◌*◌, ◌^◌, ◌<◌, ◌≡◌, ◌≢◌, refl, arith, true, List, [], ◌∷◌, some, ok, inl,
  sub32, ltb, leb, if◌then◌else◌, add32,
}
use risc_v_microarchitecture.Alu.{immediate_b, immediate_j}
use risc_v_microarchitecture.Alu.Immediate.{bits}
use risc_v_microarchitecture.Assembler.Text.{
  CString, bytes, is_space, is_digit, is_upper, is_lower, is_alnum, to_lower, digit_value,
  digits_from, drop_prefix, signed_value, to_int, length,
}
use risc_v_microarchitecture.Assembler.Table.{
  op_r, op_l, no_operand, format_b, format_j, IBlock, i_table, find_i_block, get_i_block, token,
  is_written, check_syntax,
}
use risc_v_microarchitecture.Assembler.Operands.{
  int_min, read_dec, is_hex_digit, read_hex, read_number, read_r, read_i, read_s, read_u, read_l,
  copy_until, indexed_parts, indexed_from, read_a, check_operand, check_operands, check_semantics,
}
use risc_v_microarchitecture.Assembler.Operands.Ranges.{
  Encodable, letter, check_semantics-Encodable,
}
use risc_v_microarchitecture.Assembler.Operands.Notation.{decimal, read-decimal}
use risc_v_microarchitecture.Assembler.Parser.{
  store_token, is_label_char, ends_label, parse_label, is_operand_char, behind_operand,
  parse_operands, is_joined, parse_operation, remove_comments, starts_comment, is_full_line_comment,
  Line, operation, label, comment, is_valid_char, is_mixed, line_tokens, get_tokens,
}
use risc_v_microarchitecture.Assembler.Parser.Tokens.{line_text, operand_text, is_word, are_words}
use risc_v_microarchitecture.Assembler.Parser.Lines.{get_tokens-line_text}
use risc_v_microarchitecture.Assembler.Parser.Buffers.{is_defined, has_short_words}
use risc_v_microarchitecture.Assembler.{
  opcode_word, read_r_format, read_i_format, read_u_format, read_j_format, read_b_format,
  read_s_format,
}
use risc_v_microarchitecture.Assembler.Symbols.{SymbolTable, get_symbol, get_address, add_symbol}
use risc_v_microarchitecture.Assembler.Opcode.{
  read_operand, read_source, read_base, encode, get_opcode,
}
use risc_v_microarchitecture.Assembler.Program.{
  read_line, first_pass_line, first_pass, second_pass, assemble,
}
use risc_v_microarchitecture.Assembler.Program.Layout.{read_lines, place, operations}
use risc_v_microarchitecture.Assembler.Program.Words.{assemble-place}
use risc_v_microarchitecture.Assembler.Program.Branches.{assembled-branch, assembled-jump}
use risc_v_microarchitecture.Assembler.Program.Safety.{has_short_lines, assemble-defined}

abbrev program : List CString
program =
    bytes "start:\n"
    ∷ bytes "  ADDI r1, r0, 5 // set\n"
    ∷ bytes "beq r1, r2, start\n"
    ∷ bytes "// the end\n"
    ∷ bytes "jal r3, end_of\n"
    ∷ bytes "lw r2, -4(r1)\n"
    ∷ bytes "end_of:\n"
    ∷ []

abbrev program_words : List ℕ
program_words = 0x00500093 ∷ 0xFE208EE3 ∷ 0x008001EF ∷ 0xFFC0A103 ∷ []

abbrev program_lines : List Line
program_lines =
    label (bytes "start")
    ∷ operation (bytes "addi" ∷ bytes "r1" ∷ bytes "r0" ∷ bytes "5" ∷ [])
    ∷ operation (bytes "beq" ∷ bytes "r1" ∷ bytes "r2" ∷ bytes "start" ∷ [])
    ∷ comment
    ∷ operation (bytes "jal" ∷ bytes "r3" ∷ bytes "end_of" ∷ [])
    ∷ operation (bytes "lw" ∷ bytes "r2" ∷ bytes "-4(r1)" ∷ [])
    ∷ label (bytes "end_of")
    ∷ []

program_read : read_lines program ≡ ok program_lines
unfolding read_lines read_line get_tokens line_tokens is_full_line_comment starts_comment is_space
    is_digit is_upper is_lower is_alnum to_lower store_token is_label_char ends_label parse_label
    is_operand_char behind_operand parse_operands is_joined parse_operation remove_comments
    is_valid_char is_mixed
program_read = refl

program_assembled : assemble program ≡ ok program_words
unfolding assemble first_pass first_pass_line second_pass get_opcode encode read_operand read_source
    read_base get_symbol get_address add_symbol opcode_word read_r_format read_i_format
    read_u_format read_j_format read_b_format read_s_format check_semantics check_operands
    check_operand read_a indexed_from indexed_parts copy_until read_l read_u read_s read_i read_r
    read_number read_hex is_hex_digit read_dec is_written check_syntax get_i_block find_i_block
    i_table to_int signed_value drop_prefix digits_from digit_value read_line get_tokens line_tokens
    is_full_line_comment starts_comment is_space is_digit is_upper is_lower is_alnum to_lower
    store_token is_label_char ends_label parse_label is_operand_char behind_operand parse_operands
    is_joined parse_operation remove_comments is_valid_char is_mixed
program_assembled = refl

abbrev beq_row : IBlock
beq_row = record {
  operation = bytes "beq";
  number_of_operands = 3;
  op1 = op_r;
  op2 = op_r;
  op3 = op_l;
  format = format_b;
  opcode = 0x63;
  funct3 = 0;
  funct7 = 0;
}

abbrev jal_row : IBlock
jal_row = record {
  operation = bytes "jal";
  number_of_operands = 2;
  op1 = op_r;
  op2 = op_l;
  op3 = no_operand;
  format = format_j;
  opcode = 0x6F;
  funct3 = 0;
  funct7 = 0;
}

abbrev beq_tokens : List CString
beq_tokens = bytes "beq" ∷ bytes "r1" ∷ bytes "r2" ∷ bytes "start" ∷ []

abbrev jal_tokens : List CString
jal_tokens = bytes "jal" ∷ bytes "r3" ∷ bytes "end_of" ∷ []

beq_found : get_i_block (bytes "beq") ≡ some beq_row
unfolding get_i_block find_i_block i_table
beq_found = refl

jal_found : get_i_block (bytes "jal") ≡ some jal_row
unfolding get_i_block find_i_block i_table
jal_found = refl

beq_at_1 : get_elem? (operations program_lines) 1 ≡ some beq_tokens
unfolding operations
beq_at_1 = refl

jal_at_2 : get_elem? (operations program_lines) 2 ≡ some jal_tokens
unfolding operations
jal_at_2 = refl

program_size : 4 * length (operations program_lines) < 2 ^ 31
unfolding operations
program_size = omega arith

assemble-place_example :
    (head : SymbolTable) × ((name : CString) → get_address name head ≡ place name 0 program_lines)
    × (w : ℕ) × (get_elem? program_words 1 ≡ some w)
    × (get_opcode head beq_tokens (1 * 4) ≡ ok w)
    × (w ≢ 0)
assemble-place_example =
    assemble-place program program_words program_lines 1 beq_tokens program_assembled program_read
      beq_at_1

assembled-branch_example :
    (w : ℕ) × (target : ℕ) × (get_elem? program_words 1 ≡ some w)
    × (place (bytes "start") 0 program_lines ≡ some target)
    × (add32 (1 * 4) (immediate_b w) ≡ target)
    × (bits 15 5 w ≡ read_r (bytes "r1"))
    × (bits 20 5 w ≡ read_r (bytes "r2"))
assembled-branch_example =
    assembled-branch program program_words program_lines 1 beq_tokens beq_row program_assembled
      program_read beq_at_1 beq_found program_size refl

assembled-jump_example :
    (w : ℕ) × (target : ℕ) × (get_elem? program_words 2 ≡ some w)
    × (place (bytes "end_of") 0 program_lines ≡ some target)
    × (add32 (2 * 4) (immediate_j w) ≡ target)
    × (bits 7 5 w ≡ read_r (bytes "r3"))
assembled-jump_example =
    assembled-jump program program_words program_lines 2 jal_tokens jal_row program_assembled
      program_read jal_at_2 jal_found program_size refl

beq_checked : check_semantics beq_tokens ≡ true
unfolding check_semantics check_operands check_operand read_l read_r read_number read_dec
    get_i_block find_i_block i_table to_int signed_value drop_prefix digits_from digit_value
    is_space is_digit is_upper is_lower is_alnum
beq_checked = refl

check_semantics-Encodable_example : Encodable (letter beq_row 2) (token beq_tokens 2)
check_semantics-Encodable_example =
    check_semantics-Encodable beq_row beq_tokens 2 beq_found beq_checked (omega arith) (omega arith)

read-decimal_example :
    (read_r (b'r' ∷ decimal 17) ≡ (if ltb 17 32 then 17 else int_min))
    × (read_r (b'r' ∷ b'-' ∷ decimal 17) ≡ (if 17 == 0 then 0 else int_min))
    × (read_s (decimal 17) ≡ (if ltb 17 32 then 17 else int_min))
    × (read_s (b'-' ∷ decimal 17) ≡ (if 17 == 0 then 0 else int_min))
    × (read_i (decimal 17) ≡ (if ltb 17 2048 then 17 else int_min))
    × (read_i (b'-' ∷ decimal 17) ≡ (if leb 17 2048 then sub32 0 17 else int_min))
    × (read_u (decimal 17) ≡ (if ltb 17 (2 ^ 20) then 17 else int_min))
    × (read_u (b'-' ∷ decimal 17) ≡ (if 17 == 0 then 0 else int_min))
read-decimal_example = read-decimal 17 (omega arith)

get_tokens-line_text_example :
    get_tokens 4 32 (line_text (bytes "lw") (bytes "r2" ∷ bytes "-4(r1)" ∷ []) (bytes "\n"))
    ≡ ok (operation (bytes "lw" ∷ bytes "r2" ∷ bytes "-4(r1)" ∷ []))
unfolding is_word are_words is_operand_char is_space is_digit is_upper is_lower is_alnum line_text
    operand_text
get_tokens-line_text_example =
    get_tokens-line_text (bytes "lw") (bytes "r2" ∷ bytes "-4(r1)" ∷ []) (bytes "\n") refl refl
      (omega arith) refl (inl refl)

assemble-defined_example : is_defined (assemble program) ≡ true
unfolding has_short_lines has_short_words is_operand_char is_digit is_upper is_lower is_alnum
assemble-defined_example = assemble-defined program refl
