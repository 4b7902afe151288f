-- ===== src/Assembler/Opcode.antt =====
-- src/assembler/core/opcode_generator.c, on the tokens of a line: the operand readers in front of
-- the encoders of `Assembler`. Where `read_a` leaves `arg3` as it was, which is not initialised, it
-- is 0; operands that the semantics check accepts do not come there.
use risc_v_microarchitecture.Base.{ℕ, ltb, if◌then◌else◌, List, none, some, Run, ok, fault}
use risc_v_microarchitecture.Assembler.{
  opcode_word, read_r_format, read_i_format, read_u_format, read_j_format, read_b_format,
  read_s_format,
}
use risc_v_microarchitecture.Assembler.Text.{CString, length}
use risc_v_microarchitecture.Assembler.Table.{
  Operand, op_r, op_i, op_s, op_u, op_l, op_a, no_operand, Format, format_r, format_i, format_u,
  format_j, format_b, format_s, IBlock, get_i_block, token,
}
use risc_v_microarchitecture.Assembler.Operands.{Indexed, read_r, read_i, read_s, read_u, read_a}
use risc_v_microarchitecture.Assembler.Symbols.{SymbolTable, get_address}

unfoldable pub read_operand : Operand → CString → ℕ
read_operand op_r s = read_r s
read_operand op_i s = read_i s
read_operand op_s s = read_s s
read_operand op_u s = read_u s
read_operand op_l s = 0
read_operand op_a s = 0
read_operand no_operand s = 0

-- The second and third operand of the I format.
unfoldable pub read_source : IBlock → List CString → Indexed
read_source block array = elim block.op2 [
  | op_a ↦ read_a (token array 2) 0
  | _ ↦ record {
    reg = read_operand block.op2 (token array 2);
    imm = read_operand block.op3 (token array 3);
  }
]

-- The base and the offset of the S format.
unfoldable pub read_base : IBlock → List CString → Indexed
read_base block array = elim block.op2 [
  | op_a ↦ read_a (token array 2) 0
  | _ ↦ record { reg = 0; imm = 0 }
]

unfoldable pub encode : SymbolTable → IBlock → List CString → ℕ → Format → ℕ → ℕ
encode head block array current_instruction_address format_r opcode =
    read_r_format opcode (read_operand block.op1 (token array 1))
      (read_operand block.op2 (token array 2)) (read_operand block.op3 (token array 3))
encode head block array current_instruction_address format_i opcode =
    let source = read_source block array in
    read_i_format opcode (read_operand block.op1 (token array 1)) source.reg source.imm
encode head block array current_instruction_address format_u opcode =
    read_u_format opcode (read_operand block.op1 (token array 1))
      (read_operand block.op2 (token array 2))
encode head block array current_instruction_address format_j opcode =
    read_j_format opcode (read_operand block.op1 (token array 1)) (get_address (token array 2) head)
      current_instruction_address
encode head block array current_instruction_address format_b opcode =
    read_b_format opcode (read_operand block.op1 (token array 1))
      (read_operand block.op2 (token array 2)) (get_address (token array 3) head)
      current_instruction_address
encode head block array current_instruction_address format_s opcode =
    let base = read_base block array in
    read_s_format opcode (read_operand block.op1 (token array 1)) base.reg base.imm

-- An unknown operation is read through a null pointer. A token that the line has not written, which
-- would be one of an earlier line, is a `fault` too.
unfoldable pub get_opcode : SymbolTable → List CString → ℕ → Run ℕ
get_opcode head array current_instruction_address = elim (get_i_block (token array 0)) [
  | none ↦ fault
  | some block ↦
      if ltb block.number_of_operands (length array)
      then ok (
          encode head block array current_instruction_address block.format
            (opcode_word block.opcode block.funct3 block.funct7))
      else fault
]
