-- ===== src/Pipeline/Isa.antt =====
-- The register-register instructions from the assembler's word to the result of EX, against the
-- RV32I instruction set.
use risc_v_microarchitecture.Base.{
  ℕ, ◌+◌, ◌*◌, ◌/◌, ◌%◌, ◌^◌, ◌<◌, ◌≡◌, refl, arith, ltb, sub32, sar, signed, pos_part, neg_part,
  bit_and, bit_or, bit_xor, none, some, ok,
}
use risc_v_microarchitecture.Bits.{and_field, and_ones, or_at}
use risc_v_microarchitecture.Alu.{r_type, arithmetic_unit, logical_unit, less_than_comparator, flag}
use risc_v_microarchitecture.Assembler
use risc_v_microarchitecture.Assembler.Text.{CString, bytes}
use risc_v_microarchitecture.Assembler.Table.{find_i_block, get_i_block, i_table}
use risc_v_microarchitecture.Control.Signals.{CuOutput, cu_output, ex_control, ma_control}
use risc_v_microarchitecture.Control.Decode
use risc_v_microarchitecture.Pipeline.State.{IdEx}
use risc_v_microarchitecture.Pipeline.Execute.{execute, plain_result}

-- The ten register-register instructions.
pub data Op : Type 0 where
  add_op sub_op sll_op slt_op sltu_op xor_op srl_op sra_op or_op and_op : Op

abbrev op_funct3 : Op → ℕ
op_funct3 add_op = 0
op_funct3 sub_op = 0
op_funct3 sll_op = 1
op_funct3 slt_op = 2
op_funct3 sltu_op = 3
op_funct3 xor_op = 4
op_funct3 srl_op = 5
op_funct3 sra_op = 5
op_funct3 or_op = 6
op_funct3 and_op = 7

abbrev op_funct7 : Op → ℕ
op_funct7 sub_op = 32
op_funct7 sra_op = 32
op_funct7 _ = 0

-- The value that the instruction set gives to rd, from the values of rs1 and rs2: the shifts take
-- the low five bits of rs2, and `slt` compares the signed integers.
abbrev pub meaning : Op → ℕ → ℕ → ℕ
meaning add_op a b = (a + b) % 2 ^ 32
meaning sub_op a b = sub32 a b
meaning sll_op a b = a * 2 ^ (b % 32) % 2 ^ 32
meaning slt_op a b =
    flag
      (ltb (pos_part (signed a) + neg_part (signed b)) (pos_part (signed b) + neg_part (signed a)))
meaning sltu_op a b = flag (ltb a b)
meaning xor_op a b = bit_xor a b
meaning srl_op a b = a / 2 ^ (b % 32)
meaning sra_op a b = sar a (b % 32)
meaning or_op a b = bit_or a b
meaning and_op a b = bit_and a b

-- The name of the instruction in a source line.
abbrev op_name : Op → CString
op_name add_op = bytes "add"
op_name sub_op = bytes "sub"
op_name sll_op = bytes "sll"
op_name slt_op = bytes "slt"
op_name sltu_op = bytes "sltu"
op_name xor_op = bytes "xor"
op_name srl_op = bytes "srl"
op_name sra_op = bytes "sra"
op_name or_op = bytes "or"
op_name and_op = bytes "and"

-- The word that the assembler makes of the instruction, with the row of its table that has the name.
unfoldable pub assembled : Op → ℕ → ℕ → ℕ → ℕ
assembled op rd rs1 rs2 = elim (get_i_block (op_name op)) [
  | none ↦ 0
  | some row ↦
      Assembler.read_r_format (Assembler.opcode_word row.opcode row.funct3 row.funct7) rd rs1 rs2
]

-- What the table has for the instruction.
assembled-fields :
    (op : Op) (rd rs1 rs2 : ℕ)
    → assembled op rd rs1 rs2
      ≡ Assembler.read_r_format
          (Assembler.opcode_word 0b0110011 (op_funct3 op) (op_funct7 op))
          rd
          rs1
          rs2
unfolding assembled get_i_block find_i_block i_table
assembled-fields add_op rd rs1 rs2 = refl
assembled-fields sub_op rd rs1 rs2 = refl
assembled-fields sll_op rd rs1 rs2 = refl
assembled-fields slt_op rd rs1 rs2 = refl
assembled-fields sltu_op rd rs1 rs2 = refl
assembled-fields xor_op rd rs1 rs2 = refl
assembled-fields srl_op rd rs1 rs2 = refl
assembled-fields sra_op rd rs1 rs2 = refl
assembled-fields or_op rd rs1 rs2 = refl
assembled-fields and_op rd rs1 rs2 = refl

op_small : (op : Op) → (op_funct3 op < 2 ^ 3) × (op_funct7 op < 2 ^ 7)
op_small op = ground arith

assembled_lem :
    (op : Op) (rd rs1 rs2 : ℕ)
    → rd < 32
    → rs1 < 32
    → rs2 < 32
    → assembled op rd rs1 rs2
      ≡ 0b0110011
        + op_funct3 op * 2 ^ 12
        + op_funct7 op * 2 ^ 25
        + rd * 2 ^ 7
        + rs1 * 2 ^ 15
        + rs2 * 2 ^ 20
unfolding Assembler.read_r_format Assembler.opcode_word
assembled_lem op rd rs1 rs2 hd h1 h2 =
    let (s3, s7) = op_small op in
    let w₀ : ℕ = 0b0110011 in
    let w₁ = w₀ + op_funct3 op * 2 ^ 12 in
    let w₂ = w₁ + op_funct7 op * 2 ^ 25 in
    let w₃ = w₂ + rd * 2 ^ 7 in
    let w₄ = w₃ + rs1 * 2 ^ 15 in
    rw (assembled-fields op rd rs1 rs2) (
      ground (
        arith,
        or_at 12 3 w₀ (op_funct3 op) (omega arith) (omega arith) s3 (omega arith),
        or_at 25 7 w₁ (op_funct7 op) (omega arith) (omega arith) s7 (omega (arith, s3)),
        or_at 7 5 w₂ rd (omega arith) (omega arith) hd (omega (arith, s3, s7)),
        or_at 15 5 w₃ rs1 (omega arith) (omega arith) h1 (omega (arith, s3, s7)),
        or_at 20 5 w₄ rs2 (omega arith) (omega arith) h2 (omega (arith, s3, s7)),
      ))

fields :
    (op : Op) (rd rs1 rs2 : ℕ)
    → rd < 32
    → rs1 < 32
    → rs2 < 32
    → let ir = assembled op rd rs1 rs2 in
      (bit_and ir 0x7F ≡ 0b0110011)
      × (Decode.funct3 ir ≡ op_funct3 op)
      × (Decode.funct7 ir ≡ op_funct7 op)
fields op rd rs1 rs2 hd h1 h2 =
    let (s3, s7) = op_small op in
    let ir = assembled op rd rs1 rs2 in
    let e = assembled_lem op rd rs1 rs2 hd h1 h2 in
    let f₀ = and_field 0 7 ir (omega arith) (omega arith) in
    let f₃ = and_field 12 3 ir (omega arith) (omega arith) in
    let f₇ = and_field 25 7 ir (omega arith) (omega arith) in
    (omega (arith, e, f₀, s3, s7), omega (arith, e, f₃, s3, s7), omega (arith, e, f₇, s3, s7))

-- The control signals of the instructions: sign, type, arithmetic and logic opcode.
abbrev alu_signals : (sign type arithmetic logic : ℕ) → CuOutput
alu_signals sign type arithmetic logic =
    cu_output r_type (ex_control 1 0 sign type arithmetic logic 0 0) (ma_control 0 0 0 0) 1

abbrev signals : Op → CuOutput
signals add_op = alu_signals 1 0 0 0
signals sub_op = alu_signals 1 0 1 0
signals sll_op = alu_signals 0 1 0 3
signals slt_op = alu_signals 1 2 0 0
signals sltu_op = alu_signals 0 2 0 0
signals xor_op = alu_signals 0 1 0 2
signals srl_op = alu_signals 0 1 0 4
signals sra_op = alu_signals 1 1 0 4
signals or_op = alu_signals 0 1 0 1
signals and_op = alu_signals 0 1 0 0

decode-signals :
    (op : Op) (strategy ir : ℕ)
    → bit_and ir 0x7F ≡ 0b0110011
    → Decode.funct3 ir ≡ op_funct3 op
    → Decode.funct7 ir ≡ op_funct7 op
    → Decode.decode strategy ir ≡ ok (signals op)
unfolding Decode.decode Decode.get_format Decode.dispatch Decode.read_r_format
decode-signals add_op strategy ir f₀ f₃ f₇ = rw (f₀, f₃, f₇)
decode-signals sub_op strategy ir f₀ f₃ f₇ = rw (f₀, f₃, f₇)
decode-signals sll_op strategy ir f₀ f₃ f₇ = rw (f₀, f₃)
decode-signals slt_op strategy ir f₀ f₃ f₇ = rw (f₀, f₃)
decode-signals sltu_op strategy ir f₀ f₃ f₇ = rw (f₀, f₃)
decode-signals xor_op strategy ir f₀ f₃ f₇ = rw (f₀, f₃)
decode-signals srl_op strategy ir f₀ f₃ f₇ = rw (f₀, f₃, f₇)
decode-signals sra_op strategy ir f₀ f₃ f₇ = rw (f₀, f₃, f₇)
decode-signals or_op strategy ir f₀ f₃ f₇ = rw (f₀, f₃)
decode-signals and_op strategy ir f₀ f₃ f₇ = rw (f₀, f₃)

low_bits : (b : ℕ) → bit_and b 0x1F ≡ b % 32
low_bits b = and_ones 5 b (omega arith)

count : (b : ℕ) → b % 32 % 32 ≡ b % 32
count b = omega arith

writes : (op : Op) → (signals op).cs_wb.wb ≡ 1
writes op = ground arith

execute-signals :
    (op : Op) (id_ex : IdEx) (a b : ℕ)
    → a < 2 ^ 32
    → b < 2 ^ 32
    → execute (record id_ex { cs_ex = (signals op).cs_ex }) a b
      ≡ ok (plain_result id_ex (meaning op a b))
unfolding execute plain_result arithmetic_unit logical_unit less_than_comparator
execute-signals add_op id_ex a b ha hb = refl
execute-signals sub_op id_ex a b ha hb = refl
execute-signals sll_op id_ex a b ha hb = rw (low_bits b, count b)
execute-signals slt_op id_ex a b ha hb = ground arith
execute-signals sltu_op id_ex a b ha hb = refl
execute-signals xor_op id_ex a b ha hb = refl
execute-signals srl_op id_ex a b ha hb = rw (low_bits b, count b)
execute-signals sra_op id_ex a b ha hb = rw (low_bits b, count b)
execute-signals or_op id_ex a b ha hb = refl
execute-signals and_op id_ex a b ha hb = refl

-- A register-register instruction, assembled with register numbers below 32, decodes, writes back,
-- and makes EX give the value of the instruction set to any two 32-bit operands.
pub assembled-execute :
    (op : Op) (rd rs1 rs2 strategy : ℕ) (id_ex : IdEx) (a b : ℕ)
    → rd < 32
    → rs1 < 32
    → rs2 < 32
    → a < 2 ^ 32
    → b < 2 ^ 32
    → (out : CuOutput) × (Decode.decode strategy (assembled op rd rs1 rs2) ≡ ok out)
      × (out.cs_wb.wb ≡ 1)
      × (execute (record id_ex { cs_ex = out.cs_ex }) a b
          ≡ ok (plain_result id_ex (meaning op a b)))
assembled-execute op rd rs1 rs2 strategy id_ex a b hd h1 h2 ha hb =
    let (f₀, f₃, f₇) = fields op rd rs1 rs2 hd h1 h2 in
    (
      signals op,
      decode-signals op strategy (assembled op rd rs1 rs2) f₀ f₃ f₇,
      writes op,
      execute-signals op id_ex a b ha hb,
    )
