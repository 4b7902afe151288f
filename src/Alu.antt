-- ===== src/Alu.antt =====
-- src/execution/alu.c: the four units of the execute stage and the immediate generator.
-- `exit` stands for `log_fatal` and `exit(1)`; a `switch` is a chain of tests in its order.
pub mod Units
pub mod Immediate
use risc_v_microarchitecture.Base.{
  ℕ, ◌+◌, ◌*◌, ◌-◌, ◌/◌, ◌%◌, ◌^◌, ◌==◌, ltb, leb, not, ◌||◌, Bool, if◌then◌else◌, add32, sub32,
  ◌<<<◌, ◌>>>◌, sar, slt, bit_and, bit_or, bit_xor, Run, ok, exit,
}

-- The `char format` of a decoded instruction; `bubble` is the character 0.
pub data Format : Type 0 where
  bubble r_type i_type s_type b_type u_type j_type : Format

unfoldable pub arithmetic_unit : ℕ → ℕ → ℕ → Run ℕ
arithmetic_unit operand1 operand2 opcode =
    if opcode == 0
    then ok (add32 operand1 operand2)
    else if opcode == 1
    then ok (sub32 operand1 operand2)
    else exit

unfoldable pub logical_unit : ℕ → ℕ → ℕ → ℕ → Run ℕ
logical_unit operand1 operand2 opcode sign =
    if opcode == 0
    then ok (bit_and operand1 operand2)
    else if opcode == 1
    then ok (bit_or operand1 operand2)
    else if opcode == 2
    then ok (bit_xor operand1 operand2)
    else if opcode == 3
    then ok (operand1 <<< bit_and operand2 0x1F)
    else if opcode == 4
    then (if sign == 0
        then ok (operand1 >>> bit_and operand2 0x1F)
        else ok (sar operand1 (bit_and operand2 0x1F)))
    else if opcode == 5
    then ok (operand2 <<< 12)
    else if opcode == 6
    then ok (add32 (operand2 <<< 12) operand1)
    else exit

-- The 0 or 1 that a C function returns for a test.
abbrev pub flag : Bool → ℕ
flag b = if b then 1 else 0

unfoldable pub less_than_comparator : ℕ → ℕ → ℕ → Run ℕ
less_than_comparator operand1 operand2 sign =
    if sign == 0
    then ok (flag (ltb operand1 operand2))
    else if sign == 1
    then ok (flag (slt operand1 operand2))
    else exit

unfoldable pub branch_comparator : ℕ → ℕ → ℕ → ℕ → Run ℕ
branch_comparator operand1 operand2 branch_opcode sign =
    if branch_opcode == 0
    then ok (flag (operand1 == operand2))
    else if branch_opcode == 1
    then ok (flag (not (operand1 == operand2)))
    else if branch_opcode == 2
    then (if sign == 0
        then ok (flag (ltb operand1 operand2))
        else ok (flag (slt operand1 operand2)))
    else if branch_opcode == 3
    then (if sign == 0
        then ok (flag (leb operand2 operand1))
        else ok (flag (not (slt operand1 operand2))))
    else exit

-- The cases of `generate_immediate`, one for each format.
unfoldable pub immediate_i : ℕ → ℕ
immediate_i ir = sar (bit_and ir 0xFFF00000) 20

unfoldable pub immediate_s : ℕ → ℕ
immediate_s ir =
    let imm = bit_and ir 0xFE000000 in
    let imm' = bit_or imm (bit_and ir 0x00000F80 <<< 13) in sar imm' 20

unfoldable pub immediate_b : ℕ → ℕ
immediate_b ir =
    let imm₁ = bit_and ir 0x00000F00 >>> 8 in
    let imm₂ = bit_or imm₁ (bit_and ir 0x7E000000 >>> 21) in
    let imm₃ = bit_or imm₂ (bit_and ir 0x80 <<< 3) in
    let imm₄ = bit_or imm₃ (sar (bit_and ir 0x80000000) 20) in imm₄ <<< 1

unfoldable pub immediate_u : ℕ → ℕ
immediate_u ir = sar (bit_and ir 0xFFFFF000) 12

unfoldable pub immediate_j : ℕ → ℕ
immediate_j ir =
    let imm₁ = bit_and ir 0x7FE00000 >>> 21 in
    let imm₂ = bit_or imm₁ (bit_and ir 0x00100000 >>> 10) in
    let imm₃ = bit_or imm₂ (bit_and ir 0x000FF000 >>> 1) in
    let imm₄ = bit_or imm₃ (sar (bit_and ir 0x80000000) 12) in imm₄ <<< 1

-- The `default` case, an unknown format, has no `Format`.
unfoldable pub generate_immediate : Format → ℕ → ℕ
generate_immediate bubble ir = 0
generate_immediate r_type ir = 0
generate_immediate i_type ir = immediate_i ir
generate_immediate s_type ir = immediate_s ir
generate_immediate b_type ir = immediate_b ir
generate_immediate u_type ir = immediate_u ir
generate_immediate j_type ir = immediate_j ir
