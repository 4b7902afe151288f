-- ===== src/Assembler/Operands/Ranges.antt =====
-- The ranges that the operand checks of src/assembler/core/semantics_analyzer.c leave.
use risc_v_microarchitecture.Base.{
  ℕ, zero, suc, ◌-◌, ◌^◌, ◌≤◌, ◌<◌, ◌≡◌, ◌≢◌, ◌⊎◌, refl, arith, true, List, [], ◌∷◌, Option, none,
  some,
}
use risc_v_microarchitecture.Assembler.Text.{CString, to_int, signed_value, skip, is_space}
use risc_v_microarchitecture.Assembler.Table.{
  Operand, op_r, op_i, op_s, op_u, op_l, op_a, no_operand, IBlock, token, get_i_block,
}
use risc_v_microarchitecture.Assembler.Operands.{
  int_min, read_number, read_r, read_i, read_s, read_u, read_l, read_a, read_hex, read_dec,
  check_operand, check_operands, check_semantics, Indexed, copy_until, indexed_parts, indexed_from,
}

-- A 32-bit pattern of a 12-bit signed number.
abbrev pub IsSmall : ℕ → Type 0
IsSmall n = n < 2048 ⊎ (2 ^ 32 - 2048 ≤ n × n < 2 ^ 32)

signed_value-lt : (base : ℕ) (s : CString) → signed_value base s < 2 ^ 32
unfolding signed_value
signed_value-lt base [] = omega arith
signed_value-lt base (c ∷ s) = ground arith

read_number-lt : (s : CString) → read_number s < 2 ^ 32
unfolding read_number read_hex read_dec to_int
read_number-lt s =
    ground (arith, signed_value-lt 10 (skip is_space s), signed_value-lt 16 (skip is_space s))

pub read_r-range : (s : CString) → read_r s ≢ int_min → read_r s < 32
unfolding read_r
read_r-range [] h = absurd (ground arith)
read_r-range (c ∷ s) h = ground (arith, read_number-lt s)

pub read_i-range : (s : CString) → read_i s ≢ int_min → IsSmall (read_i s)
unfolding read_i
read_i-range s h = ground (arith, read_number-lt s)

pub read_s-range : (s : CString) → read_s s ≢ int_min → read_s s < 32
unfolding read_s
read_s-range s h = ground (arith, read_number-lt s)

pub read_u-range : (s : CString) → read_u s ≢ int_min → read_u s < 2 ^ 20
unfolding read_u
read_u-range s h = ground (arith, read_number-lt s)

-- An indexed operand that is read leaves nothing of the `imm` that was there.
IsIndexed : Indexed → Indexed → Type 0
IsIndexed a b = (a ≡ b) × (b.reg < 32) × IsSmall b.imm

indexed_parts-range :
    (offset : CString) (o : Option (CString × CString)) (i j : ℕ)
    → (indexed_parts offset o i).reg ≢ int_min
    → IsIndexed (indexed_parts offset o i) (indexed_parts offset o j)
unfolding indexed_parts IsIndexed
indexed_parts-range offset none i j h = absurd (h refl)
indexed_parts-range offset (some (reg, end)) i j h =
    ground (arith, read_i-range offset, read_r-range reg)

read_a-range :
    (s : CString) (i j : ℕ) → (read_a s i).reg ≢ int_min → IsIndexed (read_a s i) (read_a s j)
unfolding read_a indexed_from
read_a-range s i j h = by_offset (copy_until b'(' 32 s) h
  where
    by_offset :
        (o : Option (CString × CString))
        → (indexed_from o i).reg ≢ int_min
        → IsIndexed (indexed_from o i) (indexed_from o j)
    by_offset none k = absurd (k refl)
    by_offset (some (offset, behind)) k = indexed_parts-range offset _ i j k

-- What the encoders need of an operand that the semantics check accepts.
abbrev pub Encodable : Operand → CString → Type 0
Encodable op_r s = read_r s < 32
Encodable op_i s = IsSmall (read_i s)
Encodable op_s s = read_s s < 32
Encodable op_u s = read_u s < 2 ^ 20
Encodable op_l s = read_l s ≡ true
Encodable op_a s = ((read_a s 0).reg < 32) × IsSmall (read_a s 0).imm
Encodable no_operand s = s ≡ s

check_operand-Encodable :
    (kind : Operand) (s : CString) → check_operand kind s ≡ true → Encodable kind s
unfolding check_operand IsIndexed
check_operand-Encodable op_r s h = read_r-range s (ground arith)
check_operand-Encodable op_i s h = read_i-range s (ground arith)
check_operand-Encodable op_s s h = read_s-range s (ground arith)
check_operand-Encodable op_u s h = read_u-range s (ground arith)
check_operand-Encodable op_l s h = h
check_operand-Encodable op_a s h =
    let (same_read, reg, imm) = read_a-range s int_min 0 (ground arith) in (reg, imm)
check_operand-Encodable no_operand s h = refl

-- The letter of the `k`-th operand.
abbrev pub letter : IBlock → ℕ → Operand
letter block zero = no_operand
letter block (suc zero) = block.op1
letter block (suc (suc zero)) = block.op2
letter block (suc (suc (suc k))) = block.op3

-- Each operand, up to the number that the operation has, of an instruction that the semantics check
-- accepts is read to a number that the encoders take: a register below 32, an immediate in the range
-- of its letter, or both.
pub check_semantics-Encodable :
    (block : IBlock) (tokens : List CString) (k : ℕ)
    → get_i_block (token tokens 0) ≡ some block
    → check_semantics tokens ≡ true
    → k < 4
    → k ≤ block.number_of_operands
    → Encodable (letter block k) (token tokens k)
unfolding check_semantics check_operands
check_semantics-Encodable block tokens zero found h hk hn = refl
check_semantics-Encodable block tokens (suc zero) found h hk hn =
    check_operand-Encodable block.op1 (token tokens 1) (ground arith)
check_semantics-Encodable block tokens (suc (suc zero)) found h hk hn =
    check_operand-Encodable block.op2 (token tokens 2) (ground arith)
check_semantics-Encodable block tokens (suc (suc (suc zero))) found h hk hn =
    check_operand-Encodable block.op3 (token tokens 3) (ground arith)
check_semantics-Encodable block tokens (suc (suc (suc (suc k)))) found h hk hn =
    absurd (omega arith)
