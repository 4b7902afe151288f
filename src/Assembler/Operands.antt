-- ===== src/Assembler/Operands.antt =====
-- src/assembler/core/semantics_analyzer.c: the operand readers and the semantics check. An int is
-- its 32-bit pattern. The copies that `read_a` makes are the parts of the token themselves.
pub mod Ranges
pub mod Notation
use risc_v_microarchitecture.Base.{
  ℕ, zero, suc, ◌-◌, ◌^◌, Bool, true, false, not, ◌&&◌, ◌||◌, ◌==◌, if◌then◌else◌, slt, List, [],
  ◌∷◌, Option, none, some,
}
use risc_v_microarchitecture.Assembler.Text.{CString, is_digit, is_alnum, is_empty, all, to_int}
use risc_v_microarchitecture.Assembler.Table.{
  Operand, op_r, op_i, op_s, op_u, op_l, op_a, no_operand, IBlock, get_i_block, token,
}

abbrev pub int_min : ℕ
int_min = 0x80000000

-- `low <= n && n <= high` on ints.
abbrev pub is_between : ℕ → ℕ → ℕ → Bool
is_between low high n = not (slt n low) && not (slt high n)

-- `if(*t == '-') t++`
abbrev pub after_minus : CString → CString
after_minus [] = []
after_minus (c ∷ s) = if c == b'-' then s else c ∷ s

abbrev pub has_prefix : CString → Bool
has_prefix (c ∷ (x ∷ s)) = c == b'0' && x == b'x'
has_prefix s = false

abbrev pub after_prefix : CString → CString
after_prefix (c ∷ (x ∷ s)) = if c == b'0' && x == b'x' then s else c ∷ (x ∷ s)
after_prefix s = s

unfoldable pub read_dec : CString → ℕ
read_dec s =
    if is_empty s then int_min else if all is_digit (after_minus s) then to_int 10 s else int_min

unfoldable pub is_hex_digit : ℕ → Bool
is_hex_digit c =
    is_digit c
    || (c == b'a' || (c == b'b' || (c == b'c' || (c == b'd' || (c == b'e' || c == b'f')))))

unfoldable pub read_hex : CString → ℕ
read_hex s =
    if is_empty s
    then int_min
    else if all is_hex_digit (after_prefix (after_minus s))
    then to_int 16 s
    else int_min

-- The number in one of the two notations.
unfoldable pub read_number : CString → ℕ
read_number s = if has_prefix (after_minus s) then read_hex s else read_dec s

unfoldable pub read_r : CString → ℕ
read_r [] = int_min
read_r (c ∷ s) = if c == b'r' && is_between 0 31 (read_number s) then read_number s else int_min

unfoldable pub read_i : CString → ℕ
read_i s = if is_between (2 ^ 32 - 2048) 2047 (read_number s) then read_number s else int_min

unfoldable pub read_s : CString → ℕ
read_s s = if is_between 0 31 (read_number s) then read_number s else int_min

abbrev pub is_minus : CString → Bool
is_minus [] = false
is_minus (c ∷ s) = c == b'-'

unfoldable pub read_u : CString → ℕ
read_u s =
    if has_prefix (after_minus s) && is_minus s
    then int_min
    else if is_between 0 1048575 (read_number s)
    then read_number s
    else int_min

-- Whether the token may be a label.
unfoldable pub read_l : CString → Bool
read_l [] = true
read_l (c ∷ s) = not (is_digit c) && all (λ d. is_alnum d || d == b'_') (c ∷ s)

-- One copying loop of `read_a`: the characters before `stop`, fewer than `room`, and those behind.
unfoldable pub copy_until : ℕ → ℕ → CString → Option (CString × CString)
copy_until stop zero s = none
copy_until stop (suc room) [] = none
copy_until stop (suc room) (c ∷ s) =
    let rest = copy_until stop room s in
    if c == stop
    then some ([], s)
    else (elim rest [ none ↦ none | some (copied, behind) ↦ some (c ∷ copied, behind) ])

-- The register that `read_a` returns and what it leaves in `*imm`.
pub record Indexed : Type 0 where
  pub reg : ℕ
  pub imm : ℕ

-- The end of `read_a`, from the copied offset and what was found behind it.
unfoldable pub indexed_parts : CString → Option (CString × CString) → ℕ → Indexed
indexed_parts offset none imm = record { reg = int_min; imm = imm }
indexed_parts offset (some (reg, end)) imm =
    if read_i offset == int_min
    then record { reg = int_min; imm = int_min }
    else record { reg = read_r reg; imm = read_i offset }

unfoldable pub indexed_from : Option (CString × CString) → ℕ → Indexed
indexed_from none imm = record { reg = int_min; imm = imm }
indexed_from (some (offset, behind)) imm = indexed_parts offset (copy_until b')' 8 behind) imm

unfoldable pub read_a : CString → ℕ → Indexed
read_a s imm = indexed_from (copy_until b'(' 32 s) imm

unfoldable pub check_operand : Operand → CString → Bool
check_operand op_r s = not (read_r s == int_min)
check_operand op_i s = not (read_i s == int_min)
check_operand op_s s = not (read_s s == int_min)
check_operand op_u s = not (read_u s == int_min)
check_operand op_l s = read_l s
check_operand op_a s = not ((read_a s int_min).reg == int_min)
check_operand no_operand s = false

-- The three guarded calls: an operand that the operation does not have is not looked at.
unfoldable pub check_operands : IBlock → List CString → Bool
check_operands block instruction =
    let n = block.number_of_operands in
    (n == 0 || check_operand block.op1 (token instruction 1))
    && ((n == 0 || (n == 1 || check_operand block.op2 (token instruction 2)))
        && (n == 0 || (n == 1 || (n == 2 || check_operand block.op3 (token instruction 3)))))

unfoldable pub check_semantics : List CString → Bool
check_semantics instruction = elim (get_i_block (token instruction 0)) [
  | none ↦ false
  | some block ↦ check_operands block instruction
]
