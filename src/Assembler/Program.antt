-- ===== src/Assembler/Program.antt =====
-- The two passes of src/assembler/core/main.c over the lines that `fgets` gives, with the words of
-- the object file as the result. The addresses are numbers without a bound: a file has fewer than
-- 2 ^ 29 lines.
pub mod Layout
pub mod Words
mod Rows
pub mod Branches
pub mod Safety
mod Tests
use risc_v_microarchitecture.Base.{
  ℕ, suc, ◌+◌, ◌*◌, Bool, true, false, not, ◌==◌, if◌then◌else◌, List, [], ◌∷◌, Option, none, some,
  Run, ok, exit, fault, ◌>>=◌,
}
use risc_v_microarchitecture.Assembler.Text.{CString, is_space, all, length}
use risc_v_microarchitecture.Assembler.Table.{is_written, check_syntax}
use risc_v_microarchitecture.Assembler.Operands.{check_semantics}
use risc_v_microarchitecture.Assembler.Parser.{Line, error, operation, label, comment, get_tokens}
use risc_v_microarchitecture.Assembler.Symbols.{SymbolTable, add_symbol}
use risc_v_microarchitecture.Assembler.Opcode.{get_opcode}

abbrev pub max_token_char : ℕ
max_token_char = 32

abbrev pub max_tokens_in_a_line : ℕ
max_tokens_in_a_line = 4

-- A line of white space alone is passed over, as a comment is.
unfoldable pub read_line : CString → Run Line
read_line line =
    if all is_space line then ok comment else get_tokens max_tokens_in_a_line max_token_char line

-- The state of the first pass.
pub record Pass : Type 0 where
  pub head : SymbolTable
  pub instruction_number : ℕ

-- One turn of the first loop; `exit` is the return of -1. The semantics check reads the tokens that
-- the row names: where the line has not written one of them, it would check one of an earlier line,
-- which is a `fault`.
unfoldable pub first_pass_line : Line → Pass → Run Pass
first_pass_line error p = exit
first_pass_line comment p = ok p
first_pass_line (label name) p = elim (add_symbol name (p.instruction_number * 4) p.head) [
  | none ↦ exit
  | some head ↦ ok (record p { head = head })
]
first_pass_line (operation tokens) p =
    if not (check_syntax tokens (length tokens))
    then exit
    else if not (is_written tokens)
    then fault
    else if not (check_semantics tokens)
    then exit
    else ok (record p { instruction_number = suc p.instruction_number })

unfoldable pub first_pass : List CString → Pass → Run Pass
first_pass [] p = ok p
first_pass (line ∷ lines) p =
    read_line line >>= λ l. first_pass_line l p >>= λ next. first_pass lines next

-- The second loop. A line that cannot be parsed, which the first pass refuses, would be generated
-- from the tokens of the line before it: `fault`.
unfoldable pub second_pass : SymbolTable → List CString → ℕ → Run (List ℕ)
second_pass head [] address = ok []
second_pass head (line ∷ lines) address = read_line line >>= λ l. elim l [
  | error ↦ fault
  | comment ↦ second_pass head lines address
  | label name ↦ second_pass head lines address
  | operation tokens ↦ get_opcode head tokens address >>= λ opcode.
      if opcode == 0
      then exit
      else (second_pass head lines (address + 4) >>= λ words. ok (opcode ∷ words))
]

unfoldable pub assemble : List CString → Run (List ℕ)
assemble lines = first_pass lines (record { head = []; instruction_number = 0 }) >>= λ p.
    second_pass p.head lines 0
