-- ===== src/Assembler/Program/Safety.antt =====
-- The passes of src/assembler/core/main.c keep to the buffers, the table and the checked lines.
use risc_v_microarchitecture.Base.{
  ℕ, ◌+◌, ◌*◌, ◌≡◌, refl, subst, sym, arith, Bool, true, false, ◌&&◌, ◌==◌, List, [], ◌∷◌, Option,
  none, some, Run, ok, exit, fault, ◌>>=◌, >>=-eq-ok,
}
use risc_v_microarchitecture.Assembler.Text.{CString, is_space, all, length}
use risc_v_microarchitecture.Assembler.Table.{
  get_i_block, find_i_block, i_table, is_written, check_syntax,
}
use risc_v_microarchitecture.Assembler.Operands.{check_semantics}
use risc_v_microarchitecture.Assembler.Parser.{Line, error, operation, label, comment}
use risc_v_microarchitecture.Assembler.Parser.Buffers.{
  is_defined, is_defined-ok, is_defined-if, has_short_words, get_tokens-defined,
}
use risc_v_microarchitecture.Assembler.Symbols.{SymbolTable, add_symbol}
use risc_v_microarchitecture.Assembler.Opcode.{get_opcode}
use risc_v_microarchitecture.Assembler.Program.{
  Pass, read_line, first_pass_line, first_pass, assemble,
}
use risc_v_microarchitecture.Assembler.Program.Layout.{
  read_lines, read_lines-cons, first_pass-place, operation-checked, operation-is_written,
}
use risc_v_microarchitecture.Assembler.Program.Words.{generate, second_pass-generate}

-- Whether each word of each line fits in a token buffer.
unfoldable pub has_short_lines : List CString → Bool
has_short_lines [] = true
has_short_lines (line ∷ lines) = has_short_words 32 0 line && has_short_lines lines

is_defined->>= {ℓ κ} :
    {A : Type ℓ} {B : Type κ} (m : Run A) (f : A → Run B)
    → is_defined m ≡ true
    → ((a : A) → m ≡ ok a → is_defined (f a) ≡ true)
    → is_defined (m >>= f) ≡ true
is_defined->>= (ok a) f h k = k a refl
is_defined->>= exit f h k = refl
is_defined->>= fault f h k = h

read_line-defined :
    (line : CString) → has_short_words 32 0 line ≡ true → is_defined (read_line line) ≡ true
unfolding read_line
read_line-defined line h =
    is_defined-if (all is_space line) _ _ refl (get_tokens-defined 32 4 line (omega arith) h)

get_i_block-empty : get_i_block [] ≡ none
unfolding get_i_block find_i_block i_table
get_i_block-empty = refl

-- A line with as many operands as its row asks for has written what the row names.
check_syntax-is_written :
    (tokens : List CString) → check_syntax tokens (length tokens) ≡ true → is_written tokens ≡ true
unfolding check_syntax is_written
check_syntax-is_written [] h = ground (arith, get_i_block-empty)
check_syntax-is_written (t ∷ ts) h = ground arith

first_pass_line-defined : (l : Line) (p : Pass) → is_defined (first_pass_line l p) ≡ true
unfolding first_pass_line
first_pass_line-defined error p = refl
first_pass_line-defined comment p = refl
first_pass_line-defined (label name) p =
    by_table (add_symbol name (p.instruction_number * 4) p.head)
  where
    by_table :
        (o : Option SymbolTable)
        → is_defined (elim o [ none ↦ exit | some head ↦ ok (record p { head = head }) ]) ≡ true
    by_table none = refl
    by_table (some head) = refl
first_pass_line-defined (operation tokens) p = ground (arith, check_syntax-is_written tokens)

first_pass-defined :
    (lines : List CString) (p : Pass)
    → has_short_lines lines ≡ true
    → is_defined (first_pass lines p) ≡ true
unfolding first_pass has_short_lines
first_pass-defined [] p h = refl
first_pass-defined (line ∷ lines) p h =
    is_defined->>= (read_line line) _ (read_line-defined line (ground arith)) (λ l e.
      is_defined->>= (first_pass_line l p) _ (first_pass_line-defined l p)
        (λ next k. first_pass-defined lines next (ground arith)))

-- Lines that the first pass lets through.
are_accepted : List Line → Bool
are_accepted [] = true
are_accepted (error ∷ ls) = false
are_accepted (comment ∷ ls) = are_accepted ls
are_accepted (label name ∷ ls) = are_accepted ls
are_accepted (operation tokens ∷ ls) =
    is_written tokens && (check_semantics tokens && are_accepted ls)

first_pass_line-accepted :
    (l : Line) (ls : List Line) (p q : Pass)
    → first_pass_line l p ≡ ok q
    → are_accepted ls ≡ true
    → are_accepted (l ∷ ls) ≡ true
unfolding first_pass_line are_accepted
first_pass_line-accepted error ls p q h k = absurd cc
first_pass_line-accepted comment ls p q h k = k
first_pass_line-accepted (label n) ls p q h k = k
first_pass_line-accepted (operation ts) ls p q h k =
    ground (arith, operation-checked ts p q h, operation-is_written ts p q h)

first_pass-accepted :
    (lines : List CString) (ls : List Line) (p q : Pass)
    → first_pass lines p ≡ ok q
    → read_lines lines ≡ ok ls
    → are_accepted ls ≡ true
unfolding first_pass read_lines are_accepted
first_pass-accepted [] [] p q h r = refl
first_pass-accepted [] (l ∷ ls) p q h r = absurd cc
first_pass-accepted (line ∷ lines) ls p q h r =
    let (l, rest, ls_eq, l_eq, rest_eq) = read_lines-cons line lines ls r in
    let (l', h₁, e₁) = >>=-eq-ok (read_line line) _ h in
    let (next, h₂, e₂) = >>=-eq-ok (first_pass_line l' p) _ h₁ in
    let same_line : l' ≡ l = cc in
    let accepted =
      first_pass_line-accepted l rest p next
        (subst (λ z. first_pass_line z p ≡ ok next) same_line e₂)
        (first_pass-accepted lines rest next q h₂ rest_eq) in
    rw ls_eq accepted

get_opcode-defined :
    (head : SymbolTable) (tokens : List CString) (a : ℕ)
    → is_written tokens ≡ true
    → check_semantics tokens ≡ true
    → is_defined (get_opcode head tokens a) ≡ true
unfolding get_opcode is_written check_semantics
get_opcode-defined head tokens a h k = ground arith

generate-defined :
    (head : SymbolTable) (ls : List Line) (a : ℕ)
    → are_accepted ls ≡ true
    → is_defined (generate head ls a) ≡ true
unfolding generate are_accepted
generate-defined head [] a h = refl
generate-defined head (error ∷ ls) a h = absurd cc
generate-defined head (comment ∷ ls) a h = generate-defined head ls a h
generate-defined head (label n ∷ ls) a h = generate-defined head ls a h
generate-defined head (operation ts ∷ ls) a h =
    is_defined->>= (get_opcode head ts a) _
      (get_opcode-defined head ts a (ground arith) (ground arith))
      (λ w e. is_defined-if (w == 0) _ _ refl (
        is_defined-ok (generate head ls (a + 4)) _
          (generate-defined head ls (a + 4) (ground arith))))

-- A source file whose words all have fewer than 32 characters is assembled to an end with no access
-- outside a token buffer, no unknown operation in the second pass, no read, in either pass, of an
-- operand that the line has not written, and no line generated that could not be parsed.
pub assemble-defined :
    (lines : List CString) → has_short_lines lines ≡ true → is_defined (assemble lines) ≡ true
unfolding assemble
assemble-defined lines h =
    is_defined->>= (first_pass lines (record { head = []; instruction_number = 0 })) _
      (first_pass-defined lines _ h)
      (λ p e.
        let (ls, r, placed) = first_pass-place [] lines _ p e in
        subst (λ m. is_defined m ≡ true) (sym (second_pass-generate p.head lines ls 0 r))
          (generate-defined p.head ls 0 (first_pass-accepted lines ls _ p e r)))
