-- ===== src/Assembler/Program/Layout.antt =====
-- Where the instructions and labels of a source file are, read off its lines, and the first pass of
-- src/assembler/core/main.c against it.
use risc_v_microarchitecture.Base.{
  get_elem?, ℕ, zero, suc, ◌+◌, ◌*◌, ◌%◌, ◌≤◌, ◌≡◌, refl, subst, ◌∙◌, arith, Bool, true, false,
  if◌then◌else◌, List, [], ◌∷◌, Option, none, some, Run, ok, exit, ◌>>=◌, >>=-eq-ok,
}
use risc_v_microarchitecture.Assembler.Text.{CString, same, length}
use risc_v_microarchitecture.Assembler.Table.{is_written}
use risc_v_microarchitecture.Assembler.Operands.{check_semantics}
use risc_v_microarchitecture.Assembler.Parser.{Line, error, operation, label, comment}
use risc_v_microarchitecture.Assembler.Symbols.{SymbolTable, get_symbol, get_address, add_symbol}
use risc_v_microarchitecture.Assembler.Program.{Pass, read_line, first_pass_line, first_pass}

unfoldable pub read_lines : List CString → Run (List Line)
read_lines [] = ok []
read_lines (line ∷ lines) = read_line line >>= λ l. read_lines lines >>= λ ls. ok (l ∷ ls)

-- The address of the instruction that follows the label, `k` instructions being in front.
unfoldable pub place : CString → ℕ → List Line → Option ℕ
place name k [] = none
place name k (label n ∷ ls) =
    let rest = place name k ls in if same n name then some (k * 4) else rest
place name k (operation tokens ∷ ls) = place name (suc k) ls
place name k (error ∷ ls) = place name k ls
place name k (comment ∷ ls) = place name k ls

unfoldable pub operations : List Line → List (List CString)
operations [] = []
operations (operation tokens ∷ ls) = tokens ∷ operations ls
operations (label n ∷ ls) = operations ls
operations (error ∷ ls) = operations ls
operations (comment ∷ ls) = operations ls

unfoldable pub or_else : Option ℕ → Option ℕ → Option ℕ
or_else none b = b
or_else (some a) b = some a

same-eq : (s t : CString) → same s t ≡ true → s ≡ t
same-eq [] [] h = refl
same-eq [] (d ∷ t) h = absurd cc
same-eq (c ∷ s) [] h = absurd cc
same-eq (c ∷ s) (d ∷ t) h = ground (arith, same-eq s t)

get_address-add_symbol :
    (s name : CString) (a : ℕ) (head next : SymbolTable)
    → add_symbol s a head ≡ some next
    → (get_address name next ≡ (if same s name then some a else get_address name head))
      × (get_address s head ≡ none)
unfolding add_symbol get_address get_symbol
get_address-add_symbol s name a head next h = ground arith

or_else-none : (a : Option ℕ) → or_else a none ≡ a
unfolding or_else
or_else-none none = refl
or_else-none (some a) = refl

-- A symbol that is added stands for the label that is read.
or_else-label :
    (s name : CString) (a : ℕ) (head next : SymbolTable) (rest : Option ℕ)
    → add_symbol s a head ≡ some next
    → or_else (get_address name next) rest
      ≡ or_else (get_address name head) (if same s name then some a else rest)
unfolding or_else
or_else-label s name a head next rest h =
    let (found, fresh) = get_address-add_symbol s name a head next h in
    rw found (by_name fresh _ refl)
  where
    by_name :
        get_address s head ≡ none
        → (b : Bool) → same s name ≡ b
        → or_else (if b then some a else get_address name head) rest
          ≡ or_else (get_address name head) (if b then some a else rest)
    by_name fresh true t =
        let e : get_address name head ≡ none =
          subst (λ (z : CString). get_address z head ≡ none) (same-eq s name t) fresh in
        rw e refl
    by_name fresh false t = refl

first_pass_line-label :
    (n : CString) (p next : Pass)
    → first_pass_line (label n) p ≡ ok next
    → (add_symbol n (p.instruction_number * 4) p.head ≡ some next.head)
      × (next.instruction_number ≡ p.instruction_number)
unfolding first_pass_line
first_pass_line-label n p next h = by_result _ h
  where
    by_result :
        (head : Option SymbolTable)
        → elim head [ none ↦ exit | some t ↦ ok (record p { head = t }) ] ≡ ok next
        → (head ≡ some next.head) × (next.instruction_number ≡ p.instruction_number)
    by_result none e = absurd cc
    by_result (some t) e = ground arith

first_pass_line-place :
    (name : CString) (l : Line) (ls : List Line) (p next : Pass)
    → first_pass_line l p ≡ ok next
    → or_else (get_address name next.head) (place name next.instruction_number ls)
      ≡ or_else (get_address name p.head) (place name p.instruction_number (l ∷ ls))
unfolding first_pass_line place
first_pass_line-place name error ls p next h = absurd cc
first_pass_line-place name comment ls p next h = cc
first_pass_line-place name (label n) ls p next h =
    let (added, same_number) = first_pass_line-label n p next h in
    rw (same_number) (or_else-label n name (p.instruction_number * 4) p.head next.head _ added)
first_pass_line-place name (operation tokens) ls p next h = ground arith

pub first_pass-place :
    (name : CString) (lines : List CString) (p q : Pass)
    → first_pass lines p ≡ ok q
    → (ls : List Line) × (read_lines lines ≡ ok ls)
      × (get_address name q.head
          ≡ or_else (get_address name p.head) (place name p.instruction_number ls))
unfolding first_pass read_lines place or_else
first_pass-place name [] p q h = ([], refl, cc (or_else-none (get_address name p.head)))
first_pass-place name (line ∷ lines) p q h =
    let (l, h₁, e₁) = >>=-eq-ok (read_line line) _ h in
    let (next, h₂, e₂) = >>=-eq-ok (first_pass_line l p) _ h₁ in
    let (ls, e₃, e₄) = first_pass-place name lines next q h₂ in
    (l ∷ ls, rw (e₁, e₃) refl, e₄ ∙ first_pass_line-place name l ls p next e₂)

pub read_lines-cons :
    (line : CString) (lines : List CString) (ls : List Line)
    → read_lines (line ∷ lines) ≡ ok ls
    → (l : Line) × (rest : List Line) × (ls ≡ l ∷ rest)
      × (read_line line ≡ ok l)
      × (read_lines lines ≡ ok rest)
unfolding read_lines
read_lines-cons line lines ls r =
    let (l, r₁, e₁) = >>=-eq-ok (read_line line) _ r in
    let (rest, r₂, e₂) = >>=-eq-ok (read_lines lines) _ r₁ in (l, rest, cc, e₁, e₂)

pub operation-checked :
    (tokens : List CString) (p q : Pass)
    → first_pass_line (operation tokens) p ≡ ok q
    → check_semantics tokens ≡ true
unfolding first_pass_line
operation-checked tokens p q h = ground arith

pub operation-is_written :
    (tokens : List CString) (p q : Pass)
    → first_pass_line (operation tokens) p ≡ ok q
    → is_written tokens ≡ true
unfolding first_pass_line
operation-is_written tokens p q h = ground arith

-- The first pass has checked each operation.
pub checked :
    (lines : List CString) (p q : Pass) (ls : List Line) (k : ℕ) (tokens : List CString)
    → first_pass lines p ≡ ok q
    → read_lines lines ≡ ok ls
    → get_elem? (operations ls) k ≡ some tokens
    → check_semantics tokens ≡ true
unfolding first_pass read_lines operations
checked [] p q [] k tokens h r e = absurd cc
checked [] p q (l ∷ ls) k tokens h r e = absurd cc
checked (line ∷ lines) p q ls k tokens h r e =
    let (l, rest, ls_eq, l_eq, rest_eq) = read_lines-cons line lines ls r in
    let (l', h₁, e₁) = >>=-eq-ok (read_line line) _ h in
    let (next, h₂, e₂) = >>=-eq-ok (first_pass_line l' p) _ h₁ in
    let same_line : l' ≡ l = cc in
    by_line next rest l k (subst (λ z. first_pass_line z p ≡ ok next) same_line e₂)
      (subst (λ z. get_elem? (operations z) k ≡ some tokens) ls_eq e)
      (λ j. checked lines next q rest j tokens h₂ rest_eq)
  where
    by_line :
        (next : Pass) (rest : List Line) (l : Line) (k : ℕ)
        → first_pass_line l p ≡ ok next
        → get_elem? (operations (l ∷ rest)) k ≡ some tokens
        → ((j : ℕ) → get_elem? (operations rest) j ≡ some tokens → check_semantics tokens ≡ true)
        → check_semantics tokens ≡ true
    by_line next rest error k f g ih = ih k g
    by_line next rest comment k f g ih = ih k g
    by_line next rest (label n) k f g ih = ih k g
    by_line next rest (operation ts) zero f g ih =
        let same_tokens : ts ≡ tokens = ground arith in
        subst (λ z. check_semantics z ≡ true) same_tokens (operation-checked ts p next f)
    by_line next rest (operation ts) (suc j) f g ih = ih j g

pub place-bound :
    (name : CString) (k t : ℕ) (ls : List Line)
    → place name k ls ≡ some t
    → (t % 4 ≡ 0) × (t ≤ 4 * (k + length (operations ls)))
unfolding place operations
place-bound name k t [] h = absurd cc
place-bound name k t (label n ∷ ls) h = ground (arith, place-bound name k t ls)
place-bound name k t (operation ts ∷ ls) h = ground (arith, place-bound name (suc k) t ls)
place-bound name k t (error ∷ ls) h = place-bound name k t ls h
place-bound name k t (comment ∷ ls) h = place-bound name k t ls h
