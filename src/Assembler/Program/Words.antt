-- ===== src/Assembler/Program/Words.antt =====
-- The second pass of src/assembler/core/main.c, and both passes together.
use risc_v_microarchitecture.Base.{
  get_elem?, ℕ, zero, suc, ◌+◌, ◌*◌, ◌≡◌, ◌≢◌, refl, sym, ◌∙◌, ap, arith, ◌==◌, if◌then◌else◌, List,
  [], ◌∷◌, some, Run, ok, exit, fault, ◌>>=◌, >>=-eq-ok,
}
use risc_v_microarchitecture.Assembler.Text.{CString}
use risc_v_microarchitecture.Assembler.Parser.{Line, error, operation, label, comment}
use risc_v_microarchitecture.Assembler.Symbols.{SymbolTable, get_symbol, get_address}
use risc_v_microarchitecture.Assembler.Opcode.{get_opcode}
use risc_v_microarchitecture.Assembler.Program.{Pass, first_pass, second_pass, assemble}
use risc_v_microarchitecture.Assembler.Program.Layout.{
  read_lines, read_lines-cons, place, operations, or_else, first_pass-place,
}

-- The second pass on lines that are read already.
unfoldable pub generate : SymbolTable → List Line → ℕ → Run (List ℕ)
generate head [] address = ok []
generate head (error ∷ ls) address = fault
generate head (comment ∷ ls) address = generate head ls address
generate head (label name ∷ ls) address = generate head ls address
generate head (operation tokens ∷ ls) address = get_opcode head tokens address >>= λ opcode.
    if opcode == 0 then exit else (generate head ls (address + 4) >>= λ words. ok (opcode ∷ words))

pub second_pass-generate :
    (head : SymbolTable) (lines : List CString) (ls : List Line) (a : ℕ)
    → read_lines lines ≡ ok ls
    → second_pass head lines a ≡ generate head ls a
unfolding second_pass read_lines generate
second_pass-generate head [] [] a r = refl
second_pass-generate head [] (l ∷ ls) a r = absurd cc
second_pass-generate head (line ∷ lines) ls a r =
    let (l, rest, e, e₁, e₂) = read_lines-cons line lines ls r in
    rw (e, e₁) (by_line l rest (λ b. second_pass-generate head lines rest b e₂))
  where
    by_line :
        (l : Line) (rest : List Line)
        → ((b : ℕ) → second_pass head lines b ≡ generate head rest b)
        → elim l [
          | error ↦ fault
          | comment ↦ second_pass head lines a
          | label name ↦ second_pass head lines a
          | operation tokens ↦ get_opcode head tokens a >>= λ opcode.
              if opcode == 0
              then exit
              else (second_pass head lines (a + 4) >>= λ words. ok (opcode ∷ words))
        ]
          ≡ generate head (l ∷ rest) a
    by_line error rest ih = refl
    by_line comment rest ih = ih a
    by_line (label name) rest ih = ih a
    by_line (operation tokens) rest ih = rw (ih (a + 4)) refl

generated :
    (w : ℕ) (m : Run (List ℕ)) (words : List ℕ)
    → (if w == 0 then exit else (m >>= λ ws. ok (w ∷ ws))) ≡ ok words
    → (rest : List ℕ) × (m ≡ ok rest) × (words ≡ w ∷ rest) × (w ≢ 0)
generated w fault words h = absurd (ground arith)
generated w exit words h = absurd (ground arith)
generated w (ok rest) words h = (rest, refl, ground arith, ground arith)

-- The word of the `k`-th operation stands at `k`, and is generated for the address of it.
generate-word :
    (head : SymbolTable) (ls : List Line) (a k : ℕ) (words : List ℕ) (tokens : List CString)
    → generate head ls a ≡ ok words
    → get_elem? (operations ls) k ≡ some tokens
    → (w : ℕ) × (get_elem? words k ≡ some w) × (get_opcode head tokens (a + k * 4) ≡ ok w) × (w ≢ 0)
unfolding generate operations
generate-word head [] a k words tokens g h = absurd cc
generate-word head (error ∷ ls) a k words tokens g h = absurd cc
generate-word head (comment ∷ ls) a k words tokens g h = generate-word head ls a k words tokens g h
generate-word head (label n ∷ ls) a k words tokens g h = generate-word head ls a k words tokens g h
generate-word head (operation ts ∷ ls) a zero words tokens g h =
    let (w, g₁, e₁) = >>=-eq-ok (get_opcode head ts a) _ g in
    let (rest, e₂, e₃, e₄) = generated w _ words g₁ in
    let same_tokens : ts ≡ tokens = ground arith in
    let first : a + 0 * 4 ≡ a = omega arith in (w, rw e₃ refl, rw (first, ← same_tokens) e₁, e₄)
generate-word head (operation ts ∷ ls) a (suc k) words tokens g h =
    let (w, g₁, e₁) = >>=-eq-ok (get_opcode head ts a) _ g in
    let (rest, e₂, e₃, e₄) = generated w _ words g₁ in
    let (v, i₁, i₂, i₃) = generate-word head ls (a + 4) k rest tokens e₂ h in
    let next : a + suc k * 4 ≡ a + 4 + k * 4 = omega arith in (v, rw e₃ i₁, rw next i₂, i₃)

label_place :
    (lines : List CString) (p : Pass) (ls : List Line) (name : CString)
    → first_pass lines (record { head = []; instruction_number = 0 }) ≡ ok p
    → read_lines lines ≡ ok ls
    → get_address name p.head ≡ place name 0 ls
unfolding get_address get_symbol or_else
label_place lines p ls name h r =
    let (ls', r', e) = first_pass-place name lines _ p h in
    let same_lines : ls' ≡ ls = cc in e ∙ ap (place name 0) same_lines

-- Where the assembler gives an object file and the `k`-th instruction of the source has these
-- tokens, the word at place `k` is not 0 and is generated from them for address 4 k, with a symbol
-- table in which each label has four times the number of instructions in front of it.
pub assemble-place :
    (lines : List CString) (words : List ℕ) (ls : List Line) (k : ℕ) (tokens : List CString)
    → assemble lines ≡ ok words
    → read_lines lines ≡ ok ls
    → get_elem? (operations ls) k ≡ some tokens
    → (head : SymbolTable) × ((name : CString) → get_address name head ≡ place name 0 ls)
      × (w : ℕ) × (get_elem? words k ≡ some w)
      × (get_opcode head tokens (k * 4) ≡ ok w)
      × (w ≢ 0)
unfolding assemble
assemble-place lines words ls k tokens h r at_k =
    let (p, h₂, h₁) =
      >>=-eq-ok (first_pass lines (record { head = []; instruction_number = 0 })) _ h in
    let g : generate p.head ls 0 ≡ ok words = sym (second_pass-generate p.head lines ls 0 r) ∙ h₂ in
    let (w, e₁, e₂, e₃) = generate-word p.head ls 0 k words tokens g at_k in
    let here : 0 + k * 4 ≡ k * 4 = omega arith in
    (p.head, λ name. label_place lines p ls name h₁ r, w, e₁, rw (← here) e₂, e₃)
