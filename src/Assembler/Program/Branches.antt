-- ===== src/Assembler/Program/Branches.antt =====
-- The branches and jumps of an assembled program lead to their labels: the passes of
-- src/assembler/core/main.c, the encoders, and the immediates of the simulator.
use risc_v_microarchitecture.Base.{
  get_elem?, ℕ, zero, suc, ◌+◌, ◌*◌, ◌%◌, ◌^◌, ◌≤◌, ◌<◌, ◌≡◌, ◌≢◌, refl, subst, sym, ◌∙◌, arith,
  List, [], ◌∷◌, Option, none, some, ok, >>=-eq-ok, add32,
}
use risc_v_microarchitecture.Alu.{immediate_b, immediate_j}
use risc_v_microarchitecture.Alu.Immediate.{bits}
use risc_v_microarchitecture.Assembler.{read_b_format, read_j_format}
use risc_v_microarchitecture.Assembler.Encode.{read_b_format-immediate_b, read_j_format-immediate_j}
use risc_v_microarchitecture.Assembler.Text.{CString, length}
use risc_v_microarchitecture.Assembler.Table.{
  Operand, op_r, format_j, format_b, IBlock, get_i_block, token,
}
use risc_v_microarchitecture.Assembler.Operands.{read_r}
use risc_v_microarchitecture.Assembler.Operands.Ranges.{
  check_semantics-Encodable, Encodable, letter,
}
use risc_v_microarchitecture.Assembler.Parser.{Line}
use risc_v_microarchitecture.Assembler.Symbols.{SymbolTable, get_address}
use risc_v_microarchitecture.Assembler.Program.{first_pass, assemble}
use risc_v_microarchitecture.Assembler.Program.Layout.{
  read_lines, place, operations, checked, place-bound,
}
use risc_v_microarchitecture.Assembler.Program.Words.{assemble-place}
use risc_v_microarchitecture.Assembler.Program.Rows.{branch_row, branch_word, jump_row, jump_word}

read_b_format-range :
    (op a b l c : ℕ)
    → l < 2 ^ 31
    → c < 2 ^ 31
    → read_b_format op a b (some l) c ≢ 0
    → (l ≤ c + 4095) × (c ≤ l + 4096)
unfolding read_b_format
read_b_format-range op a b l c hl hc h = ground arith

read_j_format-range :
    (op a l c : ℕ)
    → l < 2 ^ 31
    → c < 2 ^ 31
    → read_j_format op a (some l) c ≢ 0
    → (l ≤ c + 1048575) × (c ≤ l + 1048576)
unfolding read_j_format
read_j_format-range op a l c hl hc h = ground arith

none_b : (op a b c : ℕ) → read_b_format op a b none c ≡ 0
unfolding read_b_format
none_b op a b c = refl

none_j : (op a c : ℕ) → read_j_format op a none c ≡ 0
unfolding read_j_format
none_j op a c = refl

branch-reaches :
    (funct3 a b current w : ℕ) (label : Option ℕ)
    → funct3 < 8
    → a < 32
    → b < 32
    → current < 2 ^ 31
    → current % 4 ≡ 0
    → ((t : ℕ) → label ≡ some t → (t % 4 ≡ 0) × (t < 2 ^ 31))
    → read_b_format (0x63 + funct3 * 2 ^ 12) a b label current ≡ w
    → w ≢ 0
    → (target : ℕ) × (label ≡ some target)
      × (add32 current (immediate_b w) ≡ target)
      × (bits 15 5 w ≡ a)
      × (bits 20 5 w ≡ b)
branch-reaches f a b c w none hf ha hb hc ec ht e nz =
    absurd (nz (sym e ∙ none_b (0x63 + f * 2 ^ 12) a b c))
branch-reaches f a b c w (some t) hf ha hb hc ec ht e nz =
    let op = 0x63 + f * 2 ^ 12 in
    let (et, small) = ht t refl in
    let (up, down) = read_b_format-range op a b t c small hc (λ z. nz (sym e ∙ z)) in
    let (r₁, r₂, r₃, r₄, r₅) =
      read_b_format-immediate_b 0x63 f (omega arith) (omega arith) a b t c ha hb (omega arith)
        (omega arith) up down (omega arith) in
    rw (← e) (t, refl, r₁, r₂, r₃)

jump-reaches :
    (a current w : ℕ) (label : Option ℕ)
    → a < 32
    → current < 2 ^ 31
    → current % 4 ≡ 0
    → ((t : ℕ) → label ≡ some t → (t % 4 ≡ 0) × (t < 2 ^ 31))
    → read_j_format 0x6F a label current ≡ w
    → w ≢ 0
    → (target : ℕ) × (label ≡ some target)
      × (add32 current (immediate_j w) ≡ target)
      × (bits 7 5 w ≡ a)
jump-reaches a c w none ha hc ec ht e nz = absurd (nz (sym e ∙ none_j 0x6F a c))
jump-reaches a c w (some t) ha hc ec ht e nz =
    let (et, small) = ht t refl in
    let (up, down) = read_j_format-range 0x6F a t c small hc (λ z. nz (sym e ∙ z)) in
    let (r₁, r₂, r₃) =
      read_j_format-immediate_j 0x6F (omega arith) a t c ha (omega arith) (omega arith) up down
        (omega arith) in
    rw (← e) (t, refl, r₁, r₂)

get_elem-bound :
    {A : Type 0} (xs : List A) (k : ℕ) (x : A) → get_elem? xs k ≡ some x → k < length xs
get_elem-bound [] k x h = absurd cc
get_elem-bound (y ∷ xs) zero x h = omega arith
get_elem-bound (y ∷ xs) (suc k) x h = omega (arith, get_elem-bound xs k x h)

read_r-register : (o : Operand) (s : CString) → o ≡ op_r → Encodable o s → read_r s < 32
read_r-register o s e h = subst (λ z. Encodable z s) e h

module _ (lines : List CString) (words : List ℕ) (ls : List Line) (k : ℕ) (tokens : List CString)
    (block : IBlock) (assembled : assemble lines ≡ ok words) (read : read_lines lines ≡ ok ls)
    (at_k : get_elem? (operations ls) k ≡ some tokens)
    (found : get_i_block (token tokens 0) ≡ some block)
    (small : 4 * length (operations ls) < 2 ^ 31) where
  register :
      (i : ℕ)
      → i < 4
      → i ≤ block.number_of_operands
      → letter block i ≡ op_r
      → read_r (token tokens i) < 32
  unfolding assemble
  register i hi hn e =
      let (p, h₂, h₁) =
        >>=-eq-ok (first_pass lines (record { head = []; instruction_number = 0 })) _ assembled in
      let accepted = checked lines _ p ls k tokens h₁ read at_k in
      read_r-register _ (token tokens i) e
        (check_semantics-Encodable block tokens i found accepted hi hn)

  target_address :
      (head : SymbolTable) (name : CString) (t : ℕ)
      → get_address name head ≡ place name 0 ls
      → get_address name head ≡ some t
      → (t % 4 ≡ 0) × (t < 2 ^ 31)
  target_address head name t e h =
      let (aligned, bound) = place-bound name 0 t ls (sym e ∙ h) in (aligned, omega arith)

  -- In an assembled program of fewer than 2 ^ 29 instructions, the label of a branch is in the
  -- source, and the word of the branch has its two registers and the offset that leads, in the
  -- simulator, from its address to the label.
  pub assembled-branch :
      block.format ≡ format_b
      → (w : ℕ) × (target : ℕ) × (get_elem? words k ≡ some w)
        × (place (token tokens 3) 0 ls ≡ some target)
        × (add32 (k * 4) (immediate_b w) ≡ target)
        × (bits 15 5 w ≡ read_r (token tokens 1))
        × (bits 20 5 w ≡ read_r (token tokens 2))
  assembled-branch is_branch =
      let row = branch_row tokens block found is_branch in
      let (b₁, b₂, b₃, b₄, b₅, b₆) = row in
      let (head, labels, w, e₁, e₂, e₃) =
        assemble-place lines words ls k tokens assembled read at_k in
      let in_range = get_elem-bound (operations ls) k tokens at_k in
      let (target, t₁, t₂, t₃, t₄) =
        branch-reaches block.funct3 (read_r (token tokens 1)) (read_r (token tokens 2)) (k * 4) w
          (get_address (token tokens 3) head) b₂ (register 1 (omega arith) (omega arith) b₅)
          (register 2 (omega arith) (omega arith) b₆) (omega arith) (omega arith)
          (λ t. target_address head (token tokens 3) t (labels (token tokens 3)))
          (branch_word head tokens (k * 4) w block found e₂ is_branch row) e₃ in
      (w, target, e₁, sym (labels (token tokens 3)) ∙ t₁, t₂, t₃, t₄)

  -- The same for jal: its word has its register and leads to the label.
  pub assembled-jump :
      block.format ≡ format_j
      → (w : ℕ) × (target : ℕ) × (get_elem? words k ≡ some w)
        × (place (token tokens 2) 0 ls ≡ some target)
        × (add32 (k * 4) (immediate_j w) ≡ target)
        × (bits 7 5 w ≡ read_r (token tokens 1))
  assembled-jump is_jump =
      let row = jump_row tokens block found is_jump in
      let (b₁, b₂, b₃, b₄, b₅) = row in
      let (head, labels, w, e₁, e₂, e₃) =
        assemble-place lines words ls k tokens assembled read at_k in
      let in_range = get_elem-bound (operations ls) k tokens at_k in
      let (target, t₁, t₂, t₃) =
        jump-reaches (read_r (token tokens 1)) (k * 4) w (get_address (token tokens 2) head)
          (register 1 (omega arith) (omega arith) b₅) (omega arith) (omega arith)
          (λ t. target_address head (token tokens 2) t (labels (token tokens 2)))
          (jump_word head tokens (k * 4) w block found e₂ is_jump row) e₃ in
      (w, target, e₁, sym (labels (token tokens 2)) ∙ t₁, t₂, t₃)
