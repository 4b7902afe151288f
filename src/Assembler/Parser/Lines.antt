-- ===== src/Assembler/Parser/Lines.antt =====
-- Lines in the standard layout, through the whole of src/assembler/core/parser.c.
use risc_v_microarchitecture.Base.{
  ℕ, ◌≤◌, ◌≡◌, ◌⊎◌, refl, arith, Bool, true, false, not, ◌&&◌, ◌||◌, ◌==◌, List, [], ◌∷◌, ◌++◌,
  some, ok,
}
use risc_v_microarchitecture.Assembler.Text.{
  CString, is_space, is_digit, is_upper, is_lower, is_alnum, is_empty, any, all, skip, length,
}
use risc_v_microarchitecture.Assembler.Parser.{
  is_operand_char, is_joined, parse_operation, starts_comment, is_full_line_comment, operation,
  is_valid_char, is_mixed, line_tokens, get_tokens,
}
use risc_v_microarchitecture.Assembler.Parser.Tokens.{
  operand_text, line_text, is_word, are_words, starts, passed-append, store_token-word,
  remove_comments-valid, skip-spaces, skip-space, skip-word, skip-operand_text, parse_operands-text,
}

alnum-operand : (w : CString) → all is_alnum w ≡ true → all is_operand_char w ≡ true
unfolding is_operand_char
alnum-operand [] h = refl
alnum-operand (c ∷ w) h = ground (arith, alnum-operand w)

name-word : (op : CString) → is_word is_alnum op ≡ true → is_word is_operand_char op ≡ true
unfolding is_word
name-word op h = ground (arith, alnum-operand op)

word-name :
    (w : CString) → is_word is_alnum w ≡ true → (all is_alnum w ≡ true) × (is_empty w ≡ false)
unfolding is_word
word-name w h = ground arith

spaces-behind :
    (s : CString) → all is_space s ≡ true → (starts is_alnum s ≡ false) × (is_joined s ≡ false)
unfolding starts is_joined is_space is_alnum is_digit is_upper is_lower
spaces-behind [] h = (refl, refl)
spaces-behind (c ∷ s) h = ground arith

space-behind : (t : CString) → (starts is_alnum (b' ' ∷ t) ≡ false) × (is_joined (b' ' ∷ t) ≡ false)
unfolding starts is_joined is_alnum is_digit is_upper is_lower
space-behind t = (refl, refl)

operand_text-not_empty :
    (a : CString) (args : List CString) (end : CString)
    → is_empty a ≡ false
    → is_empty (operand_text a args end) ≡ false
unfolding operand_text
operand_text-not_empty [] args end h = absurd cc
operand_text-not_empty (c ∷ a) [] end h = refl
operand_text-not_empty (c ∷ a) (b ∷ bs) end h = refl

parse_operation-text :
    (op : CString) (args : List CString) (end : CString)
    → is_word is_alnum op ≡ true
    → are_words args ≡ true
    → length args ≤ 3
    → all is_space end ≡ true
    → parse_operation 4 32 (line_text op args end) ≡ ok (some (op ∷ args))
unfolding parse_operation line_text are_words is_word
parse_operation-text op [] end ho ha hl he =
    let (w₁, w₂) = word-name op ho in
    let (b₁, b₂) = spaces-behind end he in
    let (p₁, p₂) = passed-append is_alnum op end w₁ b₁ in
    rw
      (
        skip-word is_operand_char op end (name-word op ho),
        p₁,
        p₂,
        w₂,
        store_token-word is_alnum op ho,
        b₂,
        skip-spaces end he,
      )
      refl
parse_operation-text op (a ∷ args) end ho ha hl he =
    let rest = b' ' ∷ operand_text a args end in
    let (w₁, w₂) = word-name op ho in
    let (b₁, b₂) = space-behind (operand_text a args end) in
    let (p₁, p₂) = passed-append is_alnum op rest w₁ b₁ in
    let no_space = skip-operand_text a args end (ground arith) in
    rw
      (
        skip-word is_operand_char op rest (name-word op ho),
        p₁,
        p₂,
        w₂,
        store_token-word is_alnum op ho,
        b₂,
        skip-space (operand_text a args end),
        no_space,
        operand_text-not_empty a args end (ground arith),
        parse_operands-text 3 a args end (operand_text a args end) (omega arith) ha he no_space,
      )
      refl

-- Characters of an operation's line.
is_plain : ℕ → Bool
is_plain c = is_valid_char c && not (c == b':')

all-append :
    (p : ℕ → Bool) (s t : CString) → all p s ≡ true → all p t ≡ true → all p (s ++ t) ≡ true
all-append p [] t hs ht = ht
all-append p (c ∷ s) t hs ht = ground (arith, all-append p s t)

all-plain :
    (s : CString)
    → all is_plain s ≡ true
    → (all is_valid_char s ≡ true) × (any (λ c. c == b':') s ≡ false)
unfolding is_plain
all-plain [] h = (refl, refl)
all-plain (c ∷ s) h = ground (arith, all-plain s)

no_comment : (s : CString) → all is_valid_char s ≡ true → starts_comment s ≡ false
unfolding starts_comment is_valid_char is_space is_alnum is_digit is_upper is_lower
no_comment [] h = refl
no_comment (c ∷ []) h = refl
no_comment (c ∷ (d ∷ s)) h = ground arith

alnum-colon : (c : ℕ) → is_alnum c ≡ true → (c == b':') ≡ false
unfolding is_alnum is_digit is_upper is_lower
alnum-colon c h = ground arith

operand_char-plain : (c : ℕ) → is_operand_char c ≡ true → is_plain c ≡ true
unfolding is_operand_char is_plain is_valid_char
operand_char-plain c h = ground (arith, alnum-colon c)

operand-plain : (w : CString) → all is_operand_char w ≡ true → all is_plain w ≡ true
operand-plain [] h = refl
operand-plain (c ∷ w) h = ground (arith, operand_char-plain c, operand-plain w)

space-plain : (s : CString) → all is_space s ≡ true → all is_plain s ≡ true
unfolding is_plain is_valid_char is_space
space-plain [] h = refl
space-plain (c ∷ s) h = ground (arith, space-plain s)

space_plain : (t : CString) → all is_plain t ≡ true → all is_plain (b' ' ∷ t) ≡ true
unfolding is_plain is_valid_char is_space
space_plain t h = h

comma_space-plain : (t : CString) → all is_plain t ≡ true → all is_plain (b',' ∷ (b' ' ∷ t)) ≡ true
unfolding is_plain is_valid_char is_space is_alnum is_digit is_upper is_lower
comma_space-plain t h = h

operand_text-plain :
    (a : CString) (args : List CString) (end : CString)
    → are_words (a ∷ args) ≡ true
    → all is_space end ≡ true
    → all is_plain (operand_text a args end) ≡ true
unfolding operand_text are_words is_word
operand_text-plain a [] end h he =
    all-append is_plain a end (operand-plain a (ground arith)) (space-plain end he)
operand_text-plain a (b ∷ bs) end h he =
    let rest = operand_text-plain b bs end (ground arith) he in
    all-append is_plain a (b',' ∷ (b' ' ∷ operand_text b bs end)) (operand-plain a (ground arith))
      (comma_space-plain _ rest)

line_text-plain :
    (op : CString) (args : List CString) (end : CString)
    → is_word is_alnum op ≡ true
    → are_words args ≡ true
    → all is_space end ≡ true
    → all is_plain (line_text op args end) ≡ true
unfolding line_text is_word
line_text-plain op [] end ho ha he =
    all-append is_plain op end (operand-plain op (alnum-operand op (ground arith)))
      (space-plain end he)
line_text-plain op (a ∷ args) end ho ha he =
    all-append is_plain op (b' ' ∷ operand_text a args end)
      (operand-plain op (alnum-operand op (ground arith)))
      (space_plain _ (operand_text-plain a args end ha he))

skip-line_text :
    (op : CString) (args : List CString) (end : CString)
    → is_word is_alnum op ≡ true
    → skip is_space (line_text op args end) ≡ line_text op args end
unfolding line_text
skip-line_text op [] end h = skip-word is_operand_char op end (name-word op h)
skip-line_text op (a ∷ args) end h = skip-word is_operand_char op _ (name-word op h)

any-mark :
    (s : CString)
    → any (λ c. c == b')' || (c == b'(' || c == b'-')) s ≡ false
    → (any (λ c. c == b')' || c == b'(') s ≡ false) × (any (λ c. c == b'-') s ≡ false)
any-mark [] h = (refl, refl)
any-mark (c ∷ s) h = ground (arith, any-mark s)

not_mixed :
    (s : CString)
    → any (λ c. c == b'_') s ≡ false ⊎ any (λ c. c == b')' || (c == b'(' || c == b'-')) s ≡ false
    → is_mixed false
        (any (λ c. c == b'_') s)
        (any (λ c. c == b')' || c == b'(') s)
        (any (λ c. c == b'-') s)
      ≡ false
unfolding is_mixed
not_mixed s h = ground (arith, any-mark s)

-- A line with the name of an operation and at most three operands, all in small letters and of
-- fewer than 32 characters, without an underscore or without brackets and minus, gives these
-- tokens.
pub get_tokens-line_text :
    (op : CString) (args : List CString) (end : CString)
    → is_word is_alnum op ≡ true
    → are_words args ≡ true
    → length args ≤ 3
    → all is_space end ≡ true
    → any (λ c. c == b'_') (line_text op args end) ≡ false
      ⊎ any (λ c. c == b')' || (c == b'(' || c == b'-')) (line_text op args end) ≡ false
    → get_tokens 4 32 (line_text op args end) ≡ ok (operation (op ∷ args))
unfolding get_tokens line_tokens is_full_line_comment
get_tokens-line_text op args end ho ha hl he hm =
    let line = line_text op args end in
    let (valid, no_colon) = all-plain line (line_text-plain op args end ho ha he) in
    let tokens = parse_operation-text op args end ho ha hl he in
    rw
      (
        skip-line_text op args end ho,
        no_comment line valid,
        remove_comments-valid line valid,
        valid,
        no_colon,
        not_mixed line hm,
        tokens,
      )
      refl
