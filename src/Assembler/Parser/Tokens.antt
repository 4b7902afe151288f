-- ===== src/Assembler/Parser/Tokens.antt =====
-- The tokens that src/assembler/core/parser.c gives of a line in the standard layout.
use risc_v_microarchitecture.Base.{
  ℕ, zero, suc, ◌<◌, ◌≡◌, refl, ◌∙◌, arith, Bool, true, false, not, ◌&&◌, ltb, List, [], ◌∷◌, ◌++◌,
  map, some, ok,
}
use risc_v_microarchitecture.Assembler.Text.{
  CString, is_space, is_digit, is_upper, is_lower, is_alnum, to_lower, is_empty, all, skip, passed,
  length,
}
use risc_v_microarchitecture.Assembler.Parser.{
  store_token, is_operand_char, behind_operand, parse_operands, remove_comments, is_valid_char,
}

-- `op a, b, c` and what ends the line.
unfoldable pub operand_text : CString → List CString → CString → CString
operand_text a [] end = a ++ end
operand_text a (b ∷ bs) end = a ++ (b',' ∷ (b' ' ∷ operand_text b bs end))

unfoldable pub line_text : CString → List CString → CString → CString
line_text op [] end = op ++ end
line_text op (a ∷ args) end = op ++ (b' ' ∷ operand_text a args end)

-- What the code lets a token be: small letters and the characters of operands, in the buffer.
unfoldable pub is_word : (ℕ → Bool) → CString → Bool
is_word p w = not (is_empty w) && (all p w && (all (λ c. not (is_upper c)) w && ltb (length w) 32))

unfoldable pub are_words : List CString → Bool
are_words [] = true
are_words (w ∷ ws) = is_word is_operand_char w && are_words ws

unfoldable pub starts : (ℕ → Bool) → CString → Bool
starts p [] = false
starts p (c ∷ s) = p c

pub passed-append :
    (p : ℕ → Bool) (w t : CString)
    → all p w ≡ true
    → starts p t ≡ false
    → (passed p (w ++ t) ≡ w) × (skip p (w ++ t) ≡ t)
unfolding starts
passed-append p [] [] h k = (refl, refl)
passed-append p [] (c ∷ t) h k = ground arith
passed-append p (c ∷ w) t h k = ground (arith, passed-append p w t)

map-to_lower : (w : CString) → all (λ c. not (is_upper c)) w ≡ true → map to_lower w ≡ w
unfolding to_lower
map-to_lower [] h = refl
map-to_lower (c ∷ w) h = ground (arith, map-to_lower w)

pub store_token-word : (p : ℕ → Bool) (w : CString) → is_word p w ≡ true → store_token 32 w ≡ ok w
unfolding store_token is_word
store_token-word p w h = ground (arith, map-to_lower w)

pub remove_comments-valid : (s : CString) → all is_valid_char s ≡ true → remove_comments s ≡ some s
unfolding remove_comments is_valid_char is_space is_alnum is_digit is_upper is_lower
remove_comments-valid [] h = refl
remove_comments-valid (c ∷ s) h = ground (arith, remove_comments-valid s)

pub skip-spaces : (s : CString) → all is_space s ≡ true → skip is_space s ≡ []
skip-spaces [] h = refl
skip-spaces (c ∷ s) h = ground (arith, skip-spaces s)

-- A word starts with no space.
pub skip-word :
    (p : ℕ → Bool) (w t : CString)
    → is_word is_operand_char w ≡ true
    → skip is_space (w ++ t) ≡ w ++ t
unfolding is_word is_operand_char is_space is_alnum is_digit is_upper is_lower
skip-word p [] t h = absurd (ground arith)
skip-word p (c ∷ w) t h = ground arith

spaces-start : (s : CString) → all is_space s ≡ true → starts is_operand_char s ≡ false
unfolding starts is_operand_char is_space is_alnum is_digit is_upper is_lower
spaces-start [] h = refl
spaces-start (c ∷ s) h = ground arith

word-operand :
    (w : CString)
    → is_word is_operand_char w ≡ true
    → (all is_operand_char w ≡ true) × (is_empty w ≡ false)
unfolding is_word
word-operand w h = ground arith

pub skip-operand_text :
    (a : CString) (args : List CString) (end : CString)
    → is_word is_operand_char a ≡ true
    → skip is_space (operand_text a args end) ≡ operand_text a args end
unfolding operand_text
skip-operand_text a [] end h = skip-word is_operand_char a end h
skip-operand_text a (b ∷ bs) end h = skip-word is_operand_char a _ h

comma-start : (t : CString) → starts is_operand_char (b',' ∷ t) ≡ false
unfolding starts is_operand_char is_alnum is_digit is_upper is_lower
comma-start t = refl

skip-comma : (t : CString) → skip is_space (b',' ∷ t) ≡ b',' ∷ t
unfolding is_space
skip-comma t = refl

pub skip-space : (t : CString) → skip is_space (b' ' ∷ t) ≡ skip is_space t
unfolding is_space
skip-space t = refl

pub parse_operands-text :
    (left : ℕ) (a : CString) (args : List CString) (end s : CString)
    → length args < left
    → are_words (a ∷ args) ≡ true
    → all is_space end ≡ true
    → skip is_space s ≡ operand_text a args end
    → parse_operands 32 left s ≡ ok (some (a ∷ args))
unfolding parse_operands are_words operand_text behind_operand
parse_operands-text zero a args end s hl h he hs = absurd (omega arith)
parse_operands-text (suc left) a [] end s hl h he hs =
    let (w₁, w₂) = word-operand a (ground arith) in
    let (p₁, p₂) = passed-append is_operand_char a end w₁ (spaces-start end he) in
    rw (hs, p₁, p₂, skip-spaces end he, w₂, store_token-word is_operand_char a (ground arith)) refl
parse_operands-text (suc left) a (b ∷ bs) end s hl h he hs =
    let rest = b',' ∷ (b' ' ∷ operand_text b bs end) in
    let (w₁, w₂) = word-operand a (ground arith) in
    let (p₁, p₂) = passed-append is_operand_char a rest w₁ (comma-start _) in
    let later =
      parse_operands-text left b bs end (b' ' ∷ operand_text b bs end) (omega arith) (ground arith)
        he (skip-space _ ∙ skip-operand_text b bs end (ground arith)) in
    rw
      (
        hs,
        p₁,
        p₂,
        w₂,
        store_token-word is_operand_char a (ground arith),
        skip-comma (b' ' ∷ operand_text b bs end),
        later,
      )
      refl
