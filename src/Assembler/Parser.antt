-- ===== src/Assembler/Parser.antt =====
-- src/assembler/core/parser.c. The tokens go to buffers of `max_chars` characters whose bound the
-- code does not test: a token that does not fit is a `fault`.
pub mod Tokens
pub mod Lines
pub mod Buffers
use risc_v_microarchitecture.Base.{
  ℕ, zero, suc, ◌-◌, Bool, true, false, not, ◌&&◌, ◌||◌, ltb, ◌==◌, if◌then◌else◌, List, [], ◌∷◌,
  map, Option, none, some, Run, ok, exit, fault, ◌>>=◌,
}
use risc_v_microarchitecture.Assembler.Text.{
  CString, is_space, is_alnum, to_lower, is_empty, any, all, skip, passed, length,
}

-- `*t = tolower(*s)` for each character of a word, and the 0 behind them.
unfoldable pub store_token : ℕ → CString → Run CString
store_token max_chars s = if ltb (length s) max_chars then ok (map to_lower s) else fault

unfoldable pub is_label_char : ℕ → Bool
is_label_char c = is_alnum c || c == b'_'

unfoldable pub is_operand_char : ℕ → Bool
is_operand_char c = is_alnum c || (c == b'(' || (c == b')' || (c == b'-' || c == b'_')))

-- What may stand behind the name of a label: spaces are refused, and a colon ends the line.
unfoldable pub ends_label : CString → Bool
ends_label [] = true
ends_label (c ∷ s) =
    if is_space c then false else if c == b':' then is_empty (skip is_space s) else true

-- `none` is the 0 of a failure.
unfoldable pub parse_label : ℕ → CString → Run (Option CString)
parse_label max_chars s =
    let s₁ = skip is_space s in
    do
      name ← store_token max_chars (passed is_label_char s₁)
      ok (if ends_label (skip is_label_char s₁) then some name else none)

-- What is left to do behind an operand: `none` is an error, `some []` the end of the line, and
-- else another operand starts.
unfoldable pub behind_operand : CString → Option CString
behind_operand [] = some []
behind_operand (c ∷ s) =
    if c == b','
    then (if is_empty s then none else some s)
    else if is_operand_char c
    then none
    else some []

-- The loop over the operands, with `left` tokens still to be had.
unfoldable pub parse_operands : ℕ → ℕ → CString → Run (Option (List CString))
parse_operands max_chars zero s = ok none
parse_operands max_chars (suc left) s =
    let s₁ = skip is_space s in
    let word = passed is_operand_char s₁ in
    if is_empty word
    then ok none
    else (store_token max_chars word >>= λ name.
        elim (behind_operand (skip is_space (skip is_operand_char s₁))) [
          | none ↦ ok none
          | some [] ↦ ok (some (name ∷ []))
          | some (c ∷ s₂) ↦ parse_operands max_chars left (c ∷ s₂) >>= λ rest.
              ok (elim rest [ none ↦ none | some names ↦ some (name ∷ names) ])
        ])

-- What the name of an operation may not touch.
unfoldable pub is_joined : CString → Bool
is_joined [] = false
is_joined (c ∷ s) = c == b',' || (c == b'(' || (c == b')' || (c == b'-' || c == b'_')))

unfoldable pub parse_operation : ℕ → ℕ → CString → Run (Option (List CString))
parse_operation max_tokens max_chars s =
    let s₁ = skip is_space s in
    let word = passed is_alnum s₁ in
    let s₂ = skip is_alnum s₁ in
    let s₃ = skip is_space s₂ in
    if is_empty word
    then ok none
    else (store_token max_chars word >>= λ name.
        if is_joined s₂
        then ok none
        else if is_empty s₃
        then ok (some (name ∷ []))
        else (parse_operands max_chars (max_tokens - 1) s₃ >>= λ rest.
            ok (elim rest [ none ↦ none | some names ↦ some (name ∷ names) ])))

-- A comment becomes the end of the line.
unfoldable pub remove_comments : CString → Option CString
remove_comments [] = some []
remove_comments (c ∷ s) =
    let rest = remove_comments s in
    if c == b'/'
    then (elim s [ [] ↦ none | d ∷ t ↦ if d == b'/' then some (b'\n' ∷ []) else none ])
    else (elim rest [ none ↦ none | some t ↦ some (c ∷ t) ])

unfoldable pub starts_comment : CString → Bool
starts_comment (c ∷ (d ∷ s)) = c == b'/' && d == b'/'
starts_comment s = false

unfoldable pub is_full_line_comment : CString → Bool
is_full_line_comment s = starts_comment (skip is_space s)

-- The answers of `get_tokens`: -1, the number of tokens with the tokens, 0 with the name, and 10.
pub data Line : Type 0 where
  error : Line
  operation : List CString → Line
  label : CString → Line
  comment : Line

unfoldable pub is_valid_char : ℕ → Bool
is_valid_char c =
    is_space c
    || (is_alnum c
        || (c == b',' || (c == b':' || (c == b'_' || (c == b'(' || (c == b')' || c == b'-'))))))

-- The combinations of characters that are refused.
unfoldable pub is_mixed : Bool → Bool → Bool → Bool → Bool
is_mixed has_label underscore bracket negative =
    (bracket && (has_label || underscore))
    || ((underscore && (negative || bracket))
        || ((negative && (has_label || underscore)) || (has_label && (negative || bracket))))

-- The part of `get_tokens` behind the handling of comments.
unfoldable pub line_tokens : ℕ → ℕ → CString → Run Line
line_tokens max_tokens max_chars s =
    let has_label = any (λ c. c == b':') s in
    let underscore = any (λ c. c == b'_') s in
    let bracket = any (λ c. c == b')' || c == b'(') s in
    let negative = any (λ c. c == b'-') s in
    if not (all is_valid_char s)
    then ok error
    else if is_mixed has_label underscore bracket negative
    then ok error
    else if has_label
    then (parse_label max_chars s >>= λ name. ok (elim name [ none ↦ error | some n ↦ label n ]))
    else (parse_operation max_tokens max_chars s >>= λ tokens.
        ok (elim tokens [ none ↦ error | some ts ↦ operation ts ]))

unfoldable pub get_tokens : ℕ → ℕ → CString → Run Line
get_tokens max_tokens max_chars line =
    if is_full_line_comment line then ok comment else (elim (remove_comments line) [
      | none ↦ ok error
      | some s ↦ line_tokens max_tokens max_chars s
    ])
