-- ===== src/Assembler/Parser/Buffers.antt =====
-- The token buffers of src/assembler/core/parser.c: lines whose words fit in them.
use risc_v_microarchitecture.Base.{
  ℕ, zero, suc, ◌+◌, ◌-◌, ◌≤◌, ◌<◌, ◌≡◌, refl, arith, Bool, true, false, not, ◌&&◌, ◌||◌, ltb, ◌==◌,
  if◌then◌else◌, [], ◌∷◌, map, if-split, Option, none, some, Run, ok, exit, fault, ◌>>=◌, ◌⊎◌, inl,
  inr,
}
use risc_v_microarchitecture.Assembler.Text.{
  CString, is_space, is_digit, is_upper, is_lower, to_lower, is_alnum, is_empty, any, all, skip,
  passed, length,
}
use risc_v_microarchitecture.Assembler.Parser.{
  store_token, is_label_char, parse_label, is_operand_char, behind_operand, parse_operands,
  is_joined, parse_operation, remove_comments, is_full_line_comment, error, is_valid_char, is_mixed,
  line_tokens, get_tokens,
}

-- Whether code keeps to what C defines.
abbrev pub is_defined {ℓ} : {A : Type ℓ} → Run A → Bool
is_defined (ok a) = true
is_defined exit = true
is_defined fault = false

-- Whether each word of operand characters has fewer than `max_chars`, with `n` of the first passed.
unfoldable pub has_short_words : ℕ → ℕ → CString → Bool
has_short_words max_chars n [] = true
has_short_words max_chars n (c ∷ s) =
    let word = has_short_words max_chars (suc n) s in
    let next = has_short_words max_chars 0 s in
    if is_operand_char c then ltb (suc n) max_chars && word else next

pub is_defined-ok {ℓ κ} :
    {A : Type ℓ} {B : Type κ} (m : Run A) (f : A → B)
    → is_defined m ≡ true
    → is_defined (m >>= λ a. ok (f a)) ≡ true
is_defined-ok (ok a) f h = refl
is_defined-ok exit f h = refl
is_defined-ok fault f h = h

pub is_defined-if {ℓ} :
    {A : Type ℓ} (b : Bool) (x y : Run A)
    → is_defined x ≡ true
    → is_defined y ≡ true
    → is_defined (if b then x else y) ≡ true
is_defined-if b x y h k = if-split (λ m. is_defined m ≡ true) b x y h k

comma_char : is_operand_char b',' ≡ false
unfolding is_operand_char is_alnum is_digit is_upper is_lower
comma_char = refl

label-operand : (c : ℕ) → is_label_char c ≡ true → is_operand_char c ≡ true
unfolding is_label_char is_operand_char
label-operand c h = ground arith

alnum-operand_char : (c : ℕ) → is_alnum c ≡ true → is_operand_char c ≡ true
unfolding is_operand_char
alnum-operand_char c h = ground arith

newline_char : is_operand_char b'\n' ≡ false
unfolding is_operand_char is_alnum is_digit is_upper is_lower
newline_char = refl

cut_comment :
    (s t : CString)
    → elim s [ [] ↦ none | d ∷ u ↦ if d == b'/' then some (b'\n' ∷ []) else none ] ≡ some t
    → t ≡ b'\n' ∷ []
cut_comment [] t e = absurd cc
cut_comment (d ∷ u) t e = ground arith

comment_cases :
    (c : ℕ) (s t : CString) (o : Option CString)
    → (if c == b'/'
        then (elim s [ [] ↦ none | d ∷ u ↦ if d == b'/' then some (b'\n' ∷ []) else none ])
        else (elim o [ none ↦ none | some u ↦ some (c ∷ u) ]))
      ≡ some t
    → (t ≡ b'\n' ∷ []) ⊎ ((rest : CString) × (o ≡ some rest) × (t ≡ c ∷ rest))
comment_cases c s t o e = by_test (c == b'/') o e
  where
    by_test :
        (b : Bool) (o : Option CString)
        → (if b
            then (elim s [ [] ↦ none | d ∷ u ↦ if d == b'/' then some (b'\n' ∷ []) else none ])
            else (elim o [ none ↦ none | some u ↦ some (c ∷ u) ]))
          ≡ some t
        → (t ≡ b'\n' ∷ []) ⊎ ((rest : CString) × (o ≡ some rest) × (t ≡ c ∷ rest))
    by_test true o k = inl (cut_comment s t k)
    by_test false none k = absurd cc
    by_test false (some u) k = inr (u, refl, ground arith)

module _ (max_chars : ℕ) where
  fewer_passed :
      (n m : ℕ) (s : CString)
      → m ≤ n
      → has_short_words max_chars n s ≡ true
      → has_short_words max_chars m s ≡ true
  unfolding has_short_words
  fewer_passed n m [] h k = refl
  fewer_passed n m (c ∷ s) h k = ground (arith, fewer_passed (suc n) (suc m) s)

  skip-short :
      (p : ℕ → Bool) (s : CString) (n : ℕ)
      → has_short_words max_chars n s ≡ true
      → has_short_words max_chars 0 (skip p s) ≡ true
  unfolding has_short_words
  skip-short p [] n h = refl
  skip-short p (c ∷ s) n h =
      ground (arith, skip-short p s (suc n), skip-short p s 0, fewer_passed (suc n) 1 s)

  passed-short :
      (p : ℕ → Bool) (s : CString) (n : ℕ)
      → ((c : ℕ) → p c ≡ true → is_operand_char c ≡ true)
      → n < max_chars
      → has_short_words max_chars n s ≡ true
      → n + length (passed p s) < max_chars
  unfolding has_short_words
  passed-short p [] n hp hn h = omega arith
  passed-short p (c ∷ s) n hp hn h = ground (arith, hp c, passed-short p s (suc n) hp)

  store_token-short :
      (p : ℕ → Bool) (s : CString)
      → ((c : ℕ) → p c ≡ true → is_operand_char c ≡ true)
      → 0 < max_chars
      → has_short_words max_chars 0 s ≡ true
      → (name : CString) × (store_token max_chars (passed p s) ≡ ok name)
  unfolding store_token
  store_token-short p s hp pos h =
      let fits = passed-short p s 0 hp pos h in (map to_lower (passed p s), ground arith)

  short_suffix :
      (c : ℕ) (s : CString)
      → has_short_words max_chars 0 (c ∷ s) ≡ true
      → has_short_words max_chars 0 s ≡ true
  unfolding has_short_words
  short_suffix c s h = ground (arith, fewer_passed 1 0 s)

  behind_operand-short :
      (s t : CString)
      → has_short_words max_chars 0 s ≡ true
      → behind_operand s ≡ some t
      → has_short_words max_chars 0 t ≡ true
  unfolding behind_operand has_short_words
  behind_operand-short [] t h e = ground arith
  behind_operand-short (c ∷ s) t h e = ground (arith, fewer_passed 1 0 s, short_suffix c s)

  parse_operands-defined :
      (left : ℕ) (s : CString)
      → 0 < max_chars
      → has_short_words max_chars 0 s ≡ true
      → is_defined (parse_operands max_chars left s) ≡ true
  unfolding parse_operands
  parse_operands-defined zero s pos h = refl
  parse_operands-defined (suc left) s pos h =
      let h₁ = skip-short is_space s 0 h in
      let (name, e) = store_token-short is_operand_char (skip is_space s) (λ c k. k) pos h₁ in
      let rest = skip is_space (skip is_operand_char (skip is_space s)) in
      let h₃ =
        skip-short is_space (skip is_operand_char (skip is_space s)) 0
          (skip-short is_operand_char (skip is_space s) 0 h₁) in
      rw e (
        is_defined-if (is_empty (passed is_operand_char (skip is_space s))) _ _ refl (
          by_rest name (behind_operand rest)
            (λ t b. parse_operands-defined left t pos (behind_operand-short rest t h₃ b))))
    where
      by_rest :
          (name : CString) (b : Option CString)
          → ((t : CString) → b ≡ some t → is_defined (parse_operands max_chars left t) ≡ true)
          → is_defined (elim b [
            | none ↦ ok none
            | some [] ↦ ok (some (name ∷ []))
            | some (c ∷ s₂) ↦ parse_operands max_chars left (c ∷ s₂) >>= λ rest.
                ok (elim rest [ none ↦ none | some names ↦ some (name ∷ names) ])
          ])
            ≡ true
      by_rest name none k = refl
      by_rest name (some []) k = refl
      by_rest name (some (c ∷ t)) k =
          is_defined-ok (parse_operands max_chars left (c ∷ t)) _ (k (c ∷ t) refl)

  parse_label-defined :
      (s : CString)
      → 0 < max_chars
      → has_short_words max_chars 0 s ≡ true
      → is_defined (parse_label max_chars s) ≡ true
  unfolding parse_label
  parse_label-defined s pos h =
      let (name, e) =
        store_token-short is_label_char (skip is_space s) label-operand pos
          (skip-short is_space s 0 h) in
      rw e refl

  parse_operation-defined :
      (max_tokens : ℕ) (s : CString)
      → 0 < max_chars
      → has_short_words max_chars 0 s ≡ true
      → is_defined (parse_operation max_tokens max_chars s) ≡ true
  unfolding parse_operation
  parse_operation-defined max_tokens s pos h =
      let s₁ = skip is_space s in
      let h₁ = skip-short is_space s 0 h in
      let h₂ = skip-short is_alnum s₁ 0 h₁ in
      let (name, e) = store_token-short is_alnum s₁ alnum-operand_char pos h₁ in
      let operands =
        parse_operands-defined (max_tokens - 1) (skip is_space (skip is_alnum s₁)) pos
          (skip-short is_space (skip is_alnum s₁) 0 h₂) in
      rw e (
        is_defined-if (is_empty (passed is_alnum s₁)) _ _ refl (
          is_defined-if (is_joined (skip is_alnum s₁)) _ _ refl (
            is_defined-if (is_empty (skip is_space (skip is_alnum s₁))) _ _ refl
              (is_defined-ok _ _ operands))))

  remove_comments-short :
      (s t : CString) (n : ℕ)
      → has_short_words max_chars n s ≡ true
      → remove_comments s ≡ some t
      → has_short_words max_chars n t ≡ true
  unfolding remove_comments has_short_words
  remove_comments-short [] t n h e = ground arith
  remove_comments-short (c ∷ s) t n h e = elim (comment_cases c s t (remove_comments s) e) [
    | inl cut ↦ rw (cut, newline_char) refl
    | inr (rest, r, kept) ↦
        rw kept
          (ground (arith, remove_comments-short s rest (suc n), remove_comments-short s rest 0))
  ]

  line_tokens-defined :
      (max_tokens : ℕ) (s : CString)
      → 0 < max_chars
      → has_short_words max_chars 0 s ≡ true
      → is_defined (line_tokens max_tokens max_chars s) ≡ true
  unfolding line_tokens
  line_tokens-defined max_tokens s pos h = is_defined-if (not (all is_valid_char s)) _ _ refl (
      is_defined-if
        (is_mixed (any (λ c. c == b':') s) (any (λ c. c == b'_') s)
          (any (λ c. c == b')' || c == b'(') s) (any (λ c. c == b'-') s))
        _ _ refl
        (is_defined-if (any (λ c. c == b':') s) _ _
          (is_defined-ok _ _ (parse_label-defined s pos h))
          (is_defined-ok _ _ (parse_operation-defined max_tokens s pos h))))

  pub get_tokens-defined :
      (max_tokens : ℕ) (line : CString)
      → 0 < max_chars
      → has_short_words max_chars 0 line ≡ true
      → is_defined (get_tokens max_tokens max_chars line) ≡ true
  unfolding get_tokens
  get_tokens-defined max_tokens line pos h =
      is_defined-if (is_full_line_comment line) _ _ refl
        (by_comment (remove_comments line) (λ t. remove_comments-short line t 0 h))
    where
      by_comment :
          (o : Option CString)
          → ((t : CString) → o ≡ some t → has_short_words max_chars 0 t ≡ true)
          → is_defined (elim o [ none ↦ ok error | some s ↦ line_tokens max_tokens max_chars s ])
            ≡ true
      by_comment none k = refl
      by_comment (some s) k = line_tokens-defined max_tokens s pos (k s refl)
