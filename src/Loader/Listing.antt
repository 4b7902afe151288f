-- ===== src/Loader/Listing.antt =====
-- The object file that src/assembler/core/main.c writes with -v, through src/utils/custom_loader.c.
use risc_v_microarchitecture.Base.{
  ℕ, ◌+◌, ◌-◌, ◌*◌, ◌/◌, ◌%◌, ◌^◌, ◌≤◌, ◌<◌, ◌≡◌, refl, ap, ◌∙◌, arith, min, Bool, true, false, not,
  ◌||◌, ltb, ◌==◌, if◌then◌else◌, [], ◌∷◌, ◌++◌, some,
}
use risc_v_microarchitecture.Assembler.Text.{
  CString, bytes, is_space, is_digit, any, skip, digit_value, digits_from, drop_prefix,
}
use risc_v_microarchitecture.Loader.Custom.{
  Image, strchr, is_blank, scan_digits, scan_signed, scan_hex, load_opcode, load_word, load_address,
  load_line,
}

-- The digits of `%08x`.
unfoldable pub hex_digit : ℕ → ℕ
hex_digit d = if ltb d 10 then b'0' + d else b'a' + (d - 10)

unfoldable pub hex8 : ℕ → CString
hex8 w =
    hex_digit (w / 2 ^ 28 % 16)
    ∷ hex_digit (w / 2 ^ 24 % 16)
    ∷ hex_digit (w / 2 ^ 20 % 16)
    ∷ hex_digit (w / 2 ^ 16 % 16)
    ∷ hex_digit (w / 2 ^ 12 % 16)
    ∷ hex_digit (w / 2 ^ 8 % 16)
    ∷ hex_digit (w / 2 ^ 4 % 16)
    ∷ hex_digit (w % 16)
    ∷ []

digit_value-hex_digit : (d : ℕ) → d < 16 → digit_value (hex_digit d) ≡ d
unfolding digit_value hex_digit is_digit
digit_value-hex_digit d h = ground arith

hex_digit-range : (d : ℕ) → d < 16 → (b'0' ≤ hex_digit d) × (hex_digit d ≤ b'f')
unfolding hex_digit
hex_digit-range d h = ground arith

hex_digit-not_x : (d : ℕ) → d < 16 → (hex_digit d == b'x' || hex_digit d == b'X') ≡ false
unfolding hex_digit
hex_digit-not_x d h = ground arith

digits_from-hex_digit :
    (n d : ℕ) (s : CString)
    → d < 16
    → digits_from 16 n (hex_digit d ∷ s) ≡ digits_from 16 (n * 16 + d) s
unfolding digits_from
digits_from-hex_digit n d s h = ground (arith, digit_value-hex_digit d h)

digits_from-space : (n : ℕ) (s : CString) → digits_from 16 n (b' ' ∷ s) ≡ n
unfolding digits_from digit_value is_digit
digits_from-space n s = refl

-- No second digit is the x of a prefix.
drop_prefix-hex_digit :
    (c d e : ℕ) (s : CString)
    → d < 16
    → drop_prefix 16 (c ∷ (hex_digit d ∷ (e ∷ s))) ≡ c ∷ (hex_digit d ∷ (e ∷ s))
unfolding drop_prefix
drop_prefix-hex_digit c d e s h = ground (arith, not_prefix)
  where
    not_prefix : (hex_digit d == b'x' || hex_digit d == b'X') ≡ false
    not_prefix = hex_digit-not_x d h

scan_hex-hex_digit :
    (d : ℕ) (s : CString)
    → d < 16
    → scan_hex (hex_digit d ∷ s)
      ≡ some (min (2 ^ 64 - 1) (digits_from 16 0 (drop_prefix 16 (hex_digit d ∷ s))) % 2 ^ 32)
unfolding scan_hex scan_signed scan_digits is_space
scan_hex-hex_digit d s h = ground (arith, digit_value-hex_digit d h, hex_digit-range d h)

scan_start :
    (w : ℕ) (s : CString)
    → scan_hex (hex8 w ++ s)
      ≡ some (min (2 ^ 64 - 1) (digits_from 16 0 (drop_prefix 16 (hex8 w ++ s))) % 2 ^ 32)
unfolding hex8
scan_start w s = scan_hex-hex_digit (w / 2 ^ 28 % 16) _ (omega arith)

digits_from-hex8 : (w : ℕ) (s : CString) → w < 2 ^ 32 → digits_from 16 0 (hex8 w ++ (b' ' ∷ s)) ≡ w
unfolding hex8
digits_from-hex8 w s h =
    digits_from-hex_digit _ (w / 2 ^ 28 % 16) _ (omega arith)
    ∙ digits_from-hex_digit _ (w / 2 ^ 24 % 16) _ (omega arith)
    ∙ digits_from-hex_digit _ (w / 2 ^ 20 % 16) _ (omega arith)
    ∙ digits_from-hex_digit _ (w / 2 ^ 16 % 16) _ (omega arith)
    ∙ digits_from-hex_digit _ (w / 2 ^ 12 % 16) _ (omega arith)
    ∙ digits_from-hex_digit _ (w / 2 ^ 8 % 16) _ (omega arith)
    ∙ digits_from-hex_digit _ (w / 2 ^ 4 % 16) _ (omega arith)
    ∙ digits_from-hex_digit _ (w % 16) _ (omega arith)
    ∙ digits_from-space _ s
    ∙ omega arith

drop_prefix-hex8 : (w : ℕ) (s : CString) → drop_prefix 16 (hex8 w ++ s) ≡ hex8 w ++ s
unfolding hex8
drop_prefix-hex8 w s = drop_prefix-hex_digit _ (w / 2 ^ 24 % 16) _ _ (omega arith)

scan_hex-hex8 : (w : ℕ) (s : CString) → w < 2 ^ 32 → scan_hex (hex8 w ++ (b' ' ∷ s)) ≡ some w
scan_hex-hex8 w s h =
    start
    ∙ ap (λ (t : CString). some (min (2 ^ 64 - 1) (digits_from 16 0 t) % 2 ^ 32))
        (drop_prefix-hex8 w (b' ' ∷ s))
    ∙ ap some (omega (arith, digits_from-hex8 w s h))
  where
    start :
        scan_hex (hex8 w ++ (b' ' ∷ s))
        ≡ some
            (min (2 ^ 64 - 1) (digits_from 16 0 (drop_prefix 16 (hex8 w ++ (b' ' ∷ s)))) % 2 ^ 32)
    start = scan_start w (b' ' ∷ s)

-- `fprintf(object, "[%d] %#08x   %08x   %s", address/4, address, opcode, line)`: the two numbers in
-- front are any texts without a closing bracket and without a blank.
unfoldable pub listing_line : CString → CString → ℕ → CString → CString
listing_line number address opcode line =
    b'['
    ∷ (number
        ++ (b']' ∷ (b' ' ∷ (address ++ (bytes "   " ++ (hex8 opcode ++ (bytes "   " ++ line)))))))

strchr-append :
    (c : ℕ) (s t : CString) → any (λ d. d == c) s ≡ false → strchr c (s ++ (c ∷ t)) ≡ some (c ∷ t)
unfolding strchr
strchr-append c [] t h = ground arith
strchr-append c (d ∷ s) t h = ground (arith, strchr-append c s t)

-- A text with no blank in it, and at least one character.
unfoldable pub is_solid : CString → Bool
is_solid [] = false
is_solid (c ∷ s) = not (any is_blank (c ∷ s))

skip-solid : (s t : CString) → is_solid s ≡ true → skip is_blank (s ++ t) ≡ s ++ t
unfolding is_solid
skip-solid [] t h = absurd cc
skip-solid (c ∷ s) t h = ground arith

blank-space : (s : CString) → any is_blank s ≡ false → any (λ d. d == b' ') s ≡ false
unfolding is_blank
blank-space [] h = refl
blank-space (c ∷ s) h = ground (arith, blank-space s)

solid-space : (s : CString) → is_solid s ≡ true → any (λ d. d == b' ') s ≡ false
unfolding is_solid
solid-space [] h = absurd cc
solid-space (c ∷ s) h = blank-space (c ∷ s) (ground arith)

skip-hex8 : (w : ℕ) (s : CString) → skip is_blank (bytes "   " ++ (hex8 w ++ s)) ≡ hex8 w ++ s
unfolding hex8 is_blank
skip-hex8 w s = ground (arith, hex_digit-range (w / 2 ^ 28 % 16) (omega arith))

skip_space : (s : CString) → skip is_blank (b' ' ∷ s) ≡ skip is_blank s
unfolding is_blank
skip_space s = refl

bracket-strchr :
    (number t : CString)
    → any (λ d. d == b']') number ≡ false
    → strchr b']' (b'[' ∷ (number ++ (b']' ∷ t))) ≡ some (b']' ∷ t)
bracket-strchr number t h = strchr-append b']' (b'[' ∷ number) t h

module _ (limit total : ℕ) where
  load_line-bracket :
      (line p : CString) (image : Image)
      → strchr b']' line ≡ some (b']' ∷ p)
      → load_line limit total line image ≡ load_address limit total p image
  unfolding load_line
  load_line-bracket line p image e = ground (arith, e)

  load_address-space :
      (p q r : CString) (image : Image)
      → skip is_blank p ≡ q
      → strchr b' ' q ≡ some r
      → load_address limit total p image ≡ load_word limit total (skip is_blank r) image
  unfolding load_address
  load_address-space p q r image e k = ground (arith, e, k)

  load_word-scan_hex :
      (p q : CString) (w : ℕ) (image : Image)
      → p ≡ q
      → scan_hex q ≡ some w
      → load_word limit total p image ≡ load_opcode limit total q w image
  unfolding load_word
  load_word-scan_hex p q w image e k = ground (arith, e, k)

  -- From a line of the object file the loader takes the word, and goes on to store it.
  pub load_line-listing_line :
      (number address : CString) (w : ℕ) (line : CString) (image : Image)
      → any (λ d. d == b']') number ≡ false
      → is_solid address ≡ true
      → w < 2 ^ 32
      → load_line limit total (listing_line number address w line) image
        ≡ load_opcode limit total (hex8 w ++ (bytes "   " ++ line)) w image
  unfolding listing_line
  load_line-listing_line number address w line image hn ha hw =
      let rest = hex8 w ++ (bytes "   " ++ line) in
      load_line-bracket _ (b' ' ∷ (address ++ (bytes "   " ++ rest))) image
        (bracket-strchr number (b' ' ∷ (address ++ (bytes "   " ++ rest))) hn)
      ∙ load_address-space _ _ (bytes "   " ++ rest) image
          (skip_space (address ++ (bytes "   " ++ rest))
            ∙ skip-solid address (bytes "   " ++ rest) ha)
          (strchr-append b' ' address (b' ' ∷ (b' ' ∷ rest)) (solid-space address ha))
      ∙ load_word-scan_hex _ rest w image (skip-hex8 w (bytes "   " ++ line))
          (scan_hex-hex8 w (b' ' ∷ (b' ' ∷ line)) hw)
