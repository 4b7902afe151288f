-- ===== src/Assembler/Text.antt =====
-- The C strings of the assembler: ctype.h, string.h and stdlib.h as its sources use them. A string
-- is the list of its characters, without the 0 at the end; a character is its ASCII code, and a
-- code from 128 on is in no class.
use Prim.Native.Char.{code}
use Prim.Native.String.{String}
use risc_v_microarchitecture.Base.{
  ℕ, suc, ◌+◌, ◌-◌, ◌*◌, ◌%◌, ◌^◌, min, Bool, true, false, ◌&&◌, ◌||◌, ltb, leb, ◌==◌,
  if◌then◌else◌, List, [], ◌∷◌,
}

abbrev pub CString : Type 0
CString = List ℕ

-- A string constant.
abbrev pub bytes : String → CString
bytes String.[] = []
bytes (String.◌∷◌ c s) = code c ∷ bytes s

unfoldable pub is_space : ℕ → Bool
is_space c = c == b' ' || (leb 9 c && leb c 13)

unfoldable pub is_digit : ℕ → Bool
is_digit c = leb b'0' c && leb c b'9'

unfoldable pub is_upper : ℕ → Bool
is_upper c = leb b'A' c && leb c b'Z'

unfoldable pub is_lower : ℕ → Bool
is_lower c = leb b'a' c && leb c b'z'

unfoldable pub is_alnum : ℕ → Bool
is_alnum c = is_digit c || (is_upper c || is_lower c)

unfoldable pub to_lower : ℕ → ℕ
to_lower c = if is_upper c then c + 32 else c

-- `!strcmp(s, t)`
abbrev pub same : CString → CString → Bool
same [] [] = true
same [] (d ∷ t) = false
same (c ∷ s) [] = false
same (c ∷ s) (d ∷ t) = c == d && same s t

-- `strlen`
abbrev pub length {ℓ} : {A : Type ℓ} → List A → ℕ
length [] = 0
length (x ∷ xs) = suc (length xs)

abbrev pub is_empty {ℓ} : {A : Type ℓ} → List A → Bool
is_empty [] = true
is_empty (x ∷ xs) = false

-- Whether some character, and whether each, is in a class.
abbrev pub any : (ℕ → Bool) → CString → Bool
any p [] = false
any p (c ∷ s) = p c || any p s

abbrev pub all : (ℕ → Bool) → CString → Bool
all p [] = true
all p (c ∷ s) = p c && all p s

-- `while(p(*s)) s++`: what is left, and what was passed.
abbrev pub skip : (ℕ → Bool) → CString → CString
skip p [] = []
skip p (c ∷ s) = let rest = skip p s in if p c then rest else c ∷ s

abbrev pub passed : (ℕ → Bool) → CString → CString
passed p [] = []
passed p (c ∷ s) = let rest = passed p s in if p c then c ∷ rest else []

-- The value of a digit, in bases up to 16.
unfoldable pub digit_value : ℕ → ℕ
digit_value c =
    if is_digit c
    then c - b'0'
    else if leb b'a' c && leb c b'f'
    then c - b'a' + 10
    else if leb b'A' c && leb c b'F'
    then c - b'A' + 10
    else 16

-- The number that the digits at the start of `s` continue.
unfoldable pub digits_from : ℕ → ℕ → CString → ℕ
digits_from base n [] = n
digits_from base n (c ∷ s) =
    let rest = digits_from base (n * base + digit_value c) s in
    if ltb (digit_value c) base then rest else n

-- `0x` in front of a hexadecimal digit.
unfoldable pub drop_prefix : ℕ → CString → CString
drop_prefix base (c ∷ (x ∷ (d ∷ s))) =
    if base == 16 && (c == b'0' && ((x == b'x' || x == b'X') && ltb (digit_value d) 16))
    then d ∷ s
    else c ∷ (x ∷ (d ∷ s))
drop_prefix base s = s

-- `(int)strtol(s, &end, base)` with a 64-bit long, which `atoi(s)` is in base 10: a value out of
-- the range of long is the nearest in it, and the low 32 bits are taken.
unfoldable pub signed_value : ℕ → CString → ℕ
signed_value base [] = 0
signed_value base (c ∷ t) =
    if c == b'-'
    then (2 ^ 64 - min (2 ^ 63) (digits_from base 0 (drop_prefix base t))) % 2 ^ 32
    else if c == b'+'
    then min (2 ^ 63 - 1) (digits_from base 0 (drop_prefix base t)) % 2 ^ 32
    else min (2 ^ 63 - 1) (digits_from base 0 (drop_prefix base (c ∷ t))) % 2 ^ 32

unfoldable pub to_int : ℕ → CString → ℕ
to_int base s = signed_value base (skip is_space s)
