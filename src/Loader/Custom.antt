-- ===== src/Loader/Custom.antt =====
-- src/utils/custom_loader.c over the lines that `fgets` gives, with `strchr` and `sscanf` of `%x`.
-- The memory is a function on addresses: the text segment is taken to lie inside the array.
use risc_v_microarchitecture.Base.{
  ℕ, zero, suc, ◌+◌, ◌-◌, ◌%◌, ◌^◌, min, Bool, not, ◌||◌, ltb, leb, ◌==◌, if◌then◌else◌, bit_and,
  ◌>>>◌, List, [], ◌∷◌, ◌++◌, Option, none, some, Run, ok, exit, ◌>>=◌,
}
use risc_v_microarchitecture.Assembler.Text.{
  CString, is_space, skip, digit_value, digits_from, drop_prefix,
}

-- The memory with the two counters of the loop, and the texts of the instructions loaded so far.
pub record Image : Type 0 where
  pub dram : ℕ → ℕ
  pub addr : ℕ
  pub instr_index : ℕ
  pub instructions : List CString

unfoldable pub strchr : ℕ → CString → Option CString
strchr c [] = none
strchr c (d ∷ s) = let rest = strchr c s in if d == c then some (d ∷ s) else rest

unfoldable pub is_blank : ℕ → Bool
is_blank c = c == b' ' || c == 9

-- `sscanf(p, "%x", &opcode)`: `none` where no digit is found.
unfoldable pub scan_digits : CString → Option ℕ
scan_digits [] = none
scan_digits (c ∷ s) =
    if ltb (digit_value c) 16
    then some (min (2 ^ 64 - 1) (digits_from 16 0 (drop_prefix 16 (c ∷ s))) % 2 ^ 32)
    else none

unfoldable pub scan_signed : CString → Option ℕ
scan_signed [] = none
scan_signed (c ∷ s) =
    if c == b'-'
    then (elim (scan_digits s) [ none ↦ none | some n ↦ some ((2 ^ 32 - n) % 2 ^ 32) ])
    else if c == b'+'
    then scan_digits s
    else scan_digits (c ∷ s)

unfoldable pub scan_hex : CString → Option ℕ
scan_hex s = scan_signed (skip is_space s)

-- The 20 characters of an instruction: those up to the end of the line, and spaces.
unfoldable pub instruction_text : ℕ → CString → CString
instruction_text zero p = []
instruction_text (suc n) [] = b' ' ∷ instruction_text n []
instruction_text (suc n) (c ∷ p) =
    let rest = instruction_text n p in
    let blank = instruction_text n [] in if c == b'\n' then b' ' ∷ blank else c ∷ rest

-- `opcode` in little endian order.
unfoldable pub store_opcode : ℕ → ℕ → (ℕ → ℕ) → ℕ → ℕ
store_opcode addr opcode dram a =
    if a == addr + 3
    then bit_and (opcode >>> 24) 0xFF
    else if a == addr + 2
    then bit_and (opcode >>> 16) 0xFF
    else if a == addr + 1
    then bit_and (opcode >>> 8) 0xFF
    else if a == addr
    then bit_and (opcode >>> 0) 0xFF
    else dram a

module _ (text_segment_limit total_number_of_instructions : ℕ) where
  -- The bounds checks and the stores for the opcode that is read at `p`.
  unfoldable pub load_opcode : CString → ℕ → Image → Run Image
  load_opcode p opcode image =
      if leb text_segment_limit (image.addr + 3)
      then exit
      else if leb total_number_of_instructions image.instr_index
      then exit
      else ok (record {
        dram = store_opcode image.addr opcode image.dram;
        addr = image.addr + 4;
        instr_index = suc image.instr_index;
        instructions =
            image.instructions
            ++ (instruction_text 20 (skip is_blank (skip (λ c. not (is_blank c)) p)) ∷ []);
      })

  -- From the opcode on, and from the address on.
  unfoldable pub load_word : CString → Image → Run Image
  load_word p image = elim (scan_hex p) [
    | none ↦ ok image
    | some opcode ↦ load_opcode p opcode image
  ]

  unfoldable pub load_address : CString → Image → Run Image
  load_address p image = elim (strchr b' ' (skip is_blank p)) [
    | none ↦ ok image
    | some space ↦ load_word (skip is_blank space) image
  ]

  -- One turn of the loop. A `continue` leaves everything as it was.
  unfoldable pub load_line : CString → Image → Run Image
  load_line line image = elim (strchr b']' line) [
    | none ↦ ok image
    | some [] ↦ ok image
    | some (c ∷ p) ↦ load_address p image
  ]

  unfoldable pub custom_loader_i : List CString → Image → Run Image
  custom_loader_i [] image = ok image
  custom_loader_i (line ∷ lines) image = load_line line image >>= λ next. custom_loader_i lines next

  -- The image that is loaded, and the entry point. `custom_loader_d` has no body.
  unfoldable pub custom_loader : List CString → Image → Run (Image × ℕ)
  custom_loader instruction_file image =
      custom_loader_i instruction_file image >>= λ next. ok (next, 0)
