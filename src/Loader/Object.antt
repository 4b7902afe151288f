-- ===== src/Loader/Object.antt =====
-- A whole object file through the loop of src/utils/custom_loader.c.
use risc_v_microarchitecture.Base.{
  get_elem?, ℕ, suc, ◌+◌, ◌*◌, ◌^◌, ◌<◌, ◌≡◌, Bool, true, not, ◌&&◌, ltb, ◌==◌, List, [], ◌∷◌, ◌++◌,
  some, ok,
}
use risc_v_microarchitecture.Assembler.Text.{CString, any, skip, length}
use risc_v_microarchitecture.Loader.Custom.{
  Image, is_blank, instruction_text, store_opcode, custom_loader_i,
}
use risc_v_microarchitecture.Loader.Listing.{listing_line, is_solid}

-- What the lines of an object file are: a word with the texts beside it, or a label's line.
pub data ObjectLine : Type 0 where
  word : CString → CString → ℕ → CString → ObjectLine
  other : CString → ObjectLine

unfoldable pub object : List ObjectLine → List CString
object [] = []
object (word number address opcode line ∷ es) = listing_line number address opcode line ∷ object es
object (other line ∷ es) = line ∷ object es

unfoldable pub words : List ObjectLine → List ℕ
words [] = []
words (word number address opcode line ∷ es) = opcode ∷ words es
words (other line ∷ es) = words es

-- No bracket but the ones around a number, and no blank in an address.
unfoldable pub is_object : List ObjectLine → Bool
is_object [] = true
is_object (word number address opcode line ∷ es) =
    not (any (λ d. d == b']') number) && (is_solid address && (ltb opcode (2 ^ 32) && is_object es))
is_object (other line ∷ es) = not (any (λ d. d == b']') line) && is_object es

-- The word in little endian order at an address.
abbrev pub word_at : (ℕ → ℕ) → ℕ → ℕ
word_at dram a = dram a + dram (a + 1) * 2 ^ 8 + dram (a + 2) * 2 ^ 16 + dram (a + 3) * 2 ^ 24

stored : CString → ℕ → Image → Image
stored p opcode image = record {
  dram = store_opcode image.addr opcode image.dram;
  addr = image.addr + 4;
  instr_index = suc image.instr_index;
  instructions =
      image.instructions
      ++ (instruction_text 20 (skip is_blank (skip (λ c. not (is_blank c)) p)) ∷ []);
}

module _ (limit total : ℕ) where
  -- What an object file leaves: the words from `image.addr` on, and the bytes below as they were.
  IsLoaded : List ObjectLine → Image → Image → Type 0
  IsLoaded es image next =
      (custom_loader_i limit total (object es) image ≡ ok next)
      × (next.addr ≡ image.addr + 4 * length (words es))
      × ((b : ℕ) → b < image.addr → next.dram b ≡ image.dram b)
      × ((k w : ℕ) → get_elem? (words es) k ≡ some w → word_at next.dram (image.addr + 4 * k) ≡ w)
