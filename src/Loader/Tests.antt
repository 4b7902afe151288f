-- ===== src/Loader/Tests.antt =====
-- An object file of two words.
use risc_v_microarchitecture.Base.{◌≡◌, refl, List, [], ◌∷◌}
use risc_v_microarchitecture.Assembler.Text.{bytes}
use risc_v_microarchitecture.Loader.Custom.{Image}
use risc_v_microarchitecture.Loader.Listing.{hex_digit, hex8, listing_line}
use risc_v_microarchitecture.Loader.Object.{ObjectLine, word, other, object}

abbrev lines : List ObjectLine
lines =
    word (bytes "0") (bytes "00000000") 0x00500093 (bytes "addi r1, r0, 5\n")
    ∷ other (bytes "back:\n")
    ∷ word (bytes "1") (bytes "0x000004") 0xFE208EE3 (bytes "beq r1, r2, back\n")
    ∷ []

abbrev empty_image : Image
empty_image = record { dram = λ a. 0; addr = 0; instr_index = 0; instructions = [] }

listing_line_text :
    object lines
    ≡ bytes "[0] 00000000   00500093   addi r1, r0, 5\n"
      ∷ bytes "back:\n"
      ∷ bytes "[1] 0x000004   fe208ee3   beq r1, r2, back\n"
      ∷ []
unfolding object listing_line hex8 hex_digit
listing_line_text = refl
