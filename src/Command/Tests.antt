-- ===== src/Command/Tests.antt =====
-- A command line with an ELF file of one segment, and what the loaders and the loop over the
-- arguments make of it.
use risc_v_microarchitecture.Base.{
  ℕ, zero, suc, ◌+◌, ◌^◌, ◌≡◌, ◌≢◌, ◌<◌, ◌≤◌, refl, subst, arith, Bool, true, false, ltb, Option,
  none, some, ok, fault, List, [], ◌∷◌, get_elem?,
}
use risc_v_microarchitecture.Assembler.Text.{bytes}
use risc_v_microarchitecture.Config.{
  System, default_l1, default_l2, default_l3, new_cache, defaults, configure, allocate, granted,
  is_regular, line_count, to_size, to_uint32, load_config_json,
}
use risc_v_microarchitecture.Config.Tests.{Json, get, value}
use risc_v_microarchitecture.Loader.Elf.{
  File, Header, ProgramHeader, Loaded, read_elf_header, read_program_headers, headers_at,
  load_segment, load_segments,
}
use risc_v_microarchitecture.Loader.Elf.Segments.{
  IsLayout, covers, covered, segment_byte, load_segments-defined,
}
use risc_v_microarchitecture.Simulator.{simulate}
use risc_v_microarchitecture.Command.{
  Options, no_options, is_flag, file_name, read_option, read_options,
}
use risc_v_microarchitecture.Command.Reading.{command_line, read_options-command_line}
use risc_v_microarchitecture.Command.Boot.{Host, initial_machine, config_text, main}
use risc_v_microarchitecture.Command.Running.{main-elf_object}

abbrev image : List ℕ
image =
    127 ∷ 69 ∷ 76 ∷ 70 ∷ 1 ∷ 1 ∷ 1 ∷ 0 ∷ 0 ∷ 0 ∷ 0 ∷ 0 ∷ 0 ∷ 0 ∷ 0 ∷ 0 ∷ 2 ∷ 0 ∷ 243 ∷ 0 ∷ 1 ∷ 0 ∷ 0
    ∷ 0 ∷ 0 ∷ 1 ∷ 0 ∷ 0 ∷ 52 ∷ 0 ∷ 0 ∷ 0 ∷ 0 ∷ 0 ∷ 0 ∷ 0 ∷ 0 ∷ 0 ∷ 0 ∷ 0 ∷ 52 ∷ 0 ∷ 32 ∷ 0 ∷ 1 ∷ 0
    ∷ 0 ∷ 0 ∷ 0 ∷ 0 ∷ 0 ∷ 0 ∷ 1 ∷ 0 ∷ 0 ∷ 0 ∷ 84 ∷ 0 ∷ 0 ∷ 0 ∷ 0 ∷ 1 ∷ 0 ∷ 0 ∷ 0 ∷ 1 ∷ 0 ∷ 0 ∷ 8 ∷ 0
    ∷ 0 ∷ 0 ∷ 12 ∷ 0 ∷ 0 ∷ 0 ∷ 5 ∷ 0 ∷ 0 ∷ 0 ∷ 4 ∷ 0 ∷ 0 ∷ 0 ∷ 147 ∷ 2 ∷ 80 ∷ 0 ∷ 115 ∷ 0 ∷ 0 ∷ 0
    ∷ []

abbrev byte_of : Option ℕ → ℕ
byte_of none = 0
byte_of (some b) = b

abbrev program_file : File
program_file = record { size = 92; byte = λ k. byte_of (get_elem? image k) }

abbrev segment : ProgramHeader
segment = record { p_type = 1; p_offset = 84; p_vaddr = 256; p_filesz = 8; p_memsz = 12 }

abbrev header : Header
header = record { e_type = 2; e_machine = 243; e_entry = 256; e_phoff = 52; e_phnum = 1 }

header_read : read_elf_header program_file ≡ ok header
unfolding read_elf_header
header_read = refl

abbrev always : ℕ → Bool
always k = true

segments_read : read_program_headers always always program_file header ≡ ok (segment ∷ [])
unfolding read_program_headers headers_at
segments_read = refl

layout : IsLayout always always program_file (2 ^ 30) (segment ∷ [])
unfolding covered
layout = (
  λ p. record { sizes = omega arith; room = omega arith; bytes = omega arith; seek = refl },
  λ a p. refl,
  tt,
)

-- A request for less than 2 ^ 40 objects is granted.
abbrev host : Host Json
host = record {
  get = get;
  number = value;
  parse = λ buffer. none;
  calloc = λ k count size. ltb count (2 ^ 40);
  malloc = always;
  fseek = always;
  text_file = λ name. none;
  line_file = λ name. none;
  binary_file = λ name. some program_file;
}

abbrev options : Options
options = record no_options { pip = true; elf_object = some (bytes "a.out"); log = true }

read_options-command_line_example : read_options (command_line options) no_options ≡ ok options
unfolding is_flag
read_options-command_line_example = read_options-command_line options refl refl refl refl

-- What stands in a program header is not checked against the length in the file: with 8 bytes in
-- the file and 4 in memory, the length to be cleared wraps round.
overlong :
    load_segment always always program_file 4096 (record segment { p_memsz = 4 }) (λ a. 0) ≡ fault
unfolding load_segment
overlong = refl

-- And the sum of address and size is one of uint32_t.
wrapped :
    load_segment always always program_file 4096 (record segment { p_vaddr = 0xfffffff4 }) (λ a. 0)
    ≡ fault
unfolding load_segment
wrapped = refl

segment-sizes :
    (k : ℕ) (ph : ProgramHeader)
    → get_elem? (segment ∷ []) k ≡ some ph
    → (ph.p_vaddr + ph.p_memsz < 2 ^ 32) × (ph.p_filesz ≤ ph.p_memsz)
segment-sizes zero ph e =
    let same : segment ≡ ph = cc in
    subst (λ (q : ProgramHeader). (q.p_vaddr + q.p_memsz < 2 ^ 32) × (q.p_filesz ≤ q.p_memsz)) same
      (omega arith, omega arith)
segment-sizes (suc k) ph e = cc

load_segments-defined_example :
    load_segments always always program_file 4096 (segment ∷ []) (λ a. 0) ≢ fault
load_segments-defined_example =
    load_segments-defined always always program_file 4096 (segment ∷ []) (λ a. 0) segment-sizes

abbrev system : System
system = record {
  config = defaults;
  l1_d = new_cache default_l1;
  l1_i = new_cache default_l1;
  l2 = new_cache default_l2;
  l3 = new_cache default_l3;
  dram = λ a. 0;
  has_instructions = true;
}

configured : configure host.calloc get value host.parse none ≡ ok system
unfolding configure allocate granted line_count to_size load_config_json
configured = refl

options_read :
    read_options (bytes "-e" ∷ bytes "a.out" ∷ []) no_options
    ≡ ok (record no_options { elf_object = some (bytes "a.out") })
unfolding read_options read_option file_name is_flag
options_read = refl

main-elf_object_example :
    (loaded : Loaded) × (main host 9 (bytes "-e" ∷ bytes "a.out" ∷ [])
      ≡ simulate 9 256 (initial_machine system loaded))
    × ((a : ℕ) → covered (segment ∷ []) a ≡ false → loaded.dram a ≡ 0)
    × ((k a : ℕ) (ph : ProgramHeader)
        → get_elem? (segment ∷ []) k ≡ some ph
        → covers ph a ≡ true
        → loaded.dram a ≡ segment_byte program_file ph a)
unfolding config_text to_uint32 is_regular
main-elf_object_example =
    main-elf_object host 9 (bytes "-e" ∷ bytes "a.out" ∷ [])
      (record no_options { elf_object = some (bytes "a.out") }) (bytes "a.out") system program_file
      header (segment ∷ []) options_read refl configured refl refl refl header_read segments_read
      layout
