-- ===== src/Command/Running.antt =====
-- `main` of src/main.c as a whole.
use risc_v_microarchitecture.Base.{
  ℕ, ◌≡◌, refl, List, none, some, Run, ok, exit, fault, ◌>>=◌, >>=-eq-ok, Bool, true, false,
  if◌then◌else◌, get_elem?, if-split,
}
use risc_v_microarchitecture.Assembler.Text.{CString}
use risc_v_microarchitecture.Config.{
  System, defaults, configure, allocate, granted, load_config_json, to_uint32, is_regular,
}
use risc_v_microarchitecture.Config.Allocated.{to_uint32-bound}
use risc_v_microarchitecture.Loader.Elf.{
  File, Loaded, Header, ProgramHeader, elf_loader, read_elf_header, read_program_headers,
  fill_instruction_strings,
}
use risc_v_microarchitecture.Loader.Elf.Segments.{
  IsLayout, covers, covered, segment_byte, load_segments_lem,
}
use risc_v_microarchitecture.Simulator.{State, simulate}
use risc_v_microarchitecture.Simulator.Registers.{IsSound}
use risc_v_microarchitecture.Simulator.Loop.{simulate-IsSound}
use risc_v_microarchitecture.Command.{Options, no_options, read_options}
use risc_v_microarchitecture.Command.Boot.{
  Host, initial_machine, load, config_text, keep_texts, main,
}

if-ok : {A : Type 0} (b : Bool) (m : Run A) (a : A) → (if b then m else fault) ≡ ok a → m ≡ ok a
if-ok true m a e = e
if-ok false m a e = absurd cc

module _ {J : Type 0} (host : Host J) where
  initial_machine-IsSound :
      (system : System) (loaded : Loaded) → IsSound (initial_machine system loaded)
  unfolding initial_machine
  initial_machine-IsSound system loaded = record {
    zero_register = refl;
    outcomes = refl;
    predictions = refl;
  }

  -- Whatever the arguments, the files and the number of cycles, a simulation that `main` runs ends
  -- with register 0 at 0, and with every branch counted once as taken or not and once as a hit or
  -- a miss.
  pub main-IsSound :
      (fuel : ℕ) (args : List CString) (s : State) → main host fuel args ≡ ok s → IsSound s.machine
  unfolding main
  main-IsSound fuel args s e =
      let (o, e₁, _) = >>=-eq-ok (read_options args no_options) _ e in
      let (system, e₂, _) =
        >>=-eq-ok (configure host.calloc host.get host.number host.parse (config_text host o)) _
          e₁ in
      let (loaded, e₃, _) = >>=-eq-ok (load host o system) _ e₂ in
      simulate-IsSound fuel loaded.entry_point (initial_machine system loaded) s
        (initial_machine-IsSound system loaded) (if-ok (is_regular system.config) _ s e₃)

  -- A command line that names no object file ends in an error, whatever is configured.
  pub main-without_object :
      (fuel : ℕ) (args : List CString) (o : Options)
      → read_options args no_options ≡ ok o
      → o.elf_object ≡ none
      → o.custom_object ≡ none
      → main host fuel args ≡ exit
  unfolding main load configure allocate
  main-without_object fuel args o e h h' =
      let c = load_config_json host.get host.number host.parse (config_text host o) defaults in
      rw (e, main)
        (if-split
          (λ (m : Run System).
            (m >>= λ system. load host o system >>= λ loaded.
            if is_regular system.config
            then simulate fuel loaded.entry_point (initial_machine system loaded)
            else fault)
            ≡ exit)
          (granted host.calloc c) _ exit (rw (load, h, h') refl) refl)

  -- Where the command line is accepted and names an ELF file, the configuration succeeds, with the
  -- array for the instruction texts allocated, no size or latency negative and sets of blocks of
  -- whole words in every cache, the file is opened, its headers are read, and its segments are
  -- loadable and do not overlap, `main` is the simulation from the entry point, in a memory that
  -- holds the segments and is, outside them, as `configure` left it.
  pub main-elf_object :
      (fuel : ℕ) (args : List CString) (o : Options) (name : CString) (system : System) (fp : File)
      (ehdr : Header) (phdrs : List ProgramHeader)
      → read_options args no_options ≡ ok o
      → o.elf_object ≡ some name
      → configure host.calloc host.get host.number host.parse (config_text host o) ≡ ok system
      → system.has_instructions ≡ true
      → is_regular system.config ≡ true
      → host.binary_file name ≡ some fp
      → read_elf_header fp ≡ ok ehdr
      → read_program_headers host.fseek host.malloc fp ehdr ≡ ok phdrs
      → IsLayout host.fseek host.malloc fp (to_uint32 system.config.dram_size) phdrs
      → (loaded : Loaded) × (main host fuel args
          ≡ simulate fuel ehdr.e_entry (initial_machine system loaded))
        × ((a : ℕ) → covered phdrs a ≡ false → loaded.dram a ≡ system.dram a)
        × ((k a : ℕ) (ph : ProgramHeader)
            → get_elem? phdrs k ≡ some ph
            → covers ph a ≡ true
            → loaded.dram a ≡ segment_byte fp ph a)
  unfolding main load elf_loader keep_texts
  main-elf_object fuel args o name system fp ehdr phdrs e h e' texts natural file eh ep layout =
      let (next, el, outside, inside) =
        load_segments_lem host.fseek host.malloc fp (to_uint32 system.config.dram_size) phdrs
          system.dram (to_uint32-bound system.config.dram_size) layout in
      let loaded : Loaded = record {
        dram = next;
        instructions = fill_instruction_strings system.config.total_number_of_instructions 0;
        entry_point = ehdr.e_entry;
      } in
      (
        loaded,
        rw (main, e, e', load, h, elf_loader, file, eh, ep, el, keep_texts, texts, natural) refl,
        outside,
        inside,
      )
