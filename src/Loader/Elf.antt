-- ===== src/Loader/Elf.antt =====
-- src/utils/elf_loader.c over the bytes of the file. The structures and constants are those of the
-- ELF specification: a header of 52 bytes, program headers of 32, in little endian order, which is
-- the order of the host. `fseek` and `malloc` tell whether a call succeeds. The -1 of the source,
-- which `main` turns into exit(1), is `exit`.
pub mod Segments
use risc_v_microarchitecture.Base.{
  ℕ, zero, suc, ◌+◌, ◌-◌, ◌*◌, ◌%◌, ◌^◌, min, ◌==◌, ltb, leb, not, ◌||◌, ◌&&◌, if◌then◌else◌, Bool,
  true, false, add32, sub32, List, [], ◌∷◌, ◌++◌, Option, none, some, Run, ok, exit, fault, ◌>>=◌,
}
use risc_v_microarchitecture.Assembler.Text.{CString, bytes}
use risc_v_microarchitecture.Loader.Listing.{hex8}

pub record File : Type 0 where
  pub size : ℕ
  pub byte : ℕ → ℕ

-- The fields of an Elf32_Ehdr that are read.
pub record Header : Type 0 where
  pub e_type : ℕ
  pub e_machine : ℕ
  pub e_entry : ℕ
  pub e_phoff : ℕ
  pub e_phnum : ℕ

-- The fields of an Elf32_Phdr that are read.
pub record ProgramHeader : Type 0 where
  pub p_type : ℕ
  pub p_offset : ℕ
  pub p_vaddr : ℕ
  pub p_filesz : ℕ
  pub p_memsz : ℕ

abbrev pub half_at : File → ℕ → ℕ
half_at fp a = fp.byte a + fp.byte (a + 1) * 2 ^ 8

abbrev pub word_at : File → ℕ → ℕ
word_at fp a =
    fp.byte a + fp.byte (a + 1) * 2 ^ 8 + fp.byte (a + 2) * 2 ^ 16 + fp.byte (a + 3) * 2 ^ 24

abbrev header_at : File → Header
header_at fp = record {
  e_type = half_at fp 16;
  e_machine = half_at fp 18;
  e_entry = word_at fp 24;
  e_phoff = word_at fp 28;
  e_phnum = half_at fp 44;
}

-- ELFMAG
abbrev has_magic : File → Bool
has_magic fp = fp.byte 0 == 0x7f && (fp.byte 1 == b'E' && (fp.byte 2 == b'L' && fp.byte 3 == b'F'))

-- Behind the magic number: ELFCLASS32, ELFDATA2LSB, EM_RISCV and ET_EXEC.
unfoldable pub read_elf_header : File → Run Header
read_elf_header fp =
    let ehdr = header_at fp in
    if ltb fp.size 52
    then exit
    else if not (has_magic fp)
    then exit
    else if not (fp.byte 4 == 1)
    then exit
    else if not (fp.byte 5 == 1)
    then exit
    else if not (ehdr.e_machine == 243)
    then exit
    else if not (ehdr.e_type == 2)
    then exit
    else if ehdr.e_phoff == 0 || ehdr.e_phnum == 0
    then exit
    else ok ehdr

abbrev pub program_header_at : File → ℕ → ProgramHeader
program_header_at fp a = record {
  p_type = word_at fp a;
  p_offset = word_at fp (a + 4);
  p_vaddr = word_at fp (a + 8);
  p_filesz = word_at fp (a + 16);
  p_memsz = word_at fp (a + 20);
}

-- The array that `fread` fills.
unfoldable pub headers_at : File → ℕ → ℕ → List ProgramHeader
headers_at fp a zero = []
headers_at fp a (suc n) = program_header_at fp a ∷ headers_at fp (a + 32) n

-- `fread(dram + vaddr, 1, n, fp)` at an offset: the bytes that the file has.
abbrev pub copy : File → ℕ → ℕ → ℕ → (ℕ → ℕ) → ℕ → ℕ
copy fp offset vaddr n dram a =
    if leb vaddr a && ltb a (vaddr + n) then fp.byte (offset + (a - vaddr)) else dram a

-- `memset(dram + start, 0, n)`
abbrev pub clear : ℕ → ℕ → (ℕ → ℕ) → ℕ → ℕ
clear start n dram a = if leb start a && ltb a (start + n) then 0 else dram a

-- Whether `n` bytes from `start` on reach beyond the array.
abbrev pub overruns : ℕ → ℕ → ℕ → Bool
overruns dram_size start n = ltb 0 n && ltb dram_size (start + n)

module _ (fseek : ℕ → Bool) (malloc : ℕ → Bool) (fp : File) where
  unfoldable pub read_program_headers : Header → Run (List ProgramHeader)
  read_program_headers ehdr =
      if not (malloc (ehdr.e_phnum * 32))
      then exit
      else if not (fseek ehdr.e_phoff)
      then exit
      else if ltb fp.size (ehdr.e_phoff + ehdr.e_phnum * 32)
      then exit
      else ok (headers_at fp ehdr.e_phoff ehdr.e_phnum)

  -- One turn of the loop: PT_LOAD is 1. The sum is one of uint32_t; the pointers are not.
  unfoldable pub load_segment : ℕ → ProgramHeader → (ℕ → ℕ) → Run (ℕ → ℕ)
  load_segment dram_size ph dram =
      let count = min ph.p_filesz (fp.size - ph.p_offset) in
      let rest = sub32 ph.p_memsz ph.p_filesz in
      if not (ph.p_type == 1)
      then ok dram
      else if ltb dram_size (add32 ph.p_vaddr ph.p_memsz)
      then exit
      else if not (fseek ph.p_offset)
      then exit
      else if overruns dram_size ph.p_vaddr count
      then fault
      else if not (count == ph.p_filesz)
      then exit
      else if overruns dram_size (ph.p_vaddr + ph.p_filesz) rest
      then fault
      else ok
          (clear (ph.p_vaddr + ph.p_filesz) rest (copy fp ph.p_offset ph.p_vaddr ph.p_filesz dram))

  unfoldable pub load_segments : ℕ → List ProgramHeader → (ℕ → ℕ) → Run (ℕ → ℕ)
  load_segments dram_size [] dram = ok dram
  load_segments dram_size (ph ∷ phdrs) dram =
      load_segment dram_size ph dram >>= λ next. load_segments dram_size phdrs next

-- The texts of the instructions: "     0x%08x     " of the address.
unfoldable pub fill_instruction_strings : ℕ → ℕ → List CString
fill_instruction_strings zero j = []
fill_instruction_strings (suc n) j =
    (bytes "     0x" ++ (hex8 j ++ bytes "     ")) ∷ fill_instruction_strings n ((j + 4) % 2 ^ 32)

-- The memory, the texts and the entry point.
pub record Loaded : Type 0 where
  pub dram : ℕ → ℕ
  pub instructions : List CString
  pub entry_point : ℕ

-- `file` is none where it cannot be opened.
unfoldable pub elf_loader : (ℕ → Bool) → (ℕ → Bool) → Option File → ℕ → ℕ → (ℕ → ℕ) → Run Loaded
elf_loader fseek malloc none dram_size total dram = exit
elf_loader fseek malloc (some fp) dram_size total dram = read_elf_header fp >>= λ ehdr.
    read_program_headers fseek malloc fp ehdr >>= λ phdrs.
    load_segments fseek malloc fp dram_size phdrs dram >>= λ next. ok (record {
      dram = next;
      instructions = fill_instruction_strings total 0;
      entry_point = ehdr.e_entry;
    })
