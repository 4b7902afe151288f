-- ===== src/Command.antt =====
-- src/main.c: the command line, and the parts of the simulator in the order in which `main` runs
-- them. A return of EXIT_FAILURE is `exit`, like exit(1). The files that are written are not modelled.
pub mod Reading
pub mod Boot
pub mod Running
pub mod Tests
use risc_v_microarchitecture.Base.{
  ℕ, zero, suc, ◌==◌, Bool, true, false, ◌||◌, if◌then◌else◌, List, [], ◌∷◌, Option, none, some,
  Run, ok, exit, ◌>>=◌,
}
use risc_v_microarchitecture.Assembler.Text.{CString, bytes, same}

-- The variables that the loop over `argv` sets.
pub record Options : Type 0 where
  pub pip : Bool
  pub gen_trace : Bool
  pub mem_dump : Bool
  pub reg_dump : Bool
  pub log : Bool
  pub custom_object : Option CString
  pub elf_object : Option CString
  pub config : Option CString

abbrev pub no_options : Options
no_options = record {
  pip = false;
  gen_trace = false;
  mem_dump = false;
  reg_dump = false;
  log = false;
  custom_object = none;
  elf_object = none;
  config = none;
}

abbrev pub is_given : Option CString → Bool
is_given none = false
is_given (some s) = true

-- argv[i][0] == '-'
unfoldable pub is_flag : CString → Bool
is_flag [] = false
is_flag (c ∷ s) = c == b'-'

-- The argument behind -a, -e or -c.
unfoldable pub file_name : List CString → Run CString
file_name [] = exit
file_name (f ∷ args) = if is_flag f then exit else ok f

-- A flag that may stand once.
unfoldable pub take_flag : Bool → Options → Run (Bool × Options)
take_flag given next = if given then exit else ok (false, next)

-- One turn of the loop at `arg`, before `rest`: whether it takes the next argument too.
unfoldable pub read_option : CString → List CString → Options → Run (Bool × Options)
read_option arg rest o =
    if same arg (bytes "-p")
    then take_flag o.pip (record o { pip = true })
    else if same arg (bytes "-t")
    then take_flag o.gen_trace (record o { gen_trace = true })
    else if same arg (bytes "-m")
    then take_flag o.mem_dump (record o { mem_dump = true })
    else if same arg (bytes "-r")
    then take_flag o.reg_dump (record o { reg_dump = true })
    else if same arg (bytes "-l")
    then take_flag o.log (record o { log = true })
    else if same arg (bytes "-a")
    then (if is_given o.elf_object || is_given o.custom_object
        then exit
        else (file_name rest >>= λ f. ok (true, record o { custom_object = some f })))
    else if same arg (bytes "-e")
    then (if is_given o.custom_object || is_given o.elf_object
        then exit
        else (file_name rest >>= λ f. ok (true, record o { elf_object = some f })))
    else if same arg (bytes "-c")
    then (if is_given o.config
        then exit
        else (file_name rest >>= λ f. ok (true, record o { config = some f })))
    else exit

-- The loop, over the arguments behind argv[0].
unfoldable pub read_options : List CString → Options → Run Options
read_options [] o = ok o
read_options (arg ∷ []) o = read_option arg [] o >>= λ (taken, next). ok next
read_options (arg ∷ f ∷ args) o = read_option arg (f ∷ args) o >>= λ (taken, next). elim taken [
  | true ↦ read_options args next
  | false ↦ read_options (f ∷ args) next
]
