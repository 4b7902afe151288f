-- ===== src/Command/Reading.antt =====
-- The loop over the arguments in src/main.c.
use risc_v_microarchitecture.Base.{
  ◌≡◌, refl, ◌∙◌, arith, Bool, true, false, not, ◌||◌, ◌&&◌, if◌then◌else◌, List, [], ◌∷◌, Option,
  none, some, Run, ok, exit, ◌>>=◌, Ensures, Ensures-ok, Ensures-exit, Ensures-if, Ensures->>=,
  Ensures-then, if-split,
}
use risc_v_microarchitecture.Assembler.Text.{CString, bytes}
use risc_v_microarchitecture.Command.{
  Options, no_options, is_given, is_flag, file_name, take_flag, read_option, read_options,
}

-- At most one object file is named.
abbrev pub IsExclusive : Options → Type 0
IsExclusive o = (is_given o.custom_object && is_given o.elf_object) ≡ false

abbrev KeepsExclusive : Run (Bool × Options) → Type 0
KeepsExclusive = Ensures (λ v. IsExclusive v.1)

take_flag-IsExclusive :
    (given : Bool) (next : Options) → IsExclusive next → KeepsExclusive (take_flag given next)
unfolding take_flag
take_flag-IsExclusive given next h = Ensures-if given _ _ (Ensures-exit _) (Ensures-ok _ _ h)

set_file-IsExclusive :
    (given : Bool) (rest : List CString) (next : CString → Options)
    → (given ≡ false → (f : CString) → IsExclusive (next f))
    → KeepsExclusive (if given then exit else (file_name rest >>= λ f. ok (true, next f)))
set_file-IsExclusive true rest next h = Ensures-exit _
set_file-IsExclusive false rest next h = Ensures-then _ _ λ f. Ensures-ok _ _ (h refl f)

read_option-IsExclusive :
    (arg : CString) (rest : List CString) (o : Options)
    → IsExclusive o
    → KeepsExclusive (read_option arg rest o)
unfolding read_option
read_option-IsExclusive arg rest o h =
    let flag = take_flag-IsExclusive in
    let file = set_file-IsExclusive in
    if-split KeepsExclusive _ _ _ (flag o.pip _ h) (
      if-split KeepsExclusive _ _ _ (flag o.gen_trace _ h) (
        if-split KeepsExclusive _ _ _ (flag o.mem_dump _ h) (
          if-split KeepsExclusive _ _ _ (flag o.reg_dump _ h) (
            if-split KeepsExclusive _ _ _ (flag o.log _ h) (
              if-split KeepsExclusive _ _ _
                (file (is_given o.elf_object || is_given o.custom_object) rest _
                  λ e f. ground arith)
                (if-split KeepsExclusive _ _ _
                  (file (is_given o.custom_object || is_given o.elf_object) rest _
                    λ e f. ground arith)
                  (if-split KeepsExclusive _ _ _ (file (is_given o.config) rest _ λ e f. h)
                    (Ensures-exit _))))))))

either_way :
    (b : Bool) (x y : Run Options)
    → Ensures IsExclusive x
    → Ensures IsExclusive y
    → Ensures IsExclusive (elim b [ true ↦ x | false ↦ y ])
either_way true x y p q = p
either_way false x y p q = q

read_options-keeps :
    (args : List CString) (o : Options) → IsExclusive o → Ensures IsExclusive (read_options args o)
unfolding read_options
read_options-keeps [] o h = Ensures-ok _ o h
read_options-keeps (arg ∷ []) o h =
    Ensures->>= _ (read_option-IsExclusive arg [] o h) λ v p. Ensures-ok _ _ p
read_options-keeps (arg ∷ f ∷ args) o h =
    Ensures->>= _ (read_option-IsExclusive arg (f ∷ args) o h) λ (taken, next) p.
      either_way taken _ _ (read_options-keeps args next p) (read_options-keeps (f ∷ args) next p)

-- Whatever the arguments, a command line that is accepted names at most one object file.
pub read_options-IsExclusive :
    (args : List CString) (o : Options)
    → read_options args no_options ≡ ok o
    → (is_given o.custom_object && is_given o.elf_object) ≡ false
read_options-IsExclusive args o e = (read_options-keeps args no_options refl).ensured o e

-- A command line for given options.
abbrev flag : Bool → CString → List CString → List CString
flag true name args = name ∷ args
flag false name args = args

abbrev with_file : Option CString → CString → List CString → List CString
with_file none name args = args
with_file (some f) name args = name ∷ f ∷ args

unfoldable pub command_line : Options → List CString
command_line o = flag o.pip (bytes "-p") (
    flag o.gen_trace (bytes "-t") (
      flag o.mem_dump (bytes "-m") (
        flag o.reg_dump (bytes "-r") (
          flag o.log (bytes "-l") (
            with_file o.custom_object (bytes "-a")
              (with_file o.elf_object (bytes "-e") (with_file o.config (bytes "-c") [])))))))

abbrev pub names_file : Option CString → Bool
names_file none = true
names_file (some f) = not (is_flag f)

-- A flag leaves the arguments behind it to the loop.
read_options-flag :
    (given : Bool) (arg : CString) (args : List CString) (next : Bool → Options)
    → ((rest : List CString) → read_option arg rest (next false) ≡ ok (false, next true))
    → read_options (flag given arg args) (next false) ≡ read_options args (next given)
unfolding read_options
read_options-flag false arg args next h = refl
read_options-flag true arg [] next h = rw (h []) refl
read_options-flag true arg (f ∷ args) next h = rw (h (f ∷ args)) refl

-- A file name is taken with its option.
read_options-file :
    (file : Option CString) (arg : CString) (args : List CString) (next : Option CString → Options)
    → ((f : CString)
        → file ≡ some f
        → is_flag f ≡ false
        → read_option arg (f ∷ args) (next none) ≡ ok (true, next (some f)))
    → names_file file ≡ true
    → read_options (with_file file arg args) (next none) ≡ read_options args (next file)
unfolding read_options
read_options-file none arg args next h p = refl
read_options-file (some f) arg args next h p = rw (h f refl (ground arith)) refl

-- The arguments written out for options are read as these options, where at most one object file is
-- named and no file name starts with a dash.
pub read_options-command_line :
    (o : Options)
    → (is_given o.custom_object && is_given o.elf_object) ≡ false
    → names_file o.custom_object ≡ true
    → names_file o.elf_object ≡ true
    → names_file o.config ≡ true
    → read_options (command_line o) no_options ≡ ok o
unfolding command_line read_option read_options file_name take_flag
read_options-command_line o x a e c =
    let s = no_options in
    let no_files : Options = record o { custom_object = none; elf_object = none; config = none } in
    read_options-flag o.pip _ _ (λ b. record s { pip = b }) (λ r. refl)
    ∙ read_options-flag o.gen_trace _ _ (λ b. record s { pip = o.pip; gen_trace = b }) (λ r. refl)
    ∙ read_options-flag o.mem_dump _ _
        (λ b. record no_files { mem_dump = b; reg_dump = false; log = false }) (λ r. refl)
    ∙ read_options-flag o.reg_dump _ _ (λ b. record no_files { reg_dump = b; log = false })
        (λ r. refl)
    ∙ read_options-flag o.log _ _ (λ b. record no_files { log = b }) (λ r. refl)
    ∙ read_options-file o.custom_object _ _
        (λ f. record o { custom_object = f; elf_object = none; config = none }) (λ f i h. rw h refl)
        a
    ∙ read_options-file o.elf_object _ _ (λ f. record o { elf_object = f; config = none })
        (λ f i h.
          let one : (is_given o.custom_object && true) ≡ false = rw i at x in
          let free : is_given o.custom_object ≡ false = ground arith in rw (free, h) refl)
        e
    ∙ read_options-file o.config _ _ (λ f. record o { config = f }) (λ f i h. rw h refl) c
