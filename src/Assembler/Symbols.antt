-- ===== src/Assembler/Symbols.antt =====
-- src/assembler/core/symbol_table.c. The linked list with its newest node first; the name of a
-- node is a buffer of 256 characters.
use risc_v_microarchitecture.Base.{ℕ, ltb, if◌then◌else◌, List, [], ◌∷◌, Option, none, some}
use risc_v_microarchitecture.Assembler.Text.{CString, same, length}

pub record SymbolNode : Type 0 where
  pub name : CString
  pub address : ℕ

abbrev pub SymbolTable : Type 0
SymbolTable = List SymbolNode

unfoldable pub get_symbol : CString → SymbolTable → Option SymbolNode
get_symbol s [] = none
get_symbol s (node ∷ rest) =
    let found = get_symbol s rest in if same node.name s then some node else found

-- The -1 of `get_address` is `none`.
unfoldable pub get_address : CString → SymbolTable → Option ℕ
get_address s head = elim (get_symbol s head) [ none ↦ none | some node ↦ some node.address ]

-- The table with the symbol; the -1 of `add_symbol` is `none`.
unfoldable pub add_symbol : CString → ℕ → SymbolTable → Option SymbolTable
add_symbol s address head = if ltb 255 (length s) then none else (elim (get_symbol s head) [
  | none ↦ some (record { name = s; address = address } ∷ head)
  | some node ↦ none
])
