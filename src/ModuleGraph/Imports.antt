-- ===== src/ModuleGraph/Imports.antt =====
-- crates/module_graph/src/import_table.rs: `ImportTable`, the symbols that the modules of a session export. A
-- `HashMap` by name is a list of entries.
pub mod Registered
mod Tests
use Prim.Native.String.{String}
use text.Mathlib.Text
use text.Mathlib.TextEquality.{eq_iff}
use text.Mathlib.TextPositions.{eq_refl}
use thagore.Base.Maps.{lookup, insert, lookup-insert}
use thagore.Base.{
  ℕ, ◌≡◌, refl, Bool, true, false, ◌||◌, List, [], ◌∷◌, ◌++◌, Option, none, some, ◌==◌,
  if◌then◌else◌, map, arith, append_assoc, ap, Bool-cases, inl, inr, ◌∙◌, sym,
}
use thagore.ModuleGraph.{ModuleId}

pub data SymbolKind : Type 0 where
  function struct const type : SymbolKind

pub data TypeSig : Type 0 where
  function_sig : List String → String → TypeSig
  struct_sig : String → TypeSig
  const_sig : String → TypeSig
  named : String → TypeSig

pub record ExportedSymbol : Type 0 where
  pub name : String
  pub qualified_name : String
  pub alias : Option String
  pub kind : SymbolKind
  pub type_sig : TypeSig

pub record ResolvedSymbol : Type 0 where
  pub module_id : ModuleId
  pub symbol : ExportedSymbol

pub record AmbiguousSymbol : Type 0 where
  pub name : String
  pub modules : List ModuleId

pub data Resolution : Type 0 where
  ok : Option ResolvedSymbol → Resolution
  err : AmbiguousSymbol → Resolution
  panicked : Resolution

abbrev pub value_of : {A : Type 0} → String → List (String × A) → Option A
value_of name [] = none
value_of name ((key, value) ∷ entries) =
    if Text.◌==◌ name key then some value else value_of name entries

abbrev pub put : {A : Type 0} → String → A → List (String × A) → List (String × A)
put name value [] = (name, value) ∷ []
put name value ((key, old) ∷ entries) =
    if Text.◌==◌ name key then (key, value) ∷ entries else (key, old) ∷ put name value entries

pub record ImportTable : Type 0 where
  pub exports : List (ModuleId × List ExportedSymbol)
  pub global_symbols : List (String × List ModuleId)
  pub module_labels : List (String × ModuleId)

abbrev pub new : ImportTable
new = record { exports = []; global_symbols = []; module_labels = [] }

-- The modules under a name, none where it has no entry.
abbrev pub ids_of : String → List (String × List ModuleId) → List ModuleId
ids_of name entries = elim (value_of name entries) [ none ↦ [] | some ids ↦ ids ]

-- The loop over the exports: `entry(name).or_default().push(id)`.
pub add_globals :
    ModuleId → List ExportedSymbol → List (String × List ModuleId) → List (String × List ModuleId)
add_globals id [] entries = entries
add_globals id (export ∷ exports) entries =
    add_globals id exports (put export.name (ids_of export.name entries ++ id ∷ []) entries)

unfoldable pub register_module_exports :
    ModuleId → String → List ExportedSymbol → ImportTable → ImportTable
register_module_exports id module_label exports table = record {
  exports = insert id exports table.exports;
  global_symbols = add_globals id exports table.global_symbols;
  module_labels = put module_label id table.module_labels;
}

-- `find` by the name.
abbrev pub find_named : String → List ExportedSymbol → Option ExportedSymbol
find_named name [] = none
find_named name (symbol ∷ symbols) =
    if Text.◌==◌ symbol.name name then some symbol else find_named name symbols

abbrev pub has_alias : String → ExportedSymbol → Bool
has_alias name symbol = elim symbol.alias [ none ↦ false | some alias ↦ Text.◌==◌ alias name ]

-- `find` by the name or the alias.
abbrev pub find_exported : String → List ExportedSymbol → Option ExportedSymbol
find_exported name [] = none
find_exported name (symbol ∷ symbols) =
    if Text.◌==◌ symbol.name name || has_alias name symbol
    then some symbol
    else find_exported name symbols

unfoldable pub lookup_qualified : String → String → ImportTable → Option ExportedSymbol
lookup_qualified module_label name table = elim (value_of module_label table.module_labels) [
  | none ↦ none
  | some id ↦ elim (lookup id table.exports) [
    | none ↦ none
    | some exports ↦ find_exported name exports
  ]
]

-- What one module gives under a name.
abbrev pub resolve_in : ModuleId → String → ImportTable → Resolution
resolve_in id name table = elim (lookup id table.exports) [
  | none ↦ ok none
  | some exports ↦ elim (find_named name exports) [
    | none ↦ ok none
    | some symbol ↦ ok (some (record { module_id = id; symbol = symbol }))
  ]
]

-- `modules[0]` panics on a name with an entry and no module.
abbrev pub resolve_among : List ModuleId → String → ImportTable → Resolution
resolve_among [] name table = panicked
resolve_among (id ∷ []) name table = resolve_in id name table
resolve_among (id ∷ other ∷ rest) name table =
    err (record { name = name; modules = id ∷ other ∷ rest })

unfoldable pub resolve_global : String → ImportTable → Resolution
resolve_global name table = elim (value_of name table.global_symbols) [
  | none ↦ ok none
  | some ids ↦ resolve_among ids name table
]

unfoldable pub module_exports : ModuleId → ImportTable → List ExportedSymbol
module_exports id table = elim (lookup id table.exports) [ none ↦ [] | some exports ↦ exports ]
