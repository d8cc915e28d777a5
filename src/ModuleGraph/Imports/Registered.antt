-- ===== src/ModuleGraph/Imports/Registered.antt =====
-- What `ImportTable` (crates/module_graph/src/import_table.rs) gives of a module that was registered.
use Prim.Native.String.{String}
use text.Mathlib.Text
use text.Mathlib.TextEquality.{eq_iff}
use text.Mathlib.TextPositions.{eq_refl}
use thagore.Base.Maps.{lookup, lookup-insert}
use thagore.Base.{
  ◌≡◌, refl, List, [], ◌∷◌, ◌++◌, Option, none, some, if◌then◌else◌, map, arith, append_assoc, ap,
  Bool-cases, Option-cases, inl, inr, ◌∙◌, ◌⊎◌, ◌↔◌, ◌||◌, true,
}
use thagore.ModuleGraph.{ModuleId}
use thagore.ModuleGraph.Imports.{
  ExportedSymbol, Resolution, ok, err, value_of, put, ImportTable, ids_of, add_globals,
  register_module_exports, has_alias, find_named, find_exported, lookup_qualified, resolve_global,
  module_exports,
}

-- The exports of a name.
abbrev pub exports_named : String → List ExportedSymbol → List ExportedSymbol
exports_named name [] = []
exports_named name (symbol ∷ symbols) =
    if Text.◌==◌ symbol.name name
    then symbol ∷ exports_named name symbols
    else exports_named name symbols

value_of-put :
    {A : Type 0} (name other : String) (value : A) (entries : List (String × A))
    → value_of other (put name value entries)
      ≡ (if Text.◌==◌ name other then some value else value_of other entries)
value_of-put name other value [] = ground (arith, eq_iff name other, eq_iff other name)
value_of-put name other value ((key, old) ∷ entries) = ground (
  arith,
  eq_iff other key,
  eq_iff name key,
  eq_iff name other,
  value_of-put name other value entries,
)

-- The entry of a name behind the loop over the exports.
abbrev entry_after :
    ModuleId → String → List (String × List ModuleId) → List ExportedSymbol → Option (List ModuleId)
entry_after id name entries [] = value_of name entries
entry_after id name entries (symbol ∷ symbols) =
    some (ids_of name entries ++ id ∷ map (λ symbol. id) symbols)

entry-more :
    (id : ModuleId) (name : String) (entries after : List (String × List ModuleId))
    (symbols : List ExportedSymbol)
    → value_of name after ≡ some (ids_of name entries ++ id ∷ [])
    → entry_after id name after symbols
      ≡ some (ids_of name entries ++ id ∷ map (λ symbol. id) symbols)
entry-more id name entries after [] h = h
entry-more id name entries after (symbol ∷ symbols) h =
    let ids : ids_of name after ≡ ids_of name entries ++ id ∷ [] = ground (arith, h) in
    ap (λ (xs : List ModuleId). some (xs ++ id ∷ map (λ symbol. id) symbols)) ids
    ∙ ap some (append_assoc (ids_of name entries) (id ∷ []) (id ∷ map (λ symbol. id) symbols))

entry-same :
    (id : ModuleId) (name : String) (a b : List (String × List ModuleId))
    (symbols : List ExportedSymbol)
    → value_of name a ≡ value_of name b
    → entry_after id name a symbols ≡ entry_after id name b symbols
entry-same id name a b [] h = h
entry-same id name a b (symbol ∷ symbols) h =
    let ids : ids_of name a ≡ ids_of name b = ground (arith, h) in
    ap (λ (xs : List ModuleId). some (xs ++ id ∷ map (λ symbol. id) symbols)) ids

add_globals-entry :
    (id : ModuleId) (name : String) (exports : List ExportedSymbol)
    (entries : List (String × List ModuleId))
    → value_of name (add_globals id exports entries)
      ≡ entry_after id name entries (exports_named name exports)
unfolding add_globals
add_globals-entry id name [] entries = refl
add_globals-entry id name (export ∷ exports) entries =
    let ids = ids_of export.name entries ++ id ∷ [] in
    let step = value_of-put export.name name ids entries in
    let rest = add_globals-entry id name exports (put export.name ids entries) in
    elim (Bool-cases (Text.◌==◌ export.name name)) [
      | inl e ↦
          let same : export.name ≡ name = ground (arith, eq_iff export.name name) in
          let here : value_of name (put export.name ids entries)
              ≡ some (ids_of name entries ++ id ∷ []) =
            ground (arith, step, e, same) in
          rw e (
            rest
            ∙ entry-more id name entries (put export.name ids entries) (exports_named name exports)
                here)
      | inr e ↦
          let here : value_of name (put export.name ids entries) ≡ value_of name entries =
            ground (arith, step, e) in
          rw e (
            rest
            ∙ entry-same id name (put export.name ids entries) entries (exports_named name exports)
                here)
    ]

find_named-first :
    (name : String) (exports : List ExportedSymbol)
    → find_named name exports
      ≡ (elim (exports_named name exports) [ [] ↦ none | symbol ∷ rest ↦ some symbol ])
find_named-first name [] = refl
find_named-first name (symbol ∷ symbols) = ground (arith, find_named-first name symbols)

-- What `include all` is to give of a name that one module exports in this list.
abbrev pub expected : ModuleId → String → List ExportedSymbol → Resolution
expected id name [] = ok none
expected id name (symbol ∷ []) = ok (some (record { module_id = id; symbol = symbol }))
expected id name (symbol ∷ other ∷ rest) =
    err (record { name = name; modules = id ∷ id ∷ map (λ symbol. id) rest })

resolve-expected :
    (id : ModuleId) (name : String) (table : ImportTable) (exports symbols : List ExportedSymbol)
    (entries : List (String × List ModuleId))
    → value_of name entries ≡ none
    → value_of name table.global_symbols ≡ entry_after id name entries symbols
    → lookup id table.exports ≡ some exports
    → find_named name exports ≡ (elim symbols [ [] ↦ none | symbol ∷ rest ↦ some symbol ])
    → resolve_global name table ≡ expected id name symbols
unfolding resolve_global
resolve-expected id name table exports [] entries new_name entry found first =
    ground (arith, entry, new_name)
resolve-expected id name table exports (symbol ∷ []) entries new_name entry found first =
    ground (arith, entry, new_name, found, first)
resolve-expected id name table exports (symbol ∷ other ∷ rest) entries new_name entry found first =
    ground (arith, entry, new_name)

-- Behind `register_module_exports` of a module, `resolve_global` of a name that no module exported before
-- gives nothing if the module does not export the name, the module's symbol if it exports the name
-- once, and an ambiguity if it exports the name more often, with the module named each time.
pub resolve_global-register :
    (id : ModuleId) (module_label name : String) (exports : List ExportedSymbol)
    (table : ImportTable)
    → value_of name table.global_symbols ≡ none
    → resolve_global name (register_module_exports id module_label exports table)
      ≡ expected id name (exports_named name exports)
unfolding register_module_exports
resolve_global-register id module_label name exports table new_name =
    let after = register_module_exports id module_label exports table in
    resolve-expected id name after exports (exports_named name exports) table.global_symbols
      new_name (add_globals-entry id name exports table.global_symbols)
      (ground (arith, lookup-insert id id exports table.exports)) (find_named-first name exports)

-- A symbol answers to its name and to its alias.
abbrev pub AnswersTo : String → ExportedSymbol → Type 0
AnswersTo name symbol = (symbol.name ≡ name) ⊎ (symbol.alias ≡ some name)

abbrev pub NoneAnswers : String → List ExportedSymbol → Type 0
NoneAnswers name [] = Unit
NoneAnswers name (symbol ∷ symbols) = (AnswersTo name symbol → ⊥) × NoneAnswers name symbols

-- The first symbol that answers, or none where no symbol does.
pub data Finds (name : String) (symbols : List ExportedSymbol)
    : Option ExportedSymbol → Type 0 where
  first :
      (symbol : ExportedSymbol) (before after : List ExportedSymbol)
      → symbols ≡ before ++ symbol ∷ after
      → NoneAnswers name before
      → AnswersTo name symbol
      → Finds name symbols (some symbol)
  nothing : NoneAnswers name symbols → Finds name symbols none

has_alias-answers :
    (name : String) (symbol : ExportedSymbol)
    → (has_alias name symbol ≡ true) ↔ (symbol.alias ≡ some name)
has_alias-answers name symbol = elim (Option-cases symbol.alias) [
  | inl e ↦ ground (arith, e)
  | inr (alias, e) ↦ ground (arith, e, eq_iff alias name)
]

answers_iff :
    (name : String) (symbol : ExportedSymbol)
    → (Text.◌==◌ symbol.name name || has_alias name symbol ≡ true) ↔ AnswersTo name symbol
answers_iff name symbol = ground (arith, eq_iff symbol.name name, has_alias-answers name symbol)

Finds-later :
    (name : String) (symbol : ExportedSymbol) (symbols : List ExportedSymbol)
    (r : Option ExportedSymbol)
    → (AnswersTo name symbol → ⊥)
    → Finds name symbols r
    → Finds name (symbol ∷ symbols) r
Finds-later name symbol symbols r silent (first found before after e none_before answers) =
    first found (symbol ∷ before) after (ap (λ xs. symbol ∷ xs) e) (silent, none_before) answers
Finds-later name symbol symbols r silent (nothing h) = nothing (silent, h)

find_exported-Finds :
    (name : String) (symbols : List ExportedSymbol)
    → Finds name symbols (find_exported name symbols)
find_exported-Finds name [] = nothing tt
find_exported-Finds name (symbol ∷ symbols) =
    let answers = answers_iff name symbol in
    elim (Bool-cases (Text.◌==◌ symbol.name name || has_alias name symbol)) [
      | inl t ↦ rw t (first symbol [] symbols refl tt (answers.0 t))
      | inr f ↦ rw f (
          Finds-later name symbol symbols _ (λ a. absurd (cc (f, answers.1 a)))
            (find_exported-Finds name symbols))
    ]

-- Behind `register_module_exports` a name that is looked up in the module of the label is the first export
-- that has it as its name or its alias, and nothing where no export does; and `module_exports` gives the exports of
-- the module.
pub lookup_qualified-register :
    (id : ModuleId) (module_label name : String) (exports : List ExportedSymbol)
    (table : ImportTable)
    → (let after = register_module_exports id module_label exports table in
        Finds name exports (lookup_qualified module_label name after)
        × (module_exports id after ≡ exports))
unfolding lookup_qualified register_module_exports module_exports
lookup_qualified-register id module_label name exports table =
    let same_label = value_of-put module_label module_label id table.module_labels in
    let own = lookup-insert id id exports table.exports in
    let after = register_module_exports id module_label exports table in
    let same : lookup_qualified module_label name after ≡ find_exported name exports =
      ground (arith, same_label, eq_refl module_label, own) in
    (rw same (find_exported-Finds name exports), ground (arith, own))
