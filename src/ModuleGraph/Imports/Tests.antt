-- ===== src/ModuleGraph/Imports/Tests.antt =====
-- A module that exports two names, one of them twice.
use Prim.Native.String.{String}
use thagore.Base.{◌≡◌, refl, List, [], ◌∷◌, none}
use thagore.ModuleGraph.Imports
use thagore.ModuleGraph.Imports.Registered.{
  expected, Finds, exports_named, resolve_global-register, lookup_qualified-register,
}
use thagore.ModuleGraph.Imports.{
  SymbolKind, TypeSig, ExportedSymbol, AmbiguousSymbol, Resolution, register_module_exports,
  add_globals, resolve_global, lookup_qualified, find_exported, module_exports,
}

abbrev symbol : String → ExportedSymbol
symbol name = record {
  name = name;
  qualified_name = name;
  alias = none;
  kind = SymbolKind.const;
  type_sig = TypeSig.const_sig "i32";
}

abbrev exported : List ExportedSymbol
exported = symbol "a" ∷ symbol "b" ∷ symbol "a" ∷ []

resolved_twice :
    resolve_global "a" (register_module_exports 7 "m" exported Imports.new)
    ≡ Resolution.err (record { name = "a"; modules = 7 ∷ 7 ∷ [] })
unfolding resolve_global register_module_exports add_globals
resolved_twice = refl

resolve_global-register_example :
    resolve_global "b" (register_module_exports 7 "m" exported Imports.new)
    ≡ expected 7 "b" (exports_named "b" exported)
resolve_global-register_example = resolve_global-register 7 "m" "b" exported Imports.new refl

lookup_qualified-register_example :
    (let after = register_module_exports 7 "m" exported Imports.new in
      Finds "b" exported (lookup_qualified "m" "b" after) × (module_exports 7 after ≡ exported))
lookup_qualified-register_example = lookup_qualified-register 7 "m" "b" exported Imports.new
