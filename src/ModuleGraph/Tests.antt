-- ===== src/ModuleGraph/Tests.antt =====
-- A graph of two modules with an import, and one with a cycle.
use Prim.Native.String.{String}
use text.Mathlib.Text
use text.Mathlib.TextEquality.{eq_iff}
use thagore.Base.{
  Bool, ℕ, suc, if◌then◌else◌, none, false, true, ◌<◌, ◌≡◌, refl, List, [], ◌∷◌, arith, ◌↔◌,
}
use thagore.ModuleGraph.Build.{
  Outcome, Host, create, find_or_create, import_module, import_all, visit_module, build_loop, build,
}
use thagore.ModuleGraph.Build.Outcomes.{Holds}
use thagore.ModuleGraph.Build.Sound.{IsHost, IsBuilt, build-IsBuilt}
use thagore.ModuleGraph.Edges.{IsGraph}
use thagore.ModuleGraph.Paths.{IsCycle}
use thagore.ModuleGraph.Sort.{
  SortsTo, topo_sort-SortsTo, topo_sort-ok_iff, Finds, detect_cycles-Finds,
}
use thagore.ModuleGraph.{
  ModuleId, ModulePath, stdlib, project, ModuleGraph, reverse_deps, count_edges, initial_ready,
  release, kahn, kahn_order, from_first, stack_from, pop, discard, leave, visit_deps, dfs,
  visit_nodes, detect_cycles, ok, err, topo_sort,
}

abbrev two_modules : List (ModuleId × ModulePath)
two_modules =
    (1, record { source = project; file_path = "main.tg" })
    ∷ (2, record { source = stdlib; file_path = "io.tg" })
    ∷ []

-- `main` imports `io`.
abbrev importing : ModuleGraph
importing = record { nodes = two_modules; edges = (1, 2 ∷ []) ∷ (2, []) ∷ []; topo_order = [] }

-- The two modules import each other.
abbrev looped : ModuleGraph
looped = record { nodes = two_modules; edges = (1, 2 ∷ []) ∷ (2, 1 ∷ []) ∷ []; topo_order = [] }

importing-IsGraph : IsGraph importing.nodes importing.edges
importing-IsGraph = record {
  node_keys = refl;
  edge_keys = refl;
  sources = λ m h. ground arith;
  targets = λ m d h. ground arith;
}

looped-IsGraph : IsGraph looped.nodes looped.edges
looped-IsGraph = record {
  node_keys = refl;
  edge_keys = refl;
  sources = λ m h. ground arith;
  targets = λ m d h. ground arith;
}

sort_importing : topo_sort importing ≡ ok (record importing { topo_order = 2 ∷ 1 ∷ [] })
unfolding topo_sort kahn_order kahn count_edges reverse_deps initial_ready release
sort_importing = refl

sort_looped : topo_sort looped ≡ err (record { cycle = 1 ∷ 2 ∷ 1 ∷ [] })
unfolding topo_sort kahn_order kahn count_edges reverse_deps initial_ready release detect_cycles
    visit_nodes dfs visit_deps leave discard pop stack_from from_first
sort_looped = refl

topo_sort-SortsTo_example : SortsTo importing (topo_sort importing)
topo_sort-SortsTo_example = topo_sort-SortsTo importing importing-IsGraph

detect_cycles-Finds_example : Finds looped.edges (detect_cycles looped)
detect_cycles-Finds_example = detect_cycles-Finds looped looped-IsGraph

topo_sort-ok_iff_example :
    ((sorted : ModuleGraph) × (topo_sort looped ≡ ok sorted))
    ↔ ((cycle : List ModuleId) → IsCycle looped.edges cycle → ⊥)
topo_sort-ok_iff_example = topo_sort-ok_iff looped looped-IsGraph

-- Two files, the first of which imports the second.
abbrev two_files : Host
two_files = record {
  State = ℕ;
  canonicalize_existing =
      λ path. if Text.◌==◌ path "main.tg" then Outcome.ok "main.tg" else Outcome.ok "io.tg";
  imports_of = λ path.
      if Text.◌==◌ path "main.tg"
      then Outcome.ok
          (record { path = "io"; alias = none; line = 1; allow_parent_fallback = false } ∷ [])
      else Outcome.ok [];
  resolve_import =
      λ i path state. Outcome.ok (record { source = stdlib; file_path = "io.tg" }, suc state);
}

abbrev number_of : String → ℕ
number_of path = if Text.◌==◌ path "main.tg" then 0 else if Text.◌==◌ path "io.tg" then 1 else 2

number-lt :
    (entry : Bool) (file : String)
    → (if entry then Outcome.ok "main.tg" else Outcome.ok "io.tg") ≡ Outcome.ok file
    → number_of file < 2
number-lt true file h = let same : "main.tg" ≡ file = cc in rw (← same) (omega arith)
number-lt false file h = let same : "io.tg" ≡ file = cc in rw (← same) (omega arith)

two_files-IsHost : IsHost two_files 2 number_of
two_files-IsHost = record {
  canonicalize = λ path. ground arith;
  imports = λ path. ground arith;
  resolve = λ i path state. tt;
  bounded = λ path file. number-lt (Text.◌==◌ path "main.tg") file;
  injective = λ p q a b e.
      ground (arith, eq_iff p "main.tg", eq_iff p "io.tg", eq_iff q "main.tg", eq_iff q "io.tg");
  small = omega arith;
}

made_two_files :
    build two_files 3 "main.tg" 0
    ≡ Outcome.ok (record {
      nodes =
          (0, record { source = project; file_path = "main.tg" })
          ∷ (1, record { source = stdlib; file_path = "io.tg" })
          ∷ [];
      edges = (0, 1 ∷ []) ∷ (1, []) ∷ [];
      topo_order = 1 ∷ 0 ∷ [];
    })
unfolding build build_loop visit_module import_all import_module find_or_create create topo_sort
    kahn_order kahn count_edges reverse_deps initial_ready release
made_two_files = refl

build-IsBuilt_example :
    Holds (IsBuilt two_files 2 number_of two_files-IsHost "main.tg") (build two_files 3 "main.tg" 0)
build-IsBuilt_example =
    build-IsBuilt two_files 2 number_of two_files-IsHost 3 "main.tg" 0 (omega arith)
