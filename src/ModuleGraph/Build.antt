-- ===== src/ModuleGraph/Build.antt =====
-- crates/module_graph/src/lib.rs: `ModuleGraph::build`, which follows the imports from the entry of a program.
pub mod Outcomes
pub mod Links
pub mod Traced
pub mod Followed
pub mod Sound
use Prim.Native.String.{String}
use text.Mathlib.Text
use thagore.Base.Maps.{mem, lookup, insert}
use thagore.Base.{
  ℕ, zero, suc, ◌+◌, Bool, List, [], ◌∷◌, ◌++◌, Option, none, some, ltb, u32_limit, if◌then◌else◌,
}
use thagore.ModuleGraph.{
  ModuleId, ModulePath, ModuleSource, project, ModuleGraph, CycleError, Sorted, topo_sort,
}

pub record ImportSpec : Type 0 where
  pub path : String
  pub alias : Option String
  pub line : ℕ
  pub allow_parent_fallback : Bool

pub data ModuleError : Type 0 where
  entry_not_found : String → ModuleError
  io : String → String → ModuleError
  invalid_import : String → ℕ → String → ModuleError
  resolve_import : String → String → String → ModuleError
  cycle : CycleError → ModuleError

-- A result, or `panicked` where an `expect` fails, `overflow` where `next_id` leaves `u32`, and
-- `out_of_fuel` where the model stops.
pub data Outcome (A : Type 0) : Type 0 where
  ok : A → Outcome A
  err : ModuleError → Outcome A
  panicked overflow out_of_fuel : Outcome A

abbrev pub then_do : {A B : Type 0} → Outcome A → (A → Outcome B) → Outcome B
then_do (ok a) f = f a
then_do (err e) f = err e
then_do panicked f = panicked
then_do overflow f = overflow
then_do out_of_fuel f = out_of_fuel

-- The newest entry of a path counts.
abbrev pub lookup_path : String → List (String × ModuleId) → Option ModuleId
lookup_path path [] = none
lookup_path path ((key, id) ∷ entries) =
    if Text.◌==◌ key path then some id else lookup_path path entries

-- The file system, the text of a module's imports, and a resolver with its state.
pub record Host : Type 1 where
  pub State : Type 0
  pub canonicalize_existing : String → Outcome String
  pub imports_of : String → Outcome (List ImportSpec)
  pub resolve_import : ImportSpec → String → State → Outcome (ModulePath × State)

module _ (host : Host) where
  -- The local variables of `build`.
  pub record Builder : Type 0 where
    pub nodes : List (ModuleId × ModulePath)
    pub edges : List (ModuleId × List ModuleId)
    pub next_id : ℕ
    pub by_path : List (String × ModuleId)
    pub pending : List ModuleId
    pub resolver : host.State

  -- A module that is new: its identifier, and the state with it.
  unfoldable pub create : ModuleSource → String → Builder → Outcome (ModuleId × Builder)
  create source path b =
      if ltb (b.next_id + 1) u32_limit
      then ok (
        b.next_id,
        record b {
          nodes = insert b.next_id (record { source = source; file_path = path }) b.nodes;
          edges = insert b.next_id [] b.edges;
          next_id = b.next_id + 1;
          by_path = (path, b.next_id) ∷ b.by_path;
          pending = b.pending ++ b.next_id ∷ [];
        },
      )
      else overflow

  -- The identifier of a canonical path.
  unfoldable pub find_or_create : ModuleSource → String → Builder → Outcome (ModuleId × Builder)
  find_or_create source path b = elim (lookup_path path b.by_path) [
    | some existing ↦ ok (existing, b)
    | none ↦ create source path b
  ]

  -- The body of the loop over the imports, up to the edge.
  unfoldable pub import_module : ImportSpec → String → Builder → Outcome (ModuleId × Builder)
  import_module import_spec from_file b =
      then_do (host.resolve_import import_spec from_file b.resolver) λ (resolved, state).
        then_do (host.canonicalize_existing resolved.file_path)
          λ canonical. find_or_create resolved.source canonical (record b { resolver = state })

  -- The loop over the imports.
  unfoldable pub import_all :
      List ImportSpec → String → List ModuleId → Builder → Outcome (List ModuleId × Builder)
  import_all [] from_file discovered b = ok (discovered, b)
  import_all (import_spec ∷ imports) from_file discovered b =
      then_do (import_module import_spec from_file b) λ (dep, c).
        import_all imports from_file
          (if mem dep discovered then discovered else discovered ++ dep ∷ []) c

  -- The body of the loop over the queue.
  unfoldable pub visit_module : ModuleId → Builder → Outcome Builder
  visit_module id b = elim (lookup id b.nodes) [
    | none ↦ panicked
    | some path ↦ then_do (host.imports_of path.file_path) λ imports.
        then_do (import_all imports path.file_path [] b)
          λ (discovered, c). ok (record c { edges = insert id discovered c.edges })
  ]

  unfoldable pub build_loop : ℕ → Builder → Outcome Builder
  build_loop zero b = out_of_fuel
  build_loop (suc fuel) b = elim b.pending [
    | [] ↦ ok b
    | id ∷ rest ↦ then_do (visit_module id (record b { pending = rest })) λ c. build_loop fuel c
  ]

  abbrev pub sorted_graph : Sorted → Outcome ModuleGraph
  sorted_graph (Sorted.ok graph) = ok graph
  sorted_graph (Sorted.err e) = err (cycle e)
  sorted_graph Sorted.out_of_fuel = out_of_fuel

  abbrev pub start : String → host.State → Builder
  start path state = record {
    nodes = (0, record { source = project; file_path = path }) ∷ [];
    edges = (0, []) ∷ [];
    next_id = 1;
    by_path = (path, 0) ∷ [];
    pending = 0 ∷ [];
    resolver = state;
  }

  abbrev pub unsorted : Builder → ModuleGraph
  unsorted b = record { nodes = b.nodes; edges = b.edges; topo_order = [] }

  unfoldable pub build : ℕ → String → host.State → Outcome ModuleGraph
  build fuel entry state = then_do (host.canonicalize_existing entry) λ path.
      then_do (build_loop fuel (start path state)) λ b. sorted_graph (topo_sort (unsorted b))
