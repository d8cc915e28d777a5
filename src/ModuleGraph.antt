-- ===== src/ModuleGraph.antt =====
-- crates/module_graph/src/lib.rs: the module graph, its dependency-first order (`topo_sort`) and the
-- search for a cycle (`detect_cycles`).
-- A `HashMap` or `HashSet` is a list of entries or keys, whose order stands for the unspecified
-- order in which the map is walked; every theorem holds for every order.
pub mod Edges
pub mod Kahn
pub mod Paths
pub mod Cycles
pub mod Order
pub mod Sort
pub mod Build
pub mod Imports
mod Tests
use Prim.Native.String.{String}
use thagore.Base.Maps.{mem, lookup, insert, keys}
use thagore.Base.{
  ℕ, zero, suc, ◌+◌, ◌-◌, Bool, true, false, List, [], ◌∷◌, ◌++◌, Option, none, some, ◌==◌,
  if◌then◌else◌, length,
}

-- `ModuleId(u32)`
abbrev pub ModuleId : Type 0
ModuleId = ℕ

pub data ModuleSource : Type 0 where
  stdlib : ModuleSource
  dependency : String → String → ModuleSource
  project : ModuleSource
  relative : ModuleSource

pub record ModulePath : Type 0 where
  pub source : ModuleSource
  pub file_path : String

pub record ModuleGraph : Type 0 where
  pub nodes : List (ModuleId × ModulePath)
  pub edges : List (ModuleId × List ModuleId)
  pub topo_order : List ModuleId

-- `CycleError`
pub record CycleError : Type 0 where
  pub cycle : List ModuleId

-- The list under a key, empty where there is none: `entry(key).or_default()`, and the `if let` reads
-- of `edges` and `reverse_edges`, whose loops an empty list skips.
abbrev pub list_of : ModuleId → List (ModuleId × List ModuleId) → List ModuleId
list_of k m = elim (lookup k m) [ none ↦ [] | some xs ↦ xs ]

-- `self.nodes.keys().map(|id| (id, 0))`
abbrev zeros : List (ModuleId × ModulePath) → List (ModuleId × ℕ)
zeros [] = []
zeros ((id, path) ∷ nodes) = (id, 0) ∷ zeros nodes

-- The loop over the dependencies of one module.
pub reverse_deps :
    ModuleId → List ModuleId → List (ModuleId × List ModuleId) → List (ModuleId × List ModuleId)
reverse_deps id [] rev = rev
reverse_deps id (dep ∷ deps) rev =
    reverse_deps id deps (insert dep (list_of dep rev ++ id ∷ []) rev)

-- The loop over `edges`: the indegrees, and the importers of each module.
pub count_edges :
    List (ModuleId × List ModuleId)
    → List (ModuleId × ℕ)
    → List (ModuleId × List ModuleId)
    → List (ModuleId × ℕ) × List (ModuleId × List ModuleId)
count_edges [] indegree rev = (indegree, rev)
count_edges ((id, deps) ∷ edges) indegree rev =
    count_edges edges (insert id (length deps) indegree) (reverse_deps id deps rev)

-- The modules of indegree 0.
pub initial_ready : List (ModuleId × ℕ) → List ModuleId
initial_ready [] = []
initial_ready ((id, degree) ∷ m) = if degree == 0 then id ∷ initial_ready m else initial_ready m

-- The loop over the importers of the module that left the queue.
pub release :
    List ModuleId → List (ModuleId × ℕ) → List ModuleId → List (ModuleId × ℕ) × List ModuleId
release [] indegree ready = (indegree, ready)
release (importer ∷ importers) indegree ready = elim (lookup importer indegree) [
  | none ↦ release importers indegree ready
  | some degree ↦
      let left = degree - 1 in
      release importers (insert importer left indegree)
        (if left == 0 then ready ++ importer ∷ [] else ready)
]

-- The `while let` over the queue; `none` says that the fuel ran out.
pub kahn :
    ℕ
    → List (ModuleId × List ModuleId)
    → List (ModuleId × ℕ)
    → List ModuleId
    → List ModuleId
    → Option (List ModuleId)
kahn zero rev indegree ready order = elim ready [ [] ↦ some order | _ ∷ _ ↦ none ]
kahn (suc fuel) rev indegree ready order = elim ready [
  | [] ↦ some order
  | id ∷ rest ↦
      let (indegree', ready') = release (list_of id rev) indegree rest in
      kahn fuel rev indegree' ready' (order ++ id ∷ [])
]

-- The order that `topo_sort` computes before it compares lengths.
unfoldable pub kahn_order : ModuleGraph → Option (List ModuleId)
kahn_order graph =
    let (indegree, rev) = count_edges graph.edges (zeros graph.nodes) [] in
    kahn (length graph.nodes) rev indegree (initial_ready indegree) []

-- `VisitState`
pub data VisitState : Type 0 where
  visiting visited : VisitState

-- The `states`, `stack` (its bottom first) and `stack_set` of `detect_cycles`.
pub record Search : Type 0 where
  pub states : List (ModuleId × VisitState)
  pub stack : List ModuleId
  pub stack_set : List ModuleId

-- What a visit gives: `exhausted` says that the fuel ran out.
pub data Visit : Type 0 where
  cyclic : List ModuleId → Visit
  clear : Search → Visit
  exhausted : Visit

-- `stack[start..]`, `start` the position of `id` or 0.
pub from_first : ModuleId → List ModuleId → List ModuleId
from_first id [] = []
from_first id (x ∷ xs) = if x == id then x ∷ xs else from_first id xs

pub stack_from : ModuleId → List ModuleId → List ModuleId
stack_from id stack = if mem id stack then from_first id stack else stack

-- `Vec::pop` and `HashSet::remove`
pub pop : List ModuleId → List ModuleId
pop [] = []
pop (x ∷ []) = []
pop (x ∷ y ∷ xs) = x ∷ pop (y ∷ xs)

pub discard : ModuleId → List ModuleId → List ModuleId
discard id [] = []
discard id (x ∷ xs) = if x == id then discard id xs else x ∷ discard id xs

abbrev pub is_visited : ModuleId → Search → Bool
is_visited id s = elim (lookup id s.states) [
  | none ↦ false
  | some state ↦ elim state [ visiting ↦ false | visited ↦ true ]
]

abbrev pub enter : ModuleId → Search → Search
enter id s = record {
  states = insert id visiting s.states;
  stack = s.stack ++ id ∷ [];
  stack_set = if mem id s.stack_set then s.stack_set else id ∷ s.stack_set;
}

pub leave : ModuleId → Visit → Visit
leave id (clear s) = clear (record {
  states = insert id visited s.states;
  stack = pop s.stack;
  stack_set = discard id s.stack_set;
})
leave id (cyclic cycle) = cyclic cycle
leave id exhausted = exhausted

-- What a visit of a dependency leads to.
abbrev pub then_visit : Visit → (Search → Visit) → Visit
then_visit v next = elim v [
  | clear s ↦ next s
  | cyclic cycle ↦ cyclic cycle
  | exhausted ↦ exhausted
]

-- The loop of `dfs` over the dependencies.
pub visit_deps : (ModuleId → Search → Visit) → List ModuleId → Search → Visit
visit_deps visit [] s = clear s
visit_deps visit (dep ∷ deps) s =
    if mem dep s.stack_set
    then cyclic (stack_from dep s.stack ++ dep ∷ [])
    else if is_visited dep s
    then visit_deps visit deps s
    else then_visit (visit dep s) (visit_deps visit deps)

pub dfs : ℕ → List (ModuleId × List ModuleId) → ModuleId → Search → Visit
dfs zero edges id s = exhausted
dfs (suc fuel) edges id s = leave id (visit_deps (dfs fuel edges) (list_of id edges) (enter id s))

-- The loop of `detect_cycles` over the nodes.
pub visit_nodes : ℕ → List (ModuleId × List ModuleId) → List ModuleId → Search → Visit
visit_nodes fuel edges [] s = clear s
visit_nodes fuel edges (id ∷ ids) s =
    if mem id (keys s.states)
    then visit_nodes fuel edges ids s
    else then_visit (dfs fuel edges id s) (visit_nodes fuel edges ids)

abbrev pub no_search : Search
no_search = record { states = []; stack = []; stack_set = [] }

-- `exhausted` is excluded in ModuleGraph/Sort.
unfoldable pub detect_cycles : ModuleGraph → Visit
detect_cycles graph =
    visit_nodes (suc (length graph.nodes)) graph.edges (keys graph.nodes) no_search

-- The result of `topo_sort`: the graph with its order, or the cycle; `out_of_fuel` is excluded in
-- ModuleGraph/Sort.
pub data Sorted : Type 0 where
  ok : ModuleGraph → Sorted
  err : CycleError → Sorted
  out_of_fuel : Sorted

-- `CycleError::new(self.detect_cycles().unwrap_or_default())`
abbrev pub cycle_error : Visit → Sorted
cycle_error v = elim v [
  | cyclic cycle ↦ err (record { cycle = cycle })
  | clear s ↦ err (record { cycle = [] })
  | exhausted ↦ out_of_fuel
]

unfoldable pub topo_sort : ModuleGraph → Sorted
topo_sort graph = elim (kahn_order graph) [
  | none ↦ out_of_fuel
  | some order ↦
      if length order == length graph.nodes
      then ok (record graph { topo_order = order })
      else cycle_error (detect_cycles graph)
]
