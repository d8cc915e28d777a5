-- ===== src/ModuleGraph/Edges.antt =====
-- What the first loops of `topo_sort` (crates/module_graph/src/lib.rs) set up: the indegree of a
-- module is its number of dependencies, and the importers of a module are counted as often as they
-- import it.
use thagore.Base.Maps.{
  mem, count, distinct, lookup, insert, keys, count-append, lookup-insert, keys-insert,
  lookup-not_mem,
}
use thagore.Base.{
  ℕ, ◌+◌, ◌-◌, ◌≤◌, ◌≡◌, refl, true, false, ◌&&◌, List, [], ◌∷◌, ◌++◌, none, some, ◌==◌, ltb,
  if◌then◌else◌, length, arith, Option-cases, inl, inr,
}
use thagore.ModuleGraph.{
  ModuleId, ModulePath, list_of, zeros, reverse_deps, count_edges, initial_ready, release,
}

abbrev pub Edges : Type 0
Edges = List (ModuleId × List ModuleId)

zeros-lookup :
    (nodes : List (ModuleId × ModulePath)) (m : ModuleId)
    → lookup m (zeros nodes) ≡ (if mem m (keys nodes) then some 0 else none)
zeros-lookup [] m = refl
zeros-lookup ((id, path) ∷ nodes) m = ground (arith, zeros-lookup nodes m)

zeros-keys : (nodes : List (ModuleId × ModulePath)) → keys (zeros nodes) ≡ keys nodes
zeros-keys [] = refl
zeros-keys ((id, path) ∷ nodes) = ground (arith, zeros-keys nodes)

reverse_deps-count :
    (id : ModuleId) (deps : List ModuleId) (rev : Edges) (m x : ModuleId)
    → count m (list_of x (reverse_deps id deps rev))
      ≡ count m (list_of x rev) + (if id == m then count x deps else 0)
unfolding reverse_deps
reverse_deps-count id [] rev m x = ground arith
reverse_deps-count id (dep ∷ deps) rev m x = ground (
  arith,
  reverse_deps-count id deps (insert dep (list_of dep rev ++ id ∷ []) rev) m x,
  lookup-insert dep x (list_of dep rev ++ id ∷ []) rev,
  count-append m (list_of dep rev) (id ∷ []),
)

-- Of a key that does not stand in the list of edges.
list_of_not_mem : (m : ModuleId) (edges : Edges) → mem m (keys edges) ≡ false → list_of m edges ≡ []
list_of_not_mem m edges h = ground (arith, lookup-not_mem m edges)

count_edges-rev :
    (edges : Edges) (indegree : List (ModuleId × ℕ)) (rev : Edges) (m x : ModuleId)
    → distinct (keys edges) ≡ true
    → count m (list_of x (count_edges edges indegree rev).1)
      ≡ count m (list_of x rev) + count x (list_of m edges)
unfolding count_edges
count_edges-rev [] indegree rev m x d = ground arith
count_edges-rev ((id, deps) ∷ edges) indegree rev m x d = ground (
  arith,
  count_edges-rev edges (insert id (length deps) indegree) (reverse_deps id deps rev) m x,
  reverse_deps-count id deps rev m x,
  list_of_not_mem id edges,
)

count_edges-indegree :
    (edges : Edges) (indegree : List (ModuleId × ℕ)) (rev : Edges) (m : ModuleId)
    → distinct (keys edges) ≡ true
    → lookup m (count_edges edges indegree rev).0
      ≡ (if mem m (keys edges) then some (length (list_of m edges)) else lookup m indegree)
unfolding count_edges
count_edges-indegree [] indegree rev m d = refl
count_edges-indegree ((id, deps) ∷ edges) indegree rev m d = ground (
  arith,
  count_edges-indegree edges (insert id (length deps) indegree) (reverse_deps id deps rev) m,
  lookup-insert id m (length deps) indegree,
)

-- The loop over the edges adds no key, where every source is one.
count_edges-keys :
    (edges : Edges) (indegree : List (ModuleId × ℕ)) (rev : Edges) (ks : List ModuleId)
    → keys indegree ≡ ks
    → ((m : ModuleId) → mem m (keys edges) ≡ true → mem m ks ≡ true)
    → keys (count_edges edges indegree rev).0 ≡ ks
unfolding count_edges
count_edges-keys [] indegree rev ks e h = e
count_edges-keys ((id, deps) ∷ edges) indegree rev ks e h =
    count_edges-keys edges (insert id (length deps) indegree) (reverse_deps id deps rev) ks
      (ground (arith, keys-insert id (length deps) indegree, h id)) (λ m p. h m (ground arith))

-- How often a module is ready at the start.
initial_ready-count :
    (indegree : List (ModuleId × ℕ)) (m : ModuleId)
    → distinct (keys indegree) ≡ true
    → count m (initial_ready indegree)
      ≡ (elim (lookup m indegree) [ none ↦ 0 | some degree ↦ if degree == 0 then 1 else 0 ])
unfolding initial_ready
initial_ready-count [] m d = refl
initial_ready-count ((id, degree) ∷ rest) m d =
    ground (arith, initial_ready-count rest m, lookup-not_mem id rest)

-- What `release` leaves of the indegree, and how often it makes a module ready.
pub release-lookup :
    (importers : List ModuleId) (indegree : List (ModuleId × ℕ)) (ready : List ModuleId)
    (m : ModuleId)
    → lookup m (release importers indegree ready).0
      ≡ (elim (lookup m indegree) [ none ↦ none | some d ↦ some (d - count m importers) ])
unfolding release
release-lookup [] indegree ready m = ground arith
release-lookup (i ∷ importers) indegree ready m = elim (Option-cases (lookup i indegree)) [
  | inl e ↦ rw (e, release) (ground (arith, release-lookup importers indegree ready m))
  | inr (d, e) ↦
      rw (e, release)
        (ground (
          arith,
          release-lookup importers (insert i (d - 1) indegree)
              (if d - 1 == 0 then ready ++ i ∷ [] else ready) m,
          lookup-insert i m (d - 1) indegree,
        ))
]

-- A module becomes ready once, when its last outstanding import is released.
pub release-count :
    (importers : List ModuleId) (indegree : List (ModuleId × ℕ)) (ready : List ModuleId)
    (m degree : ℕ)
    → lookup m indegree ≡ some degree
    → count m importers ≤ degree
    → count m (release importers indegree ready).1
      ≡ count m ready + (if ltb 0 (count m importers) && degree == count m importers then 1 else 0)
unfolding release
release-count [] indegree ready m degree h le = ground arith
release-count (i ∷ importers) indegree ready m degree h le =
    elim (Option-cases (lookup i indegree)) [
      | inl e ↦ rw (e, release) (ground (arith, release-count importers indegree ready m degree h))
      | inr (d, e) ↦
          let ready' = if d - 1 == 0 then ready ++ i ∷ [] else ready in
          let rest = λ (k : ℕ). release-count importers (insert i (d - 1) indegree) ready' m k in
          rw (e, release)
            (ground (
              arith,
              rest degree,
              rest (degree - 1),
              lookup-insert i m (d - 1) indegree,
              count-append m ready (i ∷ []),
            ))
    ]

pub release-other :
    (importers : List ModuleId) (indegree : List (ModuleId × ℕ)) (ready : List ModuleId)
    (m : ModuleId)
    → lookup m indegree ≡ none
    → count m (release importers indegree ready).1 ≡ count m ready
unfolding release
release-other [] indegree ready m h = refl
release-other (i ∷ importers) indegree ready m h = elim (Option-cases (lookup i indegree)) [
  | inl e ↦ rw (e, release) (release-other importers indegree ready m h)
  | inr (d, e) ↦
      let ready' = if d - 1 == 0 then ready ++ i ∷ [] else ready in
      rw (e, release)
        (ground (
          arith,
          release-other importers (insert i (d - 1) indegree) ready' m,
          lookup-insert i m (d - 1) indegree,
          count-append m ready (i ∷ []),
        ))
]

-- A graph as `build` makes it: `nodes` and `edges` are maps, and an edge leads from a module of the
-- graph to a module of the graph.
pub record IsGraph (nodes : List (ModuleId × ModulePath)) (edges : Edges) : Type 0 where
  pub node_keys : distinct (keys nodes) ≡ true
  pub edge_keys : distinct (keys edges) ≡ true
  pub sources : (m : ModuleId) → mem m (keys edges) ≡ true → mem m (keys nodes) ≡ true
  pub targets : (m d : ModuleId) → mem d (list_of m edges) ≡ true → mem d (keys nodes) ≡ true

module _ (nodes : List (ModuleId × ModulePath)) (edges : Edges) (g : IsGraph nodes edges) where
  -- The indegrees and the queue that the loops start from.
  abbrev pub start_indegree : List (ModuleId × ℕ)
  start_indegree = (count_edges edges (zeros nodes) []).0

  pub start-lookup :
      (m : ModuleId)
      → lookup m start_indegree
        ≡ (if mem m (keys nodes) then some (length (list_of m edges)) else none)
  start-lookup m = ground (
    arith,
    count_edges-indegree edges (zeros nodes) [] m g.edge_keys,
    zeros-lookup nodes m,
    g.sources m,
    list_of_not_mem m edges,
  )

  pub start-importers :
      (m x : ModuleId)
      → count m (list_of x (count_edges edges (zeros nodes) []).1) ≡ count x (list_of m edges)
  start-importers m x = ground (arith, count_edges-rev edges (zeros nodes) [] m x g.edge_keys)

  start-keys : distinct (keys start_indegree) ≡ true
  start-keys =
      rw (count_edges-keys edges (zeros nodes) [] (keys nodes) (zeros-keys nodes) g.sources)
        g.node_keys

  pub start-ready :
      (m : ModuleId)
      → count m (initial_ready start_indegree)
        ≡ (if mem m (keys nodes) then (if length (list_of m edges) == 0 then 1 else 0) else 0)
  start-ready m = ground (arith, initial_ready-count start_indegree m start-keys, start-lookup m)
