-- ===== src/ModuleGraph/Kahn.antt =====
-- The loop of `topo_sort` (crates/module_graph/src/lib.rs): a module joins the order when all that it
-- imports stands there, and no module joins twice.
use thagore.Base.Maps.{
  mem, count, lookup, keys, count-append, mem-append, count-not_mem, count-mem, distinct_of_count,
  length-le_of_subset,
}
use thagore.Base.{
  ℕ, zero, suc, ◌+◌, ◌≤◌, ◌<◌, ◌≡◌, refl, true, false, List, [], ◌∷◌, ◌++◌, none, some, ◌==◌,
  if◌then◌else◌, length, arith, length-append, append-nil, append_assoc,
}
use thagore.ModuleGraph.Edges.{Edges, release-lookup, release-count, release-other}
use thagore.ModuleGraph.{ModuleId, ModulePath, list_of, release, kahn}

-- The dependencies that do not stand in the order yet, as often as they are imported.
abbrev pub outstanding : List ModuleId → List ModuleId → ℕ
outstanding order [] = 0
outstanding order (dep ∷ deps) = (if mem dep order then 0 else 1) + outstanding order deps

pub outstanding-nil : (deps : List ModuleId) → outstanding [] deps ≡ length deps
outstanding-nil [] = refl
outstanding-nil (dep ∷ deps) = omega (arith, outstanding-nil deps)

outstanding-concat :
    (order : List ModuleId) (x : ModuleId) (deps : List ModuleId)
    → mem x order ≡ false
    → outstanding (order ++ x ∷ []) deps + count x deps ≡ outstanding order deps
outstanding-concat order x [] h = refl
outstanding-concat order x (dep ∷ deps) h =
    ground (arith, outstanding-concat order x deps h, mem-append dep order (x ∷ []))

module _ (nodes : List (ModuleId × ModulePath)) (edges : Edges) (rev : Edges) where
  -- What the maps and lists of the loop say of one module.
  pub record Tracks (indegree : List (ModuleId × ℕ)) (ready order : List ModuleId) (m : ModuleId)
      : Type 0 where
    pub degree :
        lookup m indegree
        ≡ (if mem m (keys nodes) then some (outstanding order (list_of m edges)) else none)
    pub once : count m ready + count m order ≡ (
        if mem m (keys nodes)
        then (if outstanding order (list_of m edges) == 0 then 1 else 0)
        else 0)
    pub importers : (x : ModuleId) → count m (list_of x rev) ≡ count x (list_of m edges)

  step-Tracks :
      (indegree : List (ModuleId × ℕ)) (x : ModuleId) (rest order : List ModuleId) (m : ModuleId)
      → Tracks indegree (x ∷ rest) order x
      → Tracks indegree (x ∷ rest) order m
      → (let r = release (list_of x rev) indegree rest in Tracks r.0 r.1 (order ++ x ∷ []) m)
  step-Tracks indegree x rest order m tx tm =
      let importers = list_of x rev in
      let deps = list_of m edges in
      let left = outstanding order deps in
      let facts = outstanding-concat order x deps (ground (arith, count-mem x order)) in
      record {
        degree = ground (arith, facts, tm.importers x, release-lookup importers indegree rest m);
        once = ground (
          arith,
          facts,
          tm.importers x,
          count-append m order (x ∷ []),
          release-count importers indegree rest m left,
          release-other importers indegree rest m,
        );
        importers = tm.importers;
      }

  -- Each module of the list stands behind all that it imports, the modules `seen` standing first.
  abbrev pub IsOrdered : List ModuleId → List ModuleId → Type 0
  IsOrdered seen [] = Unit
  IsOrdered seen (m ∷ ms) = (outstanding seen (list_of m edges) ≡ 0) × IsOrdered (seen ++ m ∷ []) ms

  IsOrdered-concat :
      (seen ms : List ModuleId) (x : ModuleId)
      → IsOrdered seen ms
      → outstanding (seen ++ ms) (list_of x edges) ≡ 0
      → IsOrdered seen (ms ++ x ∷ [])
  IsOrdered-concat seen [] x o h = (rw append-nil at h, tt)
  IsOrdered-concat seen (m ∷ ms) x o h =
      (o.0, IsOrdered-concat (seen ++ m ∷ []) ms x o.1 (rw append_assoc h))

  -- The invariant of the loop.
  pub record Inv (indegree : List (ModuleId × ℕ)) (ready order : List ModuleId) : Type 0 where
    pub tracks : (m : ModuleId) → Tracks indegree ready order m
    pub ordered : IsOrdered [] order

  step-Inv :
      (indegree : List (ModuleId × ℕ)) (x : ModuleId) (rest order : List ModuleId)
      → Inv indegree (x ∷ rest) order
      → (let r = release (list_of x rev) indegree rest in Inv r.0 r.1 (order ++ x ∷ []))
  step-Inv indegree x rest order v = record {
    tracks = λ m. step-Tracks indegree x rest order m (v.tracks x) (v.tracks m);
    ordered = IsOrdered-concat [] order x v.ordered (ground (arith, v.tracks x));
  }

  -- Where the queue is empty the loop is over.
  pub record Done (order : List ModuleId) : Type 0 where
    pub final : List (ModuleId × ℕ)
    pub inv : Inv final [] order

  -- A module that waits is a module of the graph, and does not stand in the order.
  waiting :
      (indegree : List (ModuleId × ℕ)) (x : ModuleId) (rest order : List ModuleId)
      → Inv indegree (x ∷ rest) order
      → (mem x (keys nodes) ≡ true) × (mem x order ≡ false)
  waiting indegree x rest order v = ground (arith, v.tracks x, count-mem x order)

  -- The order holds modules of the graph, each once, so it is shorter than the graph where a module
  -- is missing.
  pub below_nodes :
      (indegree : List (ModuleId × ℕ)) (ready order : List ModuleId) (x : ModuleId)
      → Inv indegree ready order
      → mem x (keys nodes) ≡ true
      → mem x order ≡ false
      → length order < length (keys nodes)
  below_nodes indegree ready order x v node new =
      length-le_of_subset (x ∷ order) (keys nodes)
        (distinct_of_count (x ∷ order) (λ a. ground (arith, v.tracks a, count-not_mem x order)))
        (λ a p. ground (arith, v.tracks a, count-mem a order))

  pub kahn-Done :
      (fuel : ℕ) (indegree : List (ModuleId × ℕ)) (ready order : List ModuleId)
      → Inv indegree ready order
      → length (keys nodes) ≤ length order + fuel
      → (result : List ModuleId) × (kahn fuel rev indegree ready order ≡ some result) × Done result
  unfolding kahn
  kahn-Done zero indegree [] order v le = (order, refl, record { final = indegree; inv = v })
  kahn-Done (suc fuel) indegree [] order v le = (order, refl, record { final = indegree; inv = v })
  kahn-Done zero indegree (x ∷ rest) order v le =
      let (node, new) = waiting indegree x rest order v in
      absurd (omega (arith, below_nodes indegree (x ∷ rest) order x v node new))
  kahn-Done (suc fuel) indegree (x ∷ rest) order v le =
      let r = release (list_of x rev) indegree rest in
      kahn-Done fuel r.0 r.1 (order ++ x ∷ []) (step-Inv indegree x rest order v)
        (omega (arith, length-append order (x ∷ [])))
