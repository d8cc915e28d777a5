-- ===== src/ModuleGraph/Sort.antt =====
-- What `topo_sort` and `detect_cycles` (crates/module_graph/src/lib.rs) give: an order in which every
-- module stands behind all that it imports, or a cycle.
use thagore.Base.Maps.{
  mem, count, keys, count-mem, count-not_mem, distinct_of_count, length-le_of_subset,
}
use thagore.Base.{
  suc, ◌≤◌, ◌≡◌, ◌↔◌, refl, ap, Bool, true, false, not, ◌&&◌, List, [], ◌∷◌, ◌++◌, some, ◌==◌,
  if◌then◌else◌, length, arith, Bool-cases, inl, inr, ◌⊎◌,
}
use thagore.ModuleGraph.Cycles.{Visits, visit_nodes-Visits}
use thagore.ModuleGraph.Edges.{
  Edges, IsGraph, start_indegree, start-lookup, start-importers, start-ready,
}
use thagore.ModuleGraph.Kahn
use thagore.ModuleGraph.Kahn.{outstanding, outstanding-nil, IsOrdered, Done, below_nodes, kahn-Done}
use thagore.ModuleGraph.Order.{outstanding-found, ordered-behind, ordered-avoids}
use thagore.ModuleGraph.Paths.{IsPath, IsCycle, IsPath-next}
use thagore.ModuleGraph.{
  ModuleId, ModulePath, ModuleGraph, list_of, zeros, count_edges, initial_ready, kahn_order, Search,
  Visit, cyclic, clear, exhausted, no_search, detect_cycles, Sorted, ok, err, out_of_fuel,
  topo_sort,
}

length-keys : (nodes : List (ModuleId × ModulePath)) → length (keys nodes) ≡ length nodes
length-keys [] = refl
length-keys (n ∷ nodes) = ap suc (length-keys nodes)

-- What `detect_cycles` promises of its result.
abbrev pub Finds : Edges → Visit → Type 0
Finds edges (cyclic cycle) = IsCycle edges cycle
Finds edges (clear t) = (cycle : List ModuleId) → IsCycle edges cycle → ⊥
Finds edges exhausted = ⊥

-- An order in which each module of the graph stands once, behind all that it imports.
pub record IsTopological (nodes : List (ModuleId × ModulePath)) (edges : Edges)
    (order : List ModuleId) : Type 0 where
  pub once : (m : ModuleId) → count m order ≡ (if mem m (keys nodes) then 1 else 0)
  pub behind :
      (before after : List ModuleId) (m d : ModuleId)
      → order ≡ before ++ m ∷ after
      → mem d (list_of m edges) ≡ true
      → mem d before ≡ true

-- What `topo_sort` promises of its result.
abbrev pub SortsTo : ModuleGraph → Sorted → Type 0
SortsTo graph (ok sorted) =
    (sorted ≡ record graph { topo_order = sorted.topo_order })
    × IsTopological graph.nodes graph.edges sorted.topo_order
SortsTo graph (err e) = IsCycle graph.edges e.cycle
SortsTo graph out_of_fuel = ⊥

module _ (graph : ModuleGraph) (g : IsGraph graph.nodes graph.edges) where
  abbrev nodes : List (ModuleId × ModulePath)
  nodes = graph.nodes

  abbrev edges : Edges
  edges = graph.edges

  abbrev rev : Edges
  rev = (count_edges edges (zeros nodes) []).1

  start-Inv :
      Kahn.Inv nodes edges rev
        (start_indegree nodes edges g)
        (initial_ready (start_indegree nodes edges g))
        []
  start-Inv = record {
    tracks = λ m. record {
      degree = ground (arith, start-lookup nodes edges g m, outstanding-nil (list_of m edges));
      once = ground (arith, start-ready nodes edges g m, outstanding-nil (list_of m edges));
      importers = λ x. start-importers nodes edges g m x;
    };
    ordered = tt;
  }

  kahn_order-Done :
      (order : List ModuleId) × (kahn_order graph ≡ some order) × Done nodes edges rev order
  unfolding kahn_order
  kahn_order-Done =
      kahn-Done nodes edges rev (length nodes) (start_indegree nodes edges g)
        (initial_ready (start_indegree nodes edges g)) [] start-Inv
        (omega (arith, length-keys nodes))

  abbrev ks : List ModuleId
  ks = keys nodes

  -- The modules that a test singles out, each of which imports another one.
  abbrev Again : (ModuleId → Bool) → Type 0
  Again stays =
      (m : ModuleId)
      → stays m ≡ true
      → (d : ModuleId) × (mem d (list_of m edges) ≡ true) × (stays d ≡ true)

  detect_cycles-Visits :
      (stays : ModuleId → Bool) (again : Again stays)
      → Visits edges ks stays g.targets again no_search ks (detect_cycles graph)
  unfolding detect_cycles
  detect_cycles-Visits stays again =
      visit_nodes-Visits edges ks stays g.targets again (suc (length nodes)) ks no_search
        (omega (arith, length-keys nodes))
        (record {
          same = λ a. refl;
          once = refl;
          inside = λ a h. cc;
          on_stack = λ a h. cc;
          ended = λ a h. cc;
        })
        refl (λ a h. h)

  -- Where the search ends without a cycle the test singles out no module.
  clear-none :
      (stays : ModuleId → Bool) (again : Again stays) (r : Visit)
      → Visits edges ks stays g.targets again no_search ks r
      → ((cycle : List ModuleId) × (r ≡ cyclic cycle) × IsCycle edges cycle)
        ⊎ ((t : Search) × (r ≡ clear t) × ((m : ModuleId) → mem m ks ≡ true → stays m ≡ false))
  clear-none stays again (clear t) (c, all) = inr (t, refl, λ m n. c.inv.ended m (all m n))
  clear-none stays again (cyclic cycle) w = inl (cycle, refl, w)
  clear-none stays again exhausted w = absurd w

  detect_cycles-cases :
      (stays : ModuleId → Bool) (again : Again stays)
      → ((cycle : List ModuleId) × (detect_cycles graph ≡ cyclic cycle) × IsCycle edges cycle)
        ⊎ ((t : Search) × (detect_cycles graph ≡ clear t)
            × ((m : ModuleId) → mem m ks ≡ true → stays m ≡ false))
  detect_cycles-cases stays again =
      clear-none stays again (detect_cycles graph) (detect_cycles-Visits stays again)

  on_cycle-Again :
      (cycle : List ModuleId) (c : IsCycle edges cycle) → Again (λ m. mem m (c.start ∷ c.between))
  on_cycle-Again cycle c m h =
      let (d, p, q) = IsPath-next edges (c.start ∷ c.between) c.start m c.path h in
      (d, p, ground arith)

  last-node :
      (between : List ModuleId) (start next : ModuleId)
      → IsPath edges (start ∷ between) next
      → mem next ks ≡ true
  last-node [] start next p = g.targets start next p
  last-node (b ∷ between) start next p = last-node between b next p.1

  start-node : (cycle : List ModuleId) (c : IsCycle edges cycle) → mem c.start ks ≡ true
  start-node cycle c = last-node c.between c.start c.start c.path

  -- On a graph as `build` makes it, `detect_cycles` ends; a cycle that it reports leads along edges
  -- of the graph back to its start, and where it reports none the graph has none.
  pub detect_cycles-Finds : Finds edges (detect_cycles graph)
  detect_cycles-Finds = elim (detect_cycles-cases (λ m. false) (λ m h. cc)) [
    | inl (cycle, e, c) ↦ rw e c
    | inr (t, e, n) ↦ rw e (λ cycle c.
        elim (detect_cycles-cases (λ m. mem m (c.start ∷ c.between)) (on_cycle-Again cycle c)) [
          | inl (other, q, w) ↦ cc
          | inr (v, q, none_on) ↦ ground (arith, none_on c.start (start-node cycle c))
        ])
  ]

  -- The order of the loop holds modules of the graph, each once, behind all that they import.
  missing : List ModuleId → ModuleId → Bool
  missing order m = mem m ks && not (mem m order)

  missing-Again : (order : List ModuleId) → Done nodes edges rev order → Again (missing order)
  unfolding missing
  missing-Again order v m h =
      let (d, p, q) =
        outstanding-found order (list_of m edges)
          (ground (arith, v.inv.tracks m, count-not_mem m order)) in
      (d, p, ground (arith, g.targets m d))

  -- Where no module is missing the order is as long as the graph.
  full-length :
      (order : List ModuleId)
      → Done nodes edges rev order
      → ((m : ModuleId) → mem m ks ≡ true → missing order m ≡ false)
      → length nodes ≤ length order
  unfolding missing
  full-length order v none_missing = omega (
    arith,
    length-keys nodes,
    length-le_of_subset ks order g.node_keys (λ a h. ground (arith, none_missing a)),
  )

  no_longer : (order : List ModuleId) → Done nodes edges rev order → length order ≤ length nodes
  no_longer order v = omega (
    arith,
    length-keys nodes,
    length-le_of_subset order ks (distinct_of_count order (λ a. ground (arith, v.inv.tracks a)))
        (λ a h. ground (arith, v.inv.tracks a, count-mem a order)),
  )

  Done-IsTopological :
      (order : List ModuleId)
      → Done nodes edges rev order
      → length order ≡ length nodes
      → IsTopological nodes edges order
  Done-IsTopological order v full = record {
    once = λ m. ground (
      arith,
      v.inv.tracks m,
      count-mem m order,
      count-not_mem m order,
      below_nodes nodes edges rev v.final [] order m v.inv,
      length-keys nodes,
    );
    behind = λ before after m d e h.
        ordered-behind nodes edges rev [] order before after m d v.inv.ordered e h;
  }

  -- The two ends of `topo_sort`.
  topo_sort-cases :
      ((order : List ModuleId) × (topo_sort graph ≡ ok (record graph { topo_order = order }))
        × Done nodes edges rev order
        × (length order ≡ length nodes))
      ⊎ ((cycle : List ModuleId) × (topo_sort graph ≡ err (record { cycle = cycle }))
          × IsCycle edges cycle)
  unfolding topo_sort
  topo_sort-cases =
      let (order, e, v) = kahn_order-Done in
      elim (Bool-cases (length order == length nodes)) [
        | inl full ↦ inl (order, rw (e, topo_sort) (rw (full, topo_sort) refl), v, ground arith)
        | inr short ↦ elim (detect_cycles-cases (missing order) (missing-Again order v)) [
          | inl (cycle, q, c) ↦
              inr (cycle, rw (e, topo_sort) (rw (short, topo_sort) (rw (q, topo_sort) refl)), c)
          | inr (t, q, n) ↦ absurd (ground (arith, full-length order v n, no_longer order v))
        ]
      ]

  -- On a graph as `build` makes it, `topo_sort` ends. Where it succeeds, only the order of the graph
  -- has changed, and it holds each module of the graph once, behind all that it imports; where it
  -- fails, the error holds a cycle of the graph.
  pub topo_sort-SortsTo : SortsTo graph (topo_sort graph)
  topo_sort-SortsTo = elim topo_sort-cases [
    | inl (order, e, v, full) ↦ rw (e, SortsTo) (refl, Done-IsTopological order v full)
    | inr (cycle, e, c) ↦ rw (e, SortsTo) c
  ]

  -- No module of a cycle stands in the order.
  acyclic :
      (order : List ModuleId)
      → Done nodes edges rev order
      → length order ≡ length nodes
      → (cycle : List ModuleId) → IsCycle edges cycle
      → ⊥
  acyclic order v full cycle c = ground (
    arith,
    (Done-IsTopological order v full).once c.start,
    start-node cycle c,
    count-not_mem c.start order,
    ordered-avoids nodes edges rev (λ m. mem m (c.start ∷ c.between)) (on_cycle-Again cycle c) []
        order v.inv.ordered (λ a h. cc) c.start,
  )

  -- On a graph as `build` makes it, `topo_sort` succeeds if and only if the graph has no cycle.
  pub topo_sort-ok_iff :
      ((sorted : ModuleGraph) × (topo_sort graph ≡ ok sorted))
      ↔ ((cycle : List ModuleId) → IsCycle edges cycle → ⊥)
  topo_sort-ok_iff = elim topo_sort-cases [
    | inl (order, e, v, full) ↦
        (λ h. acyclic order v full, λ h. (record graph { topo_order = order }, e))
    | inr (cycle, e, c) ↦ (λ (sorted, h). cc, λ h. absurd (h cycle c))
  ]
