-- ===== src/ModuleGraph/Build/Sound.antt =====
-- `build` (crates/module_graph/src/lib.rs) makes graphs of the kind that `topo_sort` relies on.
use Prim.Native.String.{String}
use text.Mathlib.TextEquality.{eq_iff}
use thagore.Base.Maps.{
  mem, mem-append, distinct, distinct-concat, lookup, keys, lookup-insert, keys-insert, lookup-mem,
}
use thagore.Base.{
  length, length-append, ℕ, zero, suc, ◌+◌, ◌<◌, ◌≤◌, ◌≡◌, refl, true, false, List, [], ◌∷◌, none,
  some, ltb, u32_limit, arith, Option-cases, List-cases, Bool-cases, inl, inr,
}
use thagore.ModuleGraph.Build.{
  ImportSpec, Outcome, ok, err, panicked, overflow, out_of_fuel, lookup_path, Host, Builder, create,
  find_or_create, import_module, import_all, visit_module, build_loop, sorted_graph, start,
  unsorted, build,
}
use thagore.ModuleGraph.Build.Followed.{IfOk-self, Holds-IfOk, Followed, build_loop-Followed}
use thagore.ModuleGraph.Edges.{IsGraph}
use thagore.ModuleGraph.Sort.{IsTopological, SortsTo, topo_sort-SortsTo}
use thagore.ModuleGraph.{
  ModuleId, ModulePath, ModuleSource, ModuleGraph, list_of, Sorted, topo_sort,
}
use thagore.ModuleGraph.Build.Outcomes.{
  Holds, then_do-Holds, Holds-map, Answers, length-le_of_distinct,
}

module _ (host : Host) where
  -- The parameters report failures as errors. There are at most `size` files, fewer than 2^32: `index`
  -- numbers the canonical paths from 0, and gives other paths no number below `size`.
  pub record IsHost (size : ℕ) (index : String → ℕ) : Type 0 where
    pub canonicalize : (path : String) → Answers (host.canonicalize_existing path)
    pub imports : (path : String) → Answers (host.imports_of path)
    pub resolve :
        (i : ImportSpec) (path : String) (state : host.State)
        → Answers (host.resolve_import i path state)
    pub bounded :
        (path file : String) → host.canonicalize_existing path ≡ ok file → index file < size
    pub injective : (p q : String) → index p < size → index q < size → index p ≡ index q → p ≡ q
    pub small : size < u32_limit

  abbrev pub indexes : (String → ℕ) → List (String × ModuleId) → List ℕ
  indexes index [] = []
  indexes index ((path, id) ∷ entries) = index path ∷ indexes index entries

  module _ (size : ℕ) (index : String → ℕ) (safe : IsHost size index) where
    -- The identifiers below `next_id` are the modules of the graph.
    pub record Inv (b : Builder host) : Type 0 where
      pub nodes : (m : ModuleId) → mem m (keys b.nodes) ≡ ltb m b.next_id
      pub edges : (m : ModuleId) → mem m (keys b.edges) ≡ ltb m b.next_id
      pub node_keys : distinct (keys b.nodes) ≡ true
      pub edge_keys : distinct (keys b.edges) ≡ true
      pub targets : (m d : ModuleId) → mem d (list_of m b.edges) ≡ true → d < b.next_id
      pub paths : (p : String) (v : ModuleId) → lookup_path p b.by_path ≡ some v → v < b.next_id
      pub queue : (m : ModuleId) → mem m b.pending ≡ true → m < b.next_id
      pub files : distinct (indexes index b.by_path) ≡ true
      pub within : (n : ℕ) → mem n (indexes index b.by_path) ≡ true → n < size
      pub counted : length (indexes index b.by_path) ≡ b.next_id

    -- No identifier is taken back.
    abbrev pub Grown : Builder host → Builder host → Type 0
    Grown b c =
        Inv c
        × (b.next_id ≤ c.next_id)
        × (length c.pending + b.next_id ≡ length b.pending + c.next_id)

    not_indexed :
        (path : String) (entries : List (String × ModuleId))
        → index path < size
        → ((n : ℕ) → mem n (indexes index entries) ≡ true → n < size)
        → lookup_path path entries ≡ none
        → mem (index path) (indexes index entries) ≡ false
    not_indexed path [] file all h = refl
    not_indexed path ((key, id) ∷ entries) file all h = ground (
      arith,
      not_indexed path entries file (λ n m. all n (ground arith)),
      eq_iff key path,
      safe.injective key path,
      all (index key),
    )

    -- The modules are no more than the files.
    next_id-le : (b : Builder host) → Inv b → b.next_id ≤ size
    next_id-le b v =
        omega
          (arith, v.counted, length-le_of_distinct size (indexes index b.by_path) v.files v.within)

    create-Inv :
        (source : ModuleSource) (path : String) (b : Builder host)
        → Inv b
        → index path < size
        → lookup_path path b.by_path ≡ none
        → Holds (λ (id, c). Grown b c × (id < c.next_id)) (create host source path b)
    unfolding create
    create-Inv source path b v file new =
        let fresh = not_indexed path b.by_path file v.within new in
        let wider =
          length-le_of_distinct size (index path ∷ indexes index b.by_path)
            (ground (arith, fresh, v.files)) (λ m h. ground (arith, file, v.within m)) in
        elim (Bool-cases (ltb (b.next_id + 1) u32_limit)) [
          | inr e ↦ absurd (ground (arith, wider, v.counted, safe.small))
          | inl e ↦
              let n = b.next_id in
              let module_path : ModulePath = record { source = source; file_path = path } in
              rw e (
                (
                  record {
                    nodes = λ m. ground (
                      arith,
                      keys-insert n module_path b.nodes,
                      v.nodes n,
                      v.nodes m,
                      mem-append m (keys b.nodes) (n ∷ []),
                    );
                    edges = λ m. ground (
                      arith,
                      keys-insert n [] b.edges,
                      v.edges n,
                      v.edges m,
                      mem-append m (keys b.edges) (n ∷ []),
                    );
                    node_keys = ground (
                      arith,
                      keys-insert n module_path b.nodes,
                      v.nodes n,
                      v.node_keys,
                      distinct-concat n (keys b.nodes),
                    );
                    edge_keys = ground (
                      arith,
                      keys-insert n [] b.edges,
                      v.edges n,
                      v.edge_keys,
                      distinct-concat n (keys b.edges),
                    );
                    targets = λ m d h. ground (arith, lookup-insert n m [] b.edges, v.targets m d);
                    paths = λ p w h. ground (arith, v.paths p w);
                    queue = λ m h. ground (arith, v.queue m, mem-append m b.pending (n ∷ []));
                    files = ground (arith, fresh, v.files);
                    within = λ m h. ground (arith, file, v.within m);
                    counted = omega (arith, v.counted);
                  },
                  omega arith,
                  omega (arith, length-append b.pending (n ∷ [])),
                ),
                omega arith,
              )
        ]

    find_or_create-Inv :
        (source : ModuleSource) (path : String) (b : Builder host)
        → Inv b
        → index path < size
        → Holds (λ (id, c). Grown b c × (id < c.next_id)) (find_or_create host source path b)
    unfolding find_or_create
    find_or_create-Inv source path b v file = elim (Option-cases (lookup_path path b.by_path)) [
      | inl e ↦ rw (e, Holds) (create-Inv source path b v file e)
      | inr (id, e) ↦ rw (e, Holds) ((v, omega arith, refl), v.paths path id e)
    ]

    bounded_answer :
        (r : Outcome String)
        → Answers r
        → ((file : String) → r ≡ ok file → index file < size)
        → Holds (λ file. index file < size) r
    bounded_answer (ok file) h k = k file refl
    bounded_answer (err e) h k = tt
    bounded_answer panicked h k = h
    bounded_answer overflow h k = h
    bounded_answer out_of_fuel h k = h

    canonical-bounded :
        (path : String) → Holds (λ file. index file < size) (host.canonicalize_existing path)
    canonical-bounded path =
        bounded_answer (host.canonicalize_existing path) (safe.canonicalize path)
          (safe.bounded path)

    -- A state of the resolver changes nothing that is counted.
    resolved-Inv :
        (b : Builder host) (state : host.State) → Inv b → Inv (record b { resolver = state })
    resolved-Inv b state v = record {
      nodes = v.nodes;
      edges = v.edges;
      node_keys = v.node_keys;
      edge_keys = v.edge_keys;
      targets = v.targets;
      paths = v.paths;
      queue = v.queue;
      files = v.files;
      within = v.within;
      counted = v.counted;
    }

    import_module-Inv :
        (i : ImportSpec) (from_file : String) (b : Builder host)
        → Inv b
        → Holds (λ (id, c). Grown b c × (id < c.next_id)) (import_module host i from_file b)
    unfolding import_module
    import_module-Inv i from_file b v =
        then_do-Holds (λ r. Unit) (λ (id, c). Grown b c × (id < c.next_id))
          (host.resolve_import i from_file b.resolver) _ (safe.resolve i from_file b.resolver)
          (λ (resolved, state) t.
            then_do-Holds (λ file. index file < size) (λ (id, c). Grown b c × (id < c.next_id))
              (host.canonicalize_existing resolved.file_path) _
              (canonical-bounded resolved.file_path)
              (λ canonical file.
                find_or_create-Inv resolved.source canonical (record b { resolver = state })
                  (resolved-Inv b state v) file))

    -- The edges that the loop over the imports finds lead to modules of the graph.
    abbrev Found : Builder host → List ModuleId × Builder host → Type 0
    Found b (discovered, c) = Grown b c × ((d : ModuleId) → mem d discovered ≡ true → d < c.next_id)

    Found-trans :
        (b c : Builder host) (r : List ModuleId × Builder host)
        → b.next_id ≤ c.next_id
        → length c.pending + b.next_id ≡ length b.pending + c.next_id
        → Found c r
        → Found b r
    Found-trans b c r le q f = ((f.0.0, omega (arith, f.0.1), omega (arith, f.0.2)), f.1)

    import_all-Found :
        (imports : List ImportSpec) (from_file : String) (discovered : List ModuleId)
        (b : Builder host)
        → Inv b
        → ((d : ModuleId) → mem d discovered ≡ true → d < b.next_id)
        → Holds (Found b) (import_all host imports from_file discovered b)
    unfolding import_all
    import_all-Found [] from_file discovered b v all = ((v, omega arith, refl), all)
    import_all-Found (i ∷ imports) from_file discovered b v all =
        then_do-Holds (λ (id, c). Grown b c × (id < c.next_id)) (Found b)
          (import_module host i from_file b) _ (import_module-Inv i from_file b v)
          (λ (dep, c) ((w, le, q), lt).
            Holds-map (Found c) (Found b) _ (λ r. Found-trans b c r le q)
              (import_all-Found imports from_file _ c w
                (λ d h. ground (arith, all d, lt, le, mem-append d discovered (dep ∷ [])))))

    visit_module-Inv :
        (id : ModuleId) (b : Builder host)
        → Inv b
        → id < b.next_id
        → Holds (Grown b) (visit_module host id b)
    unfolding visit_module
    visit_module-Inv id b v lt = elim (Option-cases (lookup id b.nodes)) [
      | inl e ↦
          let (path, found) = lookup-mem id b.nodes (ground (arith, v.nodes id)) in
          absurd (cc (e, found))
      | inr (path, e) ↦
          rw (e, Holds)
            (then_do-Holds (λ r. Unit) (Grown b) (host.imports_of path.file_path) _
              (safe.imports path.file_path)
              (λ imports t.
                then_do-Holds (Found b) (Grown b) (import_all host imports path.file_path [] b) _
                  (import_all-Found imports path.file_path [] b v (λ d h. cc))
                  (λ (discovered, c) ((w, le, q), all). (
                    record {
                      nodes = w.nodes;
                      edges = λ m.
                          ground (
                            arith,
                            keys-insert id discovered c.edges,
                            w.edges m,
                            w.edges id,
                            lt,
                            le,
                          );
                      node_keys = w.node_keys;
                      edge_keys = ground (
                        arith,
                        keys-insert id discovered c.edges,
                        w.edges id,
                        w.edge_keys,
                        lt,
                        le,
                      );
                      targets = λ m d h.
                          ground
                            (arith, lookup-insert id m discovered c.edges, w.targets m d, all d);
                      paths = w.paths;
                      queue = w.queue;
                      files = w.files;
                      within = w.within;
                      counted = w.counted;
                    },
                    le,
                    q,
                  ))))
    ]

    build_loop-Inv :
        (fuel : ℕ) (b : Builder host)
        → Inv b
        → size + length b.pending < fuel + b.next_id
        → Holds Inv (build_loop host fuel b)
    unfolding build_loop
    build_loop-Inv zero b v lt = absurd (omega (arith, next_id-le b v))
    build_loop-Inv (suc fuel) b v lt = elim (List-cases b.pending) [
      | inl e ↦ rw (e, Holds) v
      | inr (id, rest, e) ↦
          let popped : Builder host = record b { pending = rest } in
          let w : Inv popped = record {
            nodes = v.nodes;
            edges = v.edges;
            node_keys = v.node_keys;
            edge_keys = v.edge_keys;
            targets = v.targets;
            paths = v.paths;
            queue = λ m h. v.queue m (rw e (ground arith));
            files = v.files;
            within = v.within;
            counted = v.counted;
          } in
          rw (e, Holds)
            (then_do-Holds (Grown popped) Inv (visit_module host id popped) _
              (visit_module-Inv id popped w (v.queue id (rw e (ground arith))))
              (λ c (w', le, q). build_loop-Inv fuel c w' (ground (arith, q, e))))
    ]

    start-Inv :
        (path : String) (state : host.State) → index path < size → Inv (start host path state)
    start-Inv path state known = record {
      nodes = λ m. ground arith;
      edges = λ m. ground arith;
      node_keys = refl;
      edge_keys = refl;
      targets = λ m d h. ground arith;
      paths = λ p v h. ground arith;
      queue = λ m h. ground arith;
      files = refl;
      within = λ n h. ground (arith, known);
      counted = refl;
    }

    Inv-IsGraph : (b : Builder host) → Inv b → IsGraph b.nodes b.edges
    Inv-IsGraph b v = record {
      node_keys = v.node_keys;
      edge_keys = v.edge_keys;
      sources = λ m h. ground (arith, v.nodes m, v.edges m);
      targets = λ m d h. ground (arith, v.nodes d, v.targets m d);
    }

    -- What the rest of the program relies on.
    abbrev pub IsBuilt : String → ModuleGraph → Type 0
    IsBuilt entry g =
        IsGraph g.nodes g.edges
        × Followed host entry g.nodes g.edges
        × IsTopological g.nodes g.edges g.topo_order

    sorted-IsBuilt :
        (entry : String) (graph : ModuleGraph) (r : Sorted)
        → IsGraph graph.nodes graph.edges
        → Followed host entry graph.nodes graph.edges
        → SortsTo graph r
        → Holds (IsBuilt entry) (sorted_graph host r)
    sorted-IsBuilt entry graph (Sorted.ok sorted) g l (same, t) = (rw same g, rw same l, rw same t)
    sorted-IsBuilt entry graph (Sorted.err e) g l w = tt
    sorted-IsBuilt entry graph Sorted.out_of_fuel g l w = w

    -- Over a host whose functions answer with a result or an error, and in which there are at most
    -- `size` canonical paths, fewer than 2^32, `build` ends on fuel above `size`, without a panic.
    -- A graph that it gives has maps for its nodes and edges, edges that lead to its modules, the file of the entry as
    -- module 0, and an order that holds each module once, behind all that its edges lead to. The edges of a module are
    -- those that the imports of its file resolve to, in some state of the resolver: each import has an edge, and each
    -- edge an import.
    pub build-IsBuilt :
        (fuel : ℕ) (entry : String) (state : host.State)
        → size < fuel
        → Holds (IsBuilt entry) (build host fuel entry state)
    unfolding build
    build-IsBuilt fuel entry state enough =
        let canonical = host.canonicalize_existing entry in
        then_do-Holds (λ file. (index file < size) × (canonical ≡ ok file)) (IsBuilt entry)
          canonical _ (Holds-IfOk _ _ canonical (canonical-bounded entry) (IfOk-self canonical))
          (λ path (file, e).
            let first = start host path state in
            then_do-Holds (λ b. Inv b × Followed host entry b.nodes b.edges) (IsBuilt entry)
              (build_loop host fuel first) _
              (Holds-IfOk _ _ (build_loop host fuel first)
                (build_loop-Inv fuel first (start-Inv path state file) (omega arith))
                (build_loop-Followed host fuel entry path state e))
              (λ b (v, l).
                let graph = unsorted host b in
                sorted-IsBuilt entry graph (topo_sort graph) (Inv-IsGraph b v) l
                  (topo_sort-SortsTo graph (Inv-IsGraph b v))))
