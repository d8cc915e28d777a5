-- ===== src/ModuleGraph/Cycles.antt =====
-- The depth-first search of `detect_cycles` (crates/module_graph/src/lib.rs): what it reports is a
-- cycle, it reports one wherever there is one, and it ends.
use thagore.Base.Maps.{
  mem, distinct, lookup, keys, mem-append, lookup-insert, lookup-mem, distinct-concat,
  length-le_of_subset,
}
use thagore.Base.{
  ℕ, zero, suc, ◌+◌, ◌<◌, ◌≡◌, refl, sym, ap, Bool, true, false, List, [], ◌∷◌, ◌++◌, some, length,
  arith, Bool-cases, inl, inr, ◌∙◌, length-append,
}
use thagore.ModuleGraph.Edges.{Edges}
use thagore.ModuleGraph.Paths.{
  IsPath, IsCycle, from_first-IsPath, IsPath-concat, pop-concat, mem-discard, visited_only,
}
use thagore.ModuleGraph.{
  ModuleId, list_of, visiting, visited, Search, Visit, cyclic, clear, exhausted, stack_from, pop,
  is_visited, enter, leave, then_visit, visit_deps, dfs, visit_nodes,
}

-- The search over modules `ks`, with a test `stays` for which every module that passes imports one
-- that passes: where the search ends without a cycle it has visited no such module.
module _ (edges : Edges) (ks : List ModuleId) (stays : ModuleId → Bool)
    (targets : (m d : ModuleId) → mem d (list_of m edges) ≡ true → mem d ks ≡ true)
    (again : (m : ModuleId)
      → stays m ≡ true
      → (d : ModuleId) × (mem d (list_of m edges) ≡ true) × (stays d ≡ true)) where
  pub record Inv (s : Search) : Type 0 where
    pub same : (a : ModuleId) → mem a s.stack_set ≡ mem a s.stack
    pub once : distinct s.stack ≡ true
    pub inside : (a : ModuleId) → mem a s.stack ≡ true → mem a ks ≡ true
    pub on_stack : (a : ModuleId) → lookup a s.states ≡ some visiting → mem a s.stack ≡ true
    pub ended : (a : ModuleId) → is_visited a s ≡ true → stays a ≡ false

  -- The search went on from `s` to `t`.
  pub record Cleared (s t : Search) : Type 0 where
    pub stack : t.stack ≡ s.stack
    pub inv : Inv t
    pub keeps : (a : ModuleId) → is_visited a s ≡ true → is_visited a t ≡ true

  Cleared-trans : {s t v : Search} → Cleared s t → Cleared t v → Cleared s v
  Cleared-trans c d = record {
    stack = d.stack ∙ c.stack;
    inv = d.inv;
    keeps = λ a h. d.keeps a (c.keeps a h);
  }

  -- What the visit of the modules `ids` gives.
  abbrev pub Visits : Search → List ModuleId → Visit → Type 0
  Visits s ids (clear t) = Cleared s t × ((a : ModuleId) → mem a ids ≡ true → is_visited a t ≡ true)
  Visits s ids (cyclic cycle) = IsCycle edges cycle
  Visits s ids exhausted = ⊥

  -- Where a module may be visited.
  pub record Enters (fuel : ℕ) (id : ModuleId) (s : Search) : Type 0 where
    pub inv : Inv s
    pub node : mem id ks ≡ true
    pub new : mem id s.stack ≡ false
    pub path : IsPath edges s.stack id
    pub fuelled : length ks < length s.stack + fuel

  enter-Inv : (fuel : ℕ) (id : ModuleId) (s : Search) → Enters fuel id s → Inv (enter id s)
  enter-Inv fuel id s e = record {
    same = λ a. ground (arith, e.inv.same a, e.inv.same id, mem-append a s.stack (id ∷ []));
    once = distinct-concat id s.stack e.inv.once e.new;
    inside = λ a h. ground (arith, e.inv.inside a, e.node, mem-append a s.stack (id ∷ []));
    on_stack = λ a h. ground (
      arith,
      e.inv.on_stack a,
      mem-append a s.stack (id ∷ []),
      lookup-insert id a visiting s.states,
    );
    ended = λ a h. ground (arith, e.inv.ended a, lookup-insert id a visiting s.states);
  }

  leave-Cleared :
      (fuel : ℕ) (id : ModuleId) (s t : Search)
      → Enters fuel id s
      → Cleared (enter id s) t
      → stays id ≡ false
      → Visits s (id ∷ []) (leave id (clear t))
  unfolding leave
  leave-Cleared fuel id s t e c n =
      let restored : pop t.stack ≡ s.stack = rw c.stack (pop-concat s.stack id) in
      (
        record {
          stack = restored;
          inv = record {
            same = λ a. ground (
              arith,
              restored,
              c.stack,
              c.inv.same a,
              e.new,
              mem-discard a id t.stack_set,
              mem-append a s.stack (id ∷ []),
            );
            once = rw restored e.inv.once;
            inside = λ a h. e.inv.inside a (rw restored at h);
            on_stack = λ a h. ground (
              arith,
              restored,
              c.stack,
              c.inv.on_stack a,
              lookup-insert id a visited t.states,
              mem-append a s.stack (id ∷ []),
            );
            ended = λ a h. ground (arith, n, c.inv.ended a, lookup-insert id a visited t.states);
          };
          keeps = λ a h. ground (
            arith,
            c.keeps a,
            e.inv.on_stack a,
            e.new,
            lookup-insert id a visiting s.states,
            lookup-insert id a visited t.states,
          );
        },
        λ a h. ground (arith, lookup-insert id a visited t.states),
      )

  -- With all its dependencies visited the module itself does not stay.
  left_clear :
      (fuel : ℕ) (id : ModuleId) (s : Search)
      → Enters fuel id s
      → (r : Visit) → Visits (enter id s) (list_of id edges) r
      → Visits s (id ∷ []) (leave id r)
  unfolding leave
  left_clear fuel id s e (clear t) (c, all) =
      leave-Cleared fuel id s t e c (elim (Bool-cases (stays id)) [
        | inr n ↦ n
        | inl y ↦ let (d, m, z) = again id y in cc (c.inv.ended d (all d m), z)
      ])
  left_clear fuel id s e (cyclic cycle) w = w
  left_clear fuel id s e exhausted w = w

  Cleared-refl : (s : Search) → Inv s → Cleared s s
  Cleared-refl s v = record { stack = refl; inv = v; keeps = λ a h. h }

  Visits-cons :
      (dep : ModuleId) (deps : List ModuleId) {s t : Search}
      → Cleared s t
      → is_visited dep t ≡ true
      → (r : Visit) → Visits t deps r
      → Visits s (dep ∷ deps) r
  Visits-cons dep deps c seen (clear v) (d, all) =
      (Cleared-trans c d, λ a h. ground (arith, all a, d.keeps dep seen))
  Visits-cons dep deps c seen (cyclic cycle) w = w
  Visits-cons dep deps c seen exhausted w = w

  then-Visits :
      (dep : ModuleId) (deps : List ModuleId) (s : Search) (r : Visit) (next : Search → Visit)
      → Visits s (dep ∷ []) r
      → ((t : Search) → Cleared s t → Visits t deps (next t))
      → Visits s (dep ∷ deps) (then_visit r next)
  then-Visits dep deps s (clear t) next (c, one) k =
      Visits-cons dep deps c (one dep (ground arith)) (next t) (k t c)
  then-Visits dep deps s (cyclic cycle) next w k = w
  then-Visits dep deps s exhausted next w k = w

  stack_from-IsCycle :
      (dep : ModuleId) (s : Search)
      → Inv s
      → mem dep s.stack_set ≡ true
      → IsPath edges s.stack dep
      → IsCycle edges (stack_from dep s.stack ++ dep ∷ [])
  unfolding stack_from
  stack_from-IsCycle dep s v on path =
      let found : mem dep s.stack ≡ true = sym (v.same dep) ∙ on in
      let (between, e, p) = from_first-IsPath edges dep dep s.stack found path in
      record { start = dep; between = between; closed = rw (found, e); path = p }

  -- The loop over the dependencies, by what one visit gives.
  visit_deps-Visits :
      (visit : ModuleId → Search → Visit) (fuel : ℕ)
      → ((id : ModuleId) (s : Search) → Enters fuel id s → Visits s (id ∷ []) (visit id s))
      → (deps : List ModuleId) (s : Search) → Inv s
      → ((d : ModuleId) → mem d deps ≡ true → (IsPath edges s.stack d) × (mem d ks ≡ true))
      → length ks < length s.stack + fuel
      → Visits s deps (visit_deps visit deps s)
  unfolding visit_deps
  visit_deps-Visits visit fuel one [] s v p lt =
      (record { stack = refl; inv = v; keeps = λ a h. h }, λ a h. cc)
  visit_deps-Visits visit fuel one (dep ∷ deps) s v p lt =
      let (path, node) = p dep (ground arith) in
      let later = λ (t : Search) (c : Cleared s t).
        visit_deps-Visits visit fuel one deps t c.inv (λ d m. rw c.stack (p d (ground arith)))
          (rw c.stack lt) in
      elim (Bool-cases (mem dep s.stack_set)) [
        | inl on ↦ rw on (stack_from-IsCycle dep s v on path)
        | inr off ↦ rw off (elim (Bool-cases (is_visited dep s)) [
          | inl seen ↦
              rw seen (Visits-cons dep deps (Cleared-refl s v) seen _ (later s (Cleared-refl s v)))
          | inr unseen ↦
              let enters : Enters fuel dep s = record {
                inv = v;
                node = node;
                new = ground (arith, v.same dep);
                path = path;
                fuelled = lt;
              } in
              rw unseen (then-Visits dep deps s (visit dep s) _ (one dep s enters) later)
        ])
      ]

  -- A visit with fuel for every module that is not on the stack.
  pub dfs-Visits :
      (fuel : ℕ) (id : ModuleId) (s : Search)
      → Enters fuel id s
      → Visits s (id ∷ []) (dfs fuel edges id s)
  unfolding dfs
  dfs-Visits zero id s e =
      absurd (omega (arith, e.fuelled, length-le_of_subset s.stack ks e.inv.once e.inv.inside))
  dfs-Visits (suc fuel) id s e =
      let v = enter-Inv (suc fuel) id s e in
      let walk =
        visit_deps-Visits (dfs fuel edges) fuel (dfs-Visits fuel) (list_of id edges) (enter id s) v
          (λ d m. (IsPath-concat edges s.stack id d e.path m, targets id d m))
          (omega (arith, e.fuelled, length-append s.stack (id ∷ []))) in
      left_clear (suc fuel) id s e (visit_deps (dfs fuel edges) (list_of id edges) (enter id s))
        walk

  -- With an empty stack every module that has a state is visited.
  known_visited :
      (id : ModuleId) (s : Search)
      → Inv s
      → s.stack ≡ []
      → mem id (keys s.states) ≡ true
      → is_visited id s ≡ true
  known_visited id s v e k =
      let (state, found) = lookup-mem id s.states k in
      rw (found, is_visited) (visited_only state (λ w. rw e at (v.on_stack id (found ∙ ap some w))))

  -- The loop over the nodes, with an empty stack between two visits.
  pub visit_nodes-Visits :
      (fuel : ℕ) (ids : List ModuleId) (s : Search)
      → length ks < fuel
      → Inv s
      → s.stack ≡ []
      → ((a : ModuleId) → mem a ids ≡ true → mem a ks ≡ true)
      → Visits s ids (visit_nodes fuel edges ids s)
  unfolding visit_nodes
  visit_nodes-Visits fuel [] s lt v e n = (Cleared-refl s v, λ a h. cc)
  visit_nodes-Visits fuel (id ∷ ids) s lt v e n =
      let later = λ (t : Search) (c : Cleared s t).
        visit_nodes-Visits fuel ids t lt c.inv (c.stack ∙ e) (λ a m. n a (ground arith)) in
      elim (Bool-cases (mem id (keys s.states))) [
        | inl known ↦ rw known (
            Visits-cons id ids (Cleared-refl s v) (known_visited id s v e known) _
              (later s (Cleared-refl s v)))
        | inr new ↦
            let enters : Enters fuel id s = record {
              inv = v;
              node = n id (ground arith);
              new = rw e;
              path = rw e tt;
              fuelled = rw e (omega arith);
            } in
            rw new
              (then-Visits id ids s (dfs fuel edges id s) _ (dfs-Visits fuel id s enters) later)
      ]
