-- ===== src/ModuleGraph/Build/Traced.antt =====
-- The loop over the imports of a module in `build` (crates/module_graph/src/lib.rs).
use Prim.Native.String.{String}
use thagore.Base.Maps.{mem, mem-append}
use thagore.Base.{◌≡◌, true, List, [], ◌∷◌, ◌++◌, arith, Bool-cases, inl, inr, ◌⊎◌, if◌then◌else◌}
use thagore.ModuleGraph.{ModuleId}
use thagore.ModuleGraph.Build.{ImportSpec, Host, Builder, find_or_create, import_module, import_all}
use thagore.ModuleGraph.Build.Links.{
  IfOk, IfOk-map, then_do-IfOk, Every, Some, Kept, Leads, Leads-kept, Linked, Grew,
  find_or_create-Has,
}

module _ (host : Host) where
  -- An import, with the module that it leads to.
  abbrev Imported :
      List ModuleId → Builder host → String → ImportSpec → ModuleId × Builder host → Type 0
  Imported except b from_file i (id, c) = Grew host except b c × Leads host c.nodes from_file i id

  import_module-Imported :
      (except : List ModuleId) (i : ImportSpec) (from_file : String) (b : Builder host)
      → Linked host except b
      → IfOk (Imported except b from_file i) (import_module host i from_file b)
  unfolding import_module
  import_module-Imported except i from_file b v =
      then_do-IfOk _ (host.resolve_import i from_file b.resolver) _ (λ (resolved, next_state) e.
        then_do-IfOk _ (host.canonicalize_existing resolved.file_path) _ (λ file f.
          let w : Linked host except (record b { resolver = next_state }) = record {
            below = v.below;
            files = v.files;
            edges = v.edges;
          } in
          IfOk-map _ _
            (find_or_create host resolved.source file (record b { resolver = next_state }))
            (λ (id, c) (g, of). (
              g,
              record {
                state = b.resolver;
                next_state = next_state;
                resolved = resolved;
                file = file;
                resolves = e;
                canonical = f;
                module_of = of;
              },
            ))
            (find_or_create-Has host except resolved.source file
              (record b { resolver = next_state }) w)))

  -- What the loop over the imports has made.
  pub record Traced (except : List ModuleId) (b : Builder host) (from_file : String)
      (imports : List ImportSpec) (discovered : List ModuleId) (r : List ModuleId × Builder host)
      : Type 0 where
    pub linked : Linked host except r.1
    pub nodes : Kept b.nodes r.1.nodes
    pub earlier : (d : ModuleId) → mem d discovered ≡ true → mem d r.0 ≡ true
    pub complete :
        Every
          (λ i. (id : ModuleId) × (mem id r.0 ≡ true) × Leads host r.1.nodes from_file i id)
          imports
    pub sound :
        (d : ModuleId)
        → mem d r.0 ≡ true
        → (mem d discovered ≡ true) ⊎ Some (λ i. Leads host r.1.nodes from_file i d) imports

  pub import_all-Traced :
      (except : List ModuleId) (imports : List ImportSpec) (from_file : String)
      (discovered : List ModuleId) (b : Builder host)
      → Linked host except b
      → IfOk
          (Traced except b from_file imports discovered)
          (import_all host imports from_file discovered b)
  unfolding import_all
  import_all-Traced except [] from_file discovered b v = record {
    linked = v;
    nodes = λ m path h. h;
    earlier = λ d h. h;
    complete = tt;
    sound = λ d h. inl h;
  }
  import_all-Traced except (i ∷ imports) from_file discovered b v =
      let first = import_module-Imported except i from_file b v in
      then_do-IfOk _ (import_module host i from_file b) _ (λ (dep, c) e.
        let ((w, kept), leads) : Imported except b from_file i (dep, c) = rw e at first in
        let found = if mem dep discovered then discovered else discovered ++ dep ∷ [] in
        let here : mem dep found ≡ true = ground (arith, mem-append dep discovered (dep ∷ [])) in
        IfOk-map _ _ (import_all host imports from_file found c)
          (λ r t. record {
            linked = t.linked;
            nodes = λ m path h. t.nodes m path (kept m path h);
            earlier = λ d h. t.earlier d (ground (arith, mem-append d discovered (dep ∷ []), h));
            complete = ((dep, t.earlier dep here, Leads-kept host t.nodes leads), t.complete);
            sound = λ d h. elim (t.sound d h) [
              | inr later ↦ inr (inr later)
              | inl old ↦ elim (Bool-cases (mem d discovered)) [
                | inl m ↦ inl m
                | inr n ↦
                    let same : dep ≡ d =
                      ground (arith, mem-append d discovered (dep ∷ []), old, n) in
                    inr (inl (rw same at (Leads-kept host t.nodes leads)))
              ]
            ];
          })
          (import_all-Traced except imports from_file found c w))
