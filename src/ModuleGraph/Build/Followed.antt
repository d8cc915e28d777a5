-- ===== src/ModuleGraph/Build/Followed.antt =====
-- `build` (crates/module_graph/src/lib.rs) ends when every module that it has found has the edges of its imports.
use Prim.Native.String.{String}
use text.Mathlib.Text
use text.Mathlib.TextEquality.{eq_iff}
use thagore.Base.Maps.{lookup, insert, lookup-insert}
use thagore.Base.{
  ℕ, zero, suc, ◌≡◌, refl, List, [], ◌∷◌, some, arith, Option-cases, List-cases, Bool-cases, inl,
  inr, ◌==◌,
}
use thagore.ModuleGraph.{ModuleId, ModulePath, project, list_of}
use thagore.ModuleGraph.Build.{
  Outcome, ok, err, panicked, overflow, out_of_fuel, Host, Builder, import_all, visit_module,
  build_loop, start,
}
use thagore.ModuleGraph.Build.Outcomes.{Holds}
use thagore.ModuleGraph.Build.Traced.{Traced, import_all-Traced}
use thagore.ModuleGraph.Build.Links.{
  IfOk, IfOk-map, then_do-IfOk, Nodes, FileOf, Kept, Follows, Linked,
}

pub IfOk-self : {A : Type 0} (r : Outcome A) → IfOk (λ a. r ≡ ok a) r
IfOk-self (ok a) = refl
IfOk-self (err e) = tt
IfOk-self panicked = tt
IfOk-self overflow = tt
IfOk-self out_of_fuel = tt

pub Holds-IfOk :
    {A : Type 0} (P Q : A → Type 0) (r : Outcome A)
    → Holds P r
    → IfOk Q r
    → Holds (λ a. P a × Q a) r
Holds-IfOk P Q (ok a) h k = (h, k)
Holds-IfOk P Q (err e) h k = tt
Holds-IfOk P Q panicked h k = h
Holds-IfOk P Q overflow h k = h
Holds-IfOk P Q out_of_fuel h k = h

module _ (host : Host) where
  visit_module-Linked :
      (id : ModuleId) (b : Builder host)
      → Linked host (id ∷ []) b
      → IfOk (λ c. Linked host [] c × Kept b.nodes c.nodes) (visit_module host id b)
  unfolding visit_module
  visit_module-Linked id b v = elim (Option-cases (lookup id b.nodes)) [
    | inl e ↦ rw (e, visit_module) tt
    | inr (path, e) ↦
        rw (e, visit_module)
          (then_do-IfOk _ (host.imports_of path.file_path) _ (λ imports reads.
            then_do-IfOk _ (import_all host imports path.file_path [] b) _ (λ (deps, c) made.
              let t : Traced host (id ∷ []) b path.file_path imports [] (deps, c) =
                rw made at (import_all-Traced host (id ∷ []) imports path.file_path [] b v) in
              let own : Follows host c.nodes path.file_path deps = record {
                imports = imports;
                reads = reads;
                complete = t.complete;
                sound = λ d h. elim (t.sound d h) [
                  | inl no_edge ↦ absurd cc
                  | inr some_import ↦ some_import
                ];
              } in
              (
                record {
                  below = t.linked.below;
                  files = t.linked.files;
                  edges = λ m other h out idle.
                      let look = lookup-insert id m deps c.edges in
                      elim (Bool-cases (id == m)) [
                        | inl same ↦
                            let now : path ≡ other = ground (arith, t.nodes id path e, same, h) in
                            let deps_of : list_of m (insert id deps c.edges) ≡ deps =
                              ground (arith, look, same) in
                            rw deps_of (rw now at own)
                        | inr differs ↦
                            let kept : list_of m (insert id deps c.edges) ≡ list_of m c.edges =
                              ground (arith, look, differs) in
                            rw kept (t.linked.edges m other h (ground arith) idle)
                      ];
                },
                t.nodes,
              ))))
  ]

  -- Nothing is pending, so every module has the edges of its imports.
  abbrev Finished : Builder host → Builder host → Type 0
  Finished b c = Linked host [] c × (c.pending ≡ []) × Kept b.nodes c.nodes

  pub build_loop-Finished :
      (fuel : ℕ) (b : Builder host) → Linked host [] b → IfOk (Finished b) (build_loop host fuel b)
  unfolding build_loop
  build_loop-Finished zero b v = tt
  build_loop-Finished (suc fuel) b v = elim (List-cases b.pending) [
    | inl e ↦ rw (e, build_loop) (v, e, λ m path h. h)
    | inr (id, rest, e) ↦
        let popped : Builder host = record b { pending = rest } in
        let w : Linked host (id ∷ []) popped = record {
          below = v.below;
          files = v.files;
          edges = λ m path h out idle. v.edges m path h refl (rw e (ground arith));
        } in
        rw (e, build_loop)
          (then_do-IfOk _ (visit_module host id popped) _ (λ c visited.
            let (x, kept) : Linked host [] c × Kept b.nodes c.nodes =
              rw visited at (visit_module-Linked id popped w) in
            IfOk-map _ _ (build_loop host fuel c)
              (λ d (y, done, later). (y, done, λ m path h. later m path (kept m path h)))
              (build_loop-Finished fuel c x)))
  ]

  start-Linked : (file : String) (state : host.State) → Linked host [] (start host file state)
  start-Linked file state = record {
    below = λ m path h. ground arith;
    files = λ p m h. elim (Bool-cases (Text.◌==◌ file p)) [
      | inl t ↦
          let zeroth : 0 ≡ m = ground (arith, rw t at h) in
          let path : ModulePath = record { source = project; file_path = file } in
          (path, ground (arith, zeroth), ground (arith, eq_iff file p, t))
      | inr f ↦ absurd (let none_is_some = rw f at h in cc)
    ];
    edges = λ m path h out idle. absurd (ground arith);
  }

  -- Module 0 is the file of the entry, and the edges of every module lead where its imports do.
  pub record Followed (entry : String) (nodes : Nodes) (edges : List (ModuleId × List ModuleId))
      : Type 0 where
    pub file : String
    pub canonical : host.canonicalize_existing entry ≡ ok file
    pub entry_module : FileOf nodes 0 file
    pub modules :
        (m : ModuleId) (path : ModulePath)
        → lookup m nodes ≡ some path
        → Follows host nodes path.file_path (list_of m edges)

  pub build_loop-Followed :
      (fuel : ℕ) (entry file : String) (state : host.State)
      → host.canonicalize_existing entry ≡ ok file
      → IfOk (λ b. Followed entry b.nodes b.edges) (build_loop host fuel (start host file state))
  build_loop-Followed fuel entry file state e =
      let path : ModulePath = record { source = project; file_path = file } in
      IfOk-map _ _ (build_loop host fuel (start host file state))
        (λ b (v, done, kept). record {
          file = file;
          canonical = e;
          entry_module = (path, kept 0 path refl, refl);
          modules = λ m found h. v.edges m found h refl (rw done refl);
        })
        (build_loop-Finished fuel (start host file state) (start-Linked file state))
