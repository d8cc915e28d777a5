-- ===== src/ModuleGraph/Build/Links.antt =====
-- The edges that `build` (crates/module_graph/src/lib.rs) makes are the imports of the modules.
use Prim.Native.String.{String}
use text.Mathlib.Text
use text.Mathlib.TextEquality.{eq_iff}
use thagore.Base.Maps.{mem, mem-append, lookup, insert, lookup-insert}
use thagore.Base.{
  ◌+◌, ◌<◌, ◌≡◌, refl, true, false, List, [], ◌∷◌, some, ltb, u32_limit, arith, Option-cases,
  Bool-cases, inl, inr, ◌⊎◌, ◌==◌, if◌then◌else◌,
}
use thagore.ModuleGraph.{ModuleId, ModulePath, ModuleSource, list_of}
use thagore.ModuleGraph.Build.{
  ImportSpec, Outcome, ok, err, panicked, overflow, out_of_fuel, then_do, lookup_path, Host,
  Builder, create, find_or_create,
}

-- Where the outcome is a result, `P` holds for it.
abbrev pub IfOk : {A : Type 0} → (A → Type 0) → Outcome A → Type 0
IfOk P (ok a) = P a
IfOk P _ = Unit

pub then_do-IfOk :
    {A B : Type 0} (Q : B → Type 0) (r : Outcome A) (f : A → Outcome B)
    → ((a : A) → r ≡ ok a → IfOk Q (f a))
    → IfOk Q (then_do r f)
then_do-IfOk Q (ok a) f k = k a refl
then_do-IfOk Q (err e) f k = tt
then_do-IfOk Q panicked f k = tt
then_do-IfOk Q overflow f k = tt
then_do-IfOk Q out_of_fuel f k = tt

pub IfOk-map :
    {A : Type 0} (P Q : A → Type 0) (r : Outcome A) → ((a : A) → P a → Q a) → IfOk P r → IfOk Q r
IfOk-map P Q (ok a) k h = k a h
IfOk-map P Q (err e) k h = tt
IfOk-map P Q panicked k h = tt
IfOk-map P Q overflow k h = tt
IfOk-map P Q out_of_fuel k h = tt

abbrev pub Nodes : Type 0
Nodes = List (ModuleId × ModulePath)

-- The module stands for the file.
abbrev pub FileOf : Nodes → ModuleId → String → Type 0
FileOf nodes id file = (path : ModulePath) × (lookup id nodes ≡ some path) × (path.file_path ≡ file)

abbrev pub Every : (ImportSpec → Type 0) → List ImportSpec → Type 0
Every P [] = Unit
Every P (i ∷ imports) = P i × Every P imports

abbrev pub Some : (ImportSpec → Type 0) → List ImportSpec → Type 0
Some P [] = ⊥
Some P (i ∷ imports) = P i ⊎ Some P imports

-- No module is lost.
abbrev pub Kept : Nodes → Nodes → Type 0
Kept before after =
    (id : ModuleId) (path : ModulePath) → lookup id before ≡ some path → lookup id after ≡ some path

Every-map :
    (P Q : ImportSpec → Type 0) (imports : List ImportSpec)
    → ((i : ImportSpec) → P i → Q i)
    → Every P imports
    → Every Q imports
Every-map P Q [] f h = tt
Every-map P Q (i ∷ imports) f h = (f i h.0, Every-map P Q imports f h.1)

Some-map :
    (P Q : ImportSpec → Type 0) (imports : List ImportSpec)
    → ((i : ImportSpec) → P i → Q i)
    → Some P imports
    → Some Q imports
Some-map P Q [] f h = h
Some-map P Q (i ∷ imports) f (inl h) = inl (f i h)
Some-map P Q (i ∷ imports) f (inr h) = inr (Some-map P Q imports f h)

pub FileOf-kept :
    (before after : Nodes) (id : ModuleId) (file : String)
    → Kept before after
    → FileOf before id file
    → FileOf after id file
FileOf-kept before after id file k (path, e, f) = (path, k id path e, f)

module _ (host : Host) where
  -- In some state of the resolver the import in the file leads to the file of the module.
  pub record Leads (nodes : Nodes) (from_file : String) (i : ImportSpec) (id : ModuleId)
      : Type 0 where
    pub state : host.State
    pub next_state : host.State
    pub resolved : ModulePath
    pub file : String
    pub resolves : host.resolve_import i from_file state ≡ ok (resolved, next_state)
    pub canonical : host.canonicalize_existing resolved.file_path ≡ ok file
    pub module_of : FileOf nodes id file

  -- The dependencies are what the imports of the file lead to, and no others.
  pub record Follows (nodes : Nodes) (from_file : String) (deps : List ModuleId) : Type 0 where
    pub imports : List ImportSpec
    pub reads : host.imports_of from_file ≡ ok imports
    pub complete :
        Every (λ i. (id : ModuleId) × (mem id deps ≡ true) × Leads nodes from_file i id) imports
    pub sound :
        (id : ModuleId) → mem id deps ≡ true → Some (λ i. Leads nodes from_file i id) imports

  pub Leads-kept :
      {before after : Nodes} {from_file : String} {i : ImportSpec} {id : ModuleId}
      → Kept before after
      → Leads before from_file i id
      → Leads after from_file i id
  Leads-kept {before} {after} {from_file} {i} {id} k l = record {
    state = l.state;
    next_state = l.next_state;
    resolved = l.resolved;
    file = l.file;
    resolves = l.resolves;
    canonical = l.canonical;
    module_of = FileOf-kept before after id l.file k l.module_of;
  }

  pub Follows-kept :
      {before after : Nodes} {from_file : String} {deps : List ModuleId}
      → Kept before after
      → Follows before from_file deps
      → Follows after from_file deps
  Follows-kept k f = record {
    imports = f.imports;
    reads = f.reads;
    complete = Every-map _ _ f.imports (λ i (id, m, l). (id, m, Leads-kept k l)) f.complete;
    sound = λ id m. Some-map _ _ f.imports (λ i l. Leads-kept k l) (f.sound id m);
  }

  -- Every module that is not pending, and is none of `except`, has the edges of its imports.
  pub record Linked (except : List ModuleId) (b : Builder host) : Type 0 where
    pub below : (m : ModuleId) (path : ModulePath) → lookup m b.nodes ≡ some path → m < b.next_id
    pub files :
        (file : String) (m : ModuleId) → lookup_path file b.by_path ≡ some m → FileOf b.nodes m file
    pub edges :
        (m : ModuleId) (path : ModulePath)
        → lookup m b.nodes ≡ some path
        → mem m except ≡ false
        → mem m b.pending ≡ false
        → Follows b.nodes path.file_path (list_of m b.edges)

  abbrev pub Grew : List ModuleId → Builder host → Builder host → Type 0
  Grew except b c = Linked except c × Kept b.nodes c.nodes

  -- A module, and the state in which it stands for the file.
  abbrev pub Has : List ModuleId → Builder host → String → ModuleId × Builder host → Type 0
  Has except b file (id, c) = Grew except b c × FileOf c.nodes id file

  create-Has :
      (except : List ModuleId) (source : ModuleSource) (file : String) (b : Builder host)
      → Linked except b
      → IfOk (Has except b file) (create host source file b)
  unfolding create
  create-Has except source file b v = elim (Bool-cases (ltb (b.next_id + 1) u32_limit)) [
    | inr e ↦ rw (e, create) tt
    | inl e ↦
        let n = b.next_id in
        let new_path : ModulePath = record { source = source; file_path = file } in
        let look : (m : ModuleId)
            → lookup m (insert n new_path b.nodes)
              ≡ (if n == m then some new_path else lookup m b.nodes) =
          λ m. lookup-insert n m new_path b.nodes in
        let keeps : Kept b.nodes (insert n new_path b.nodes) =
          λ m path h. ground (arith, look m, v.below m path h, h) in
        rw (e, create)
          (
            (
              record {
                below = λ m path h. ground (arith, look m, v.below m path, h);
                files = λ p m h. elim (Bool-cases (Text.◌==◌ file p)) [
                  | inl t ↦
                      let same : n ≡ m = ground (arith, rw t at h) in
                      (new_path, ground (arith, look m, same), ground (arith, eq_iff file p, t))
                  | inr f ↦
                      FileOf-kept b.nodes (insert n new_path b.nodes) m p keeps
                        (v.files p m (rw f at h))
                ];
                edges = λ m path h out waiting.
                    let joined = mem-append m b.pending (n ∷ []) in
                    let other : (n == m) ≡ false = ground (arith, joined, waiting) in
                    let idle : mem m b.pending ≡ false = ground (arith, joined, waiting) in
                    let old : lookup m b.nodes ≡ some path = ground (arith, look m, other, h) in
                    let same : list_of m (insert n [] b.edges) ≡ list_of m b.edges =
                      ground (arith, lookup-insert n m [] b.edges, other) in
                    rw same (Follows-kept keeps (v.edges m path old out idle));
              },
              keeps,
            ),
            (new_path, ground (arith, look n), refl),
          )
  ]

  pub find_or_create-Has :
      (except : List ModuleId) (source : ModuleSource) (file : String) (b : Builder host)
      → Linked except b
      → IfOk (Has except b file) (find_or_create host source file b)
  unfolding find_or_create
  find_or_create-Has except source file b v = elim (Option-cases (lookup_path file b.by_path)) [
    | inl e ↦ rw (e, find_or_create) (create-Has except source file b v)
    | inr (id, e) ↦ rw (e, find_or_create) ((v, λ m path h. h), v.files file id e)
  ]
