-- ===== src/Typeck/Solver.antt =====
-- crates/typeck/src/infer.rs: `InferenceSolver`, a union-find over the identifiers of types that equality
-- constraints merge. `none` stands for a panic, and for a run that the fuel does not reach the end of.
pub mod Forest
pub mod Classes
pub mod Choice
pub mod Unions
pub mod Nested
pub mod Perform
pub mod Unify
pub mod Endless
pub mod Sync
mod Tests
use thagore.Base.{
  ℕ, zero, suc, ◌+◌, ◌-◌, Bool, true, false, List, [], ◌∷◌, ◌++◌, Option, none, some, ◌==◌, as_u32,
  if◌then◌else◌, length, get_elem?, ◌>>=◌,
}
use thagore.Lexer.Token.{Span}
use thagore.Typeck.Arena.{TypeId, TypeKind, StructType, FunctionType, TypeArena, kind}

pub data TypeConstraint : Type 0 where
  equal : (left right : TypeId) (span : Span) → TypeConstraint
  subtype : (sub sup : TypeId) (span : Span) → TypeConstraint

-- The one error of error.rs that the solver makes.
pub data TypeError : Type 0 where
  type_mismatch : (expected found : TypeId) (span : Span) → TypeError

pub record InferenceSolver : Type 0 where
  pub parents : List ℕ
  pub constraints : List TypeConstraint

abbrev pub new : InferenceSolver
new = record { parents = []; constraints = [] }

abbrev pub clear : InferenceSolver → InferenceSolver
clear solver = new

-- `count` pushes of `parents.len()`
abbrev pub extend : ℕ → List ℕ → List ℕ
extend zero parents = parents
extend (suc count) parents = extend count (parents ++ as_u32 (length parents) ∷ [])

unfoldable pub sync_with_arena : TypeArena → InferenceSolver → InferenceSolver
sync_with_arena arena solver = record solver {
  parents = extend (length arena.kinds - length solver.parents) solver.parents;
}

unfoldable pub ensure : TypeId → List ℕ → List ℕ
ensure id parents = extend (id + 1 - length parents) parents

abbrev pub set_parent : ℕ → ℕ → List ℕ → List ℕ
set_parent i root [] = []
set_parent zero root (p ∷ parents) = root ∷ parents
set_parent (suc i) root (p ∷ parents) = p ∷ set_parent i root parents

-- The root above `id`; every parent that is passed becomes the root.
unfoldable pub find : ℕ → ℕ → List ℕ → Option (ℕ × List ℕ)
find zero id parents = none
find (suc fuel) id parents = do
  parent ← get_elem? parents id
  if parent == id then some (id, parents) else do
    (root, compressed) ← find fuel parent parents
    some (root, set_parent id root compressed)

-- A chain of parents has no more steps than there are parents.
unfoldable pub find_root : ℕ → List ℕ → Option (ℕ × List ℕ)
find_root id parents = find (suc (length parents)) id parents

unfoldable pub resolve : TypeId → List ℕ → Option (TypeId × List ℕ)
resolve id parents = find_root id (ensure id parents)

unfoldable pub union : TypeId → TypeId → List ℕ → Option (List ℕ)
union child parent parents = do
  (child_root, found) ← find_root child (ensure parent (ensure child parents))
  (parent_root, both) ← find_root parent found
  some (set_parent child_root parent_root both)

-- The result of a call of `unify`: a type, the parents and the errors.
abbrev pub Unified : Type 0
Unified = TypeId × List ℕ × List TypeError

abbrev pub union_to : TypeId → TypeId → TypeId → List TypeError → List ℕ → Option Unified
union_to child parent result errors parents = do
  joined ← union child parent parents
  some (result, joined, errors)

abbrev pub union_roots : TypeId → TypeId → List TypeError → List ℕ → Option Unified
union_roots left_root right_root errors parents = do
  joined ← union left_root right_root parents
  (root, found) ← resolve left_root joined
  some (root, found, errors)

abbrev pub mismatch : TypeArena → TypeId → TypeId → Span → List TypeError → List ℕ → Option Unified
mismatch arena expected found span errors parents =
    some (arena.unknown_id, parents, errors ++ TypeError.type_mismatch expected found span ∷ [])

-- What is done with two roots that differ.
pub data Step : Type 0 where
  give_unknown : Step
  link : (child parent : TypeId) → Step
  merge : Step
  report : (expected found : TypeId) → Step
  elements : (left_element right_element : TypeId) → Step
  signatures : (left_fn right_fn : FunctionType) → Step

abbrev structs : StructType → StructType → TypeId → TypeId → Step
structs s t left_root right_root =
    if s.name == t.name then Step.merge else Step.report left_root right_root

abbrev functions : FunctionType → FunctionType → TypeId → TypeId → Step
functions f g left_root right_root =
    if length f.params == length g.params
    then Step.signatures f g
    else Step.report left_root right_root

-- The match of `unify`, in its order.
unfoldable pub choose : TypeArena → TypeId → TypeId → TypeKind → TypeKind → Step
choose arena l r TypeKind.unknown _ = Step.give_unknown
choose arena l r _ TypeKind.unknown = Step.give_unknown
choose arena l r (TypeKind.infer n) (TypeKind.infer m) = Step.merge
choose arena l r (TypeKind.int_infer n) (TypeKind.int_infer m) = Step.merge
choose arena l r (TypeKind.infer n) _ = Step.link l r
choose arena l r _ (TypeKind.infer m) = Step.link r l
choose arena l r (TypeKind.int_infer n) TypeKind.i32 = Step.link l r
choose arena l r (TypeKind.int_infer n) TypeKind.i64 = Step.link l r
choose arena l r (TypeKind.int_infer n) TypeKind.f64 = Step.link l r
choose arena l r TypeKind.i32 (TypeKind.int_infer m) = Step.link r l
choose arena l r TypeKind.i64 (TypeKind.int_infer m) = Step.link r l
choose arena l r TypeKind.f64 (TypeKind.int_infer m) = Step.link r l
choose arena l r (TypeKind.int_infer n) _ = Step.report arena.i32_id r
choose arena l r _ (TypeKind.int_infer m) = Step.report l arena.i32_id
choose arena l r (TypeKind.array a) (TypeKind.array b) = Step.elements a b
choose arena l r (TypeKind.function f) (TypeKind.function g) = functions f g l r
choose arena l r (TypeKind.struct s) (TypeKind.struct t) = structs s t l r
choose arena l r _ _ = Step.report l r

-- A recursive call of `unify`: it has the arena and the span.
abbrev pub Again : Type 0
Again = TypeId → TypeId → List TypeError → List ℕ → Option Unified

abbrev pub unify_params :
    Again → List TypeId → List TypeId → List TypeError → List ℕ → Option (List ℕ × List TypeError)
unify_params again (p ∷ ps) (q ∷ qs) errors parents = do
  (_, parents, errors) ← again p q errors parents
  unify_params again ps qs errors parents
unify_params again _ _ errors parents = some (parents, errors)

abbrev pub perform :
    Again → TypeArena → Span → TypeId → TypeId → Step → List TypeError → List ℕ → Option Unified
perform again arena span l r Step.give_unknown errors parents =
    some (arena.unknown_id, parents, errors)
perform again arena span l r (Step.link child parent) errors parents =
    union_to child parent parent errors parents
perform again arena span l r Step.merge errors parents = union_roots l r errors parents
perform again arena span l r (Step.report expected found) errors parents =
    mismatch arena expected found span errors parents
perform again arena span l r (Step.elements a b) errors parents = do
  (_, parents, errors) ← again a b errors parents
  union_roots l r errors parents
perform again arena span l r (Step.signatures f g) errors parents = do
  (parents, errors) ← unify_params again f.params g.params errors parents
  (_, parents, errors) ← again f.return_type g.return_type errors parents
  union_roots l r errors parents

unfoldable pub unify :
    ℕ → TypeArena → Span → TypeId → TypeId → List TypeError → List ℕ → Option Unified
unify zero arena span left right errors parents = none
unify (suc fuel) arena span left right errors parents = do
  (left_root, parents) ← resolve left parents
  (right_root, parents) ← resolve right parents
  elim (left_root == right_root) [
    | true ↦ some (left_root, parents, errors)
    | false ↦ do
      left_kind ← kind left_root arena
      right_kind ← kind right_root arena
      perform (unify fuel arena span) arena span left_root right_root
          (choose arena left_root right_root left_kind right_kind) errors parents
  ]

abbrev constrain :
    ℕ
    → TypeArena
    → TypeConstraint
    → TypeId
    → TypeId
    → Span
    → List TypeError
    → InferenceSolver
    → Option (TypeId × InferenceSolver × List TypeError)
constrain fuel arena constraint left right span errors solver =
    let synced = sync_with_arena arena solver in
    do
      (t, parents, errors) ← unify fuel arena span left right errors synced.parents
      some (
        t,
        record { parents = parents; constraints = solver.constraints ++ constraint ∷ [] },
        errors,
      )

unfoldable pub add_equality :
    ℕ
    → TypeArena
    → TypeId
    → TypeId
    → Span
    → List TypeError
    → InferenceSolver
    → Option (TypeId × InferenceSolver × List TypeError)
add_equality fuel arena left right span errors solver =
    constrain fuel arena (TypeConstraint.equal left right span) left right span errors solver

unfoldable pub add_subtype :
    ℕ
    → TypeArena
    → TypeId
    → TypeId
    → Span
    → List TypeError
    → InferenceSolver
    → Option (TypeId × InferenceSolver × List TypeError)
add_subtype fuel arena sub sup span errors solver =
    constrain fuel arena (TypeConstraint.subtype sub sup span) sub sup span errors solver
