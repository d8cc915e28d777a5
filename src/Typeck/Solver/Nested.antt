-- ===== src/Typeck/Solver/Nested.antt =====
-- The arrays of arrays among the types of `InferenceSolver` (crates/typeck/src/infer.rs).
use thagore.Base.{ℕ, suc, ◌<◌, ◌≡◌, false, List, some, length}
use thagore.Typeck.Arena.{TypeId, TypeKind, TypeArena, kind}
use thagore.Typeck.Solver.Forest.{Root}
use thagore.Typeck.Solver.Classes.{Keeps}
use thagore.Typeck.Solver.Choice.{is_nested}

-- The type is an array of arrays, `depth` deep, of a type that is neither an array nor a function.
pub data Nested (arena : TypeArena) (parents : List ℕ) : (id : TypeId) (depth : ℕ) → Type 0 where
  flat :
      (id root : TypeId) (k : TypeKind)
      → Root parents id root
      → kind root arena ≡ some k
      → is_nested k ≡ false
      → Nested arena parents id 0
  array_of :
      (id root element : TypeId) (depth : ℕ)
      → Root parents id root
      → kind root arena ≡ some (TypeKind.array element)
      → Nested arena parents element depth
      → Nested arena parents id (suc depth)

pub Nested-Keeps :
    {arena : TypeArena} {before after : List ℕ} {id : TypeId} {depth : ℕ}
    → Keeps before after
    → Nested arena before id depth
    → Nested arena after id depth
Nested-Keeps k (flat id root j r e f) = flat id root j (k.roots id root r) e f
Nested-Keeps k (array_of id root element depth r e n) =
    array_of id root element depth (k.roots id root r) e (Nested-Keeps k n)

-- The elements of the arrays of the arena are types of the arena.
abbrev pub IsClosed : TypeArena → Type 0
IsClosed arena =
    (id element : TypeId)
    → kind id arena ≡ some (TypeKind.array element)
    → element < length arena.kinds
