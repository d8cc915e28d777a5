-- ===== src/Typeck/Solver/Tests.antt =====
-- Runs of `InferenceSolver` (crates/typeck/src/infer.rs).
use thagore.Base.{ℕ, ◌≡◌, refl, List, [], ◌∷◌, Option, none, some, suc, zero, as_u32, ◌>>=◌, arith}
use thagore.Lexer.Token.{Span}
use thagore.Typeck.Arena.{TypeArena, TypeKind, intern_array, TypeId, intern, position, kind_eq}
use thagore.Typeck.Arena
use thagore.Typeck.Solver
use thagore.Typeck.Solver.Forest.{IsForest, at_root, above}
use thagore.Typeck.Solver.Classes.{UnionLaw, union-UnionLaw}
use thagore.Typeck.Solver.Unions.{Unifies}
use thagore.Typeck.Solver.Nested.{Nested, flat, array_of, IsClosed}
use thagore.Typeck.Solver.Unify.{unify-Unifies}
use thagore.Typeck.Solver.Endless.{unify-Endless}
use thagore.Typeck.Solver.Sync.{extend-IsForest}
use thagore.Typeck.Solver.{
  InferenceSolver, TypeError, add_equality, unify, sync_with_arena, TypeConstraint, resolve,
  find_root, find, ensure, choose, union,
}

abbrev here : Span
here = record { start = 0; end = 0 }

-- `[i32]` 7, `[[i32]]` 8, `[f64]` 9, `[[f64]]` 10
abbrev arrays : TypeArena
arrays = record Arena.new {
  kinds =
      TypeKind.unit
      ∷ TypeKind.unknown
      ∷ TypeKind.i32
      ∷ TypeKind.i64
      ∷ TypeKind.f64
      ∷ TypeKind.bool
      ∷ TypeKind.str
      ∷ TypeKind.array 2
      ∷ TypeKind.array 7
      ∷ TypeKind.array 4
      ∷ TypeKind.array 9
      ∷ [];
}

abbrev two_mismatches : Option (TypeId × InferenceSolver × List TypeError)
two_mismatches = do
  (_, solver, errors) ← add_equality 9 arrays 7 8 here [] Solver.new
  add_equality 9 arrays 9 10 here errors solver

-- The parents that two errors leave: `[i32]` stands below `[[i32]]`, and so does `[f64]` below `[[f64]]`.
abbrev crossed : List ℕ
crossed = 0 ∷ 1 ∷ 2 ∷ 3 ∷ 4 ∷ 5 ∷ 6 ∷ 8 ∷ 8 ∷ 10 ∷ 10 ∷ []

two_mismatches-crossed :
    two_mismatches
    ≡ some (
      10,
      record {
        parents = crossed;
        constraints = TypeConstraint.equal 7 8 here ∷ TypeConstraint.equal 9 10 here ∷ [];
      },
      TypeError.type_mismatch 2 7 here ∷ TypeError.type_mismatch 4 9 here ∷ [],
    )
unfolding add_equality unify resolve find_root find ensure sync_with_arena as_u32 choose union
two_mismatches-crossed = refl

unify-Endless_example : unify 1000 arrays here 8 10 [] crossed ≡ none
unify-Endless_example =
    unify-Endless 1000 arrays here 8 10 8 10 [] crossed
      (record { steps = 0; chain = at_root 8 refl }) (record { steps = 0; chain = at_root 10 refl })
      refl
      (record {
        element = 7;
        is_array = refl;
        below = record { steps = 1; chain = above 7 8 8 0 refl refl (at_root 8 refl) };
      })
      (record {
        element = 9;
        is_array = refl;
        below = record { steps = 1; chain = above 9 10 10 0 refl refl (at_root 10 refl) };
      })

-- A variable 7 and its array 8, with `i32`.
abbrev variables : TypeArena
variables = record Arena.new {
  kinds =
      TypeKind.unit
      ∷ TypeKind.unknown
      ∷ TypeKind.i32
      ∷ TypeKind.infer 0
      ∷ TypeKind.array 3
      ∷ TypeKind.array 2
      ∷ [];
}

abbrev singles : List ℕ
singles = 0 ∷ 1 ∷ 2 ∷ 3 ∷ 4 ∷ 5 ∷ []

singles-IsForest : IsForest singles
unfolding as_u32
singles-IsForest = extend-IsForest 6 [] (omega arith) (λ id small. absurd (omega arith))

variables-IsClosed : IsClosed variables
variables-IsClosed zero element h = ground arith
variables-IsClosed (suc zero) element h = ground arith
variables-IsClosed (suc (suc zero)) element h = ground arith
variables-IsClosed (suc (suc (suc zero))) element h = ground arith
variables-IsClosed (suc (suc (suc (suc zero)))) element h = ground arith
variables-IsClosed (suc (suc (suc (suc (suc zero))))) element h = ground arith
variables-IsClosed (suc (suc (suc (suc (suc (suc id)))))) element h = cc

union-UnionLaw_example : UnionLaw singles 3 2 (union 3 2 singles)
union-UnionLaw_example = union-UnionLaw singles 3 2 singles-IsForest (omega arith) (omega arith)

array_variable-Nested : Nested variables singles 4 1
array_variable-Nested =
    array_of 4 4 3 0 (record { steps = 0; chain = at_root 4 refl }) refl
      (flat 3 3 (TypeKind.infer 0) (record { steps = 0; chain = at_root 3 refl }) refl refl)

unify-Unifies_example : Unifies variables singles [] 4 5 (unify 2 variables here 4 5 [] singles)
unify-Unifies_example =
    unify-Unifies 2 variables here 4 5 1 [] singles variables-IsClosed singles-IsForest refl
      array_variable-Nested (omega arith) (omega arith)

abbrev solver : InferenceSolver
solver = record { parents = singles; constraints = [] }
