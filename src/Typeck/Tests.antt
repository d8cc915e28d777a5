-- ===== src/Typeck/Tests.antt =====
-- Small runs of the arena, the table and the scopes.
use thagore.Base.{
  ◌+◌, ◌<◌, ◌≡◌, refl, true, List, [], ◌∷◌, ◌++◌, none, some, ◌==◌, if◌then◌else◌, as_u32, arith,
}
use thagore.Typeck.Arena
use thagore.Typeck.Arena.Interning.{
  Interned, intern-Interned, IsCanonical, started, array, reserved, Reachable-IsCanonical,
  reserve_struct-again,
}
use thagore.Typeck.Arena.{
  TypeId, TypeKind, TypeArena, intern, intern_array, reserve_struct, set_struct_fields, kind_eq,
}
use thagore.Typeck.Scope
use thagore.Typeck.Scope.{
  ScopeStack, Op, push, pop, bind, run, IsBalanced, nothing, binding, block, depth, push_scope,
  run-block, run_total, get-insert_name, insert_name, contains_in_current_scope,
}
use thagore.Typeck.Table
use thagore.Typeck.Table.{TypeTable, rewrite_all, get-insert}

-- An arena with the arrays of `i32`.
abbrev arrays : TypeArena
arrays = (intern_array 2 Arena.new).1

intern_arrays : (intern_array 2 arrays).0 ≡ 7
unfolding intern kind_eq as_u32
intern_arrays = refl

intern-Interned_example : Interned (TypeKind.array 3) arrays (intern (TypeKind.array 3) arrays)
unfolding intern kind_eq as_u32
intern-Interned_example = intern-Interned (TypeKind.array 3) arrays (omega arith)

Reachable-IsCanonical_example : IsCanonical (reserve_struct 5 arrays).1
Reachable-IsCanonical_example =
    Reachable-IsCanonical (reserve_struct 5 arrays).1
      (reserved arrays 5 (array Arena.new 2 started))

reserve_struct-again_example :
    reserve_struct 5
      (set_struct_fields 8 (record { name = 1; ty = 2 } ∷ []) (reserve_struct 5 arrays).1)
    ≡ (
      (reserve_struct 5 arrays).0,
      set_struct_fields 8 (record { name = 1; ty = 2 } ∷ []) (reserve_struct 5 arrays).1,
    )
reserve_struct-again_example =
    reserve_struct-again 5 arrays 8 (record { name = 1; ty = 2 } ∷ []) (reserve_struct 5 arrays)
      refl

get-insert_example : Table.get 3 (Table.insert 3 6 []) ≡ (if 3 == 3 then some 6 else Table.get 3 [])
get-insert_example = get-insert 3 3 6 []

-- A closure that counts its calls.
rewrite_all-counts :
    rewrite_all (λ id count. (id + count, count + 1)) (some 4 ∷ none ∷ some 4 ∷ []) 0
    ≡ (some 4 ∷ none ∷ some 5 ∷ [], 2)
unfolding rewrite_all
rewrite_all-counts = refl

abbrev two_scopes : ScopeStack
two_scopes = ((1, 2) ∷ []) ∷ ((1, 3) ∷ (4, 5) ∷ []) ∷ []

abbrev body : List Op
body = bind 1 6 ∷ push ∷ ((bind 4 2 ∷ []) ++ pop ∷ [])

body-IsBalanced : IsBalanced body
body-IsBalanced = binding 1 6 _ (block (bind 4 2 ∷ []) [] (binding 4 2 [] nothing) nothing)

run-block_example : run (push ∷ (body ++ pop ∷ [])) two_scopes ≡ some two_scopes
run-block_example = run-block body two_scopes body-IsBalanced (omega arith)

run_total_example :
    (t : ScopeStack) × (run (pop ∷ pop ∷ bind 1 2 ∷ []) two_scopes ≡ some t) × (0 < depth t)
run_total_example = run_total (pop ∷ pop ∷ bind 1 2 ∷ []) two_scopes (omega arith)

abbrev bound : ScopeStack
bound = ((1, 9) ∷ []) ∷ ((1, 3) ∷ (4, 5) ∷ []) ∷ []

get-insert_name_example :
    (Scope.get 1 bound ≡ (if 1 == 1 then some 9 else Scope.get 1 two_scopes))
    × (contains_in_current_scope 1 two_scopes ≡ true)
    × (contains_in_current_scope 1 bound ≡ true)
unfolding insert_name
get-insert_name_example = get-insert_name 1 1 9 two_scopes bound (some 2) refl
