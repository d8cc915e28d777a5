-- ===== src/Typeck/Solver/Sync.antt =====
-- The solver and the arena (crates/typeck/src/infer.rs): new identifiers become classes of their own, and a
-- constraint is recorded and applied.
use thagore.Base.{
  ℕ, zero, suc, ◌+◌, ◌<◌, ◌≤◌, ◌≡◌, refl, ap, ◌∙◌, List, [], ◌∷◌, ◌++◌, some, Option, ◌==◌, length,
  get_elem?, arith, Bool-cases, inl, inr, as_u32, as_u32-eq, u32_limit, length-append,
}
use thagore.Typeck.Arena.{TypeId, TypeArena}
use thagore.Typeck.Solver.{extend, TypeError, TypeConstraint, InferenceSolver}
use thagore.Typeck.Solver.Forest.{Chain, at_root, above, IsForest}
use thagore.Typeck.Solver.Classes.{Same}
use thagore.Typeck.Solver.Nested.{Nested}

get_elem?-more :
    (parents more : List ℕ) (i p : ℕ)
    → get_elem? parents i ≡ some p
    → get_elem? (parents ++ more) i ≡ some p
get_elem?-more [] more i p h = cc
get_elem?-more (q ∷ parents) more zero p h = h
get_elem?-more (q ∷ parents) more (suc i) p h = get_elem?-more parents more i p h

get_elem?-new : (parents : List ℕ) (p : ℕ) → get_elem? (parents ++ p ∷ []) (length parents) ≡ some p
get_elem?-new [] p = refl
get_elem?-new (q ∷ parents) p = get_elem?-new parents p

Chain-more :
    {parents : List ℕ} {id root steps : ℕ} (more : List ℕ)
    → Chain parents id root steps
    → Chain (parents ++ more) id root steps
Chain-more {parents} more (at_root root h) = at_root root (get_elem?-more parents more root root h)
Chain-more {parents} more (above id p root steps e ne c) =
    above id p root steps (get_elem?-more parents more id p e) ne (Chain-more more c)

push-IsForest :
    (parents : List ℕ)
    → length parents < u32_limit
    → IsForest parents
    → IsForest (parents ++ as_u32 (length parents) ∷ [])
push-IsForest parents small forest =
    let found = get_elem?-new parents (as_u32 (length parents)) in
    let top = at_root (length parents) (found ∙ ap some (as_u32-eq (length parents) small)) in
    λ id bound. elim (Bool-cases (id == length parents)) [
      | inl t ↦
          let own : id ≡ length parents = ground arith in
          (id, rw own (record { steps = 0; chain = top }))
      | inr f ↦
          let (root, r) =
            forest id (ground (arith, length-append parents (as_u32 (length parents) ∷ []))) in
          (
            root,
            record { steps = r.steps; chain = Chain-more (as_u32 (length parents) ∷ []) r.chain },
          )
    ]

pub extend-IsForest :
    (n : ℕ) (parents : List ℕ)
    → length parents + n ≤ u32_limit
    → IsForest parents
    → IsForest (extend n parents)
extend-IsForest zero parents small forest = forest
extend-IsForest (suc n) parents small forest =
    let longer = length-append parents (as_u32 (length parents) ∷ []) in
    extend-IsForest n (parents ++ as_u32 (length parents) ∷ []) (omega (arith, longer))
      (push-IsForest parents (omega arith) forest)

-- The solver has a class for every identifier it knows, and none that the arena has not given.
pub record IsSolver (arena : TypeArena) (solver : InferenceSolver) : Type 0 where
  pub forest : IsForest solver.parents
  pub known : length solver.parents ≤ length arena.kinds

-- What a call of `add_equality` on `left` and `right` gives.
pub record Adds (arena : TypeArena) (solver : InferenceSolver) (errors : List TypeError)
    (constraint : TypeConstraint) (result : Option (TypeId × InferenceSolver × List TypeError))
    : Type 0 where
  pub ty : TypeId
  pub after : InferenceSolver
  pub added : List TypeError
  pub ends : result ≡ some (ty, after, errors ++ added)
  pub recorded : after.constraints ≡ solver.constraints ++ constraint ∷ []
  pub still : IsSolver arena after
  pub covers : length after.parents ≡ length arena.kinds
  pub grows : (a b : TypeId) → Same solver.parents a b → Same after.parents a b
