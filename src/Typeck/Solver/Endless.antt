-- ===== src/Typeck/Solver/Endless.antt =====
-- A run of `unify` (crates/typeck/src/infer.rs) that does not end.
use thagore.Base.{ℕ, zero, suc, ◌≡◌, refl, false, List, none, some, ◌==◌, ◌>>=◌}
use thagore.Lexer.Token.{Span}
use thagore.Typeck.Arena.{TypeId, TypeKind, TypeArena, kind}
use thagore.Typeck.Solver.{TypeError, unify, choose}
use thagore.Typeck.Solver.Forest.{Root}
use thagore.Typeck.Solver.Classes.{Keeps, Keeps-trans, resolve-Keeps}

-- A root that is an array of its own class.
pub record IsOwnElement (arena : TypeArena) (parents : List ℕ) (root : TypeId) : Type 0 where
  pub element : TypeId
  pub is_array : kind root arena ≡ some (TypeKind.array element)
  pub below : Root parents element root

IsOwnElement-Keeps :
    {arena : TypeArena} {before after : List ℕ} {root : TypeId}
    → Keeps before after
    → IsOwnElement arena before root
    → IsOwnElement arena after root
IsOwnElement-Keeps {root = root} keeps c = record {
  element = c.element;
  is_array = c.is_array;
  below = keeps.roots c.element root c.below;
}

-- `unify` does not look whether a type occurs in itself: on two types whose roots differ and are arrays of
-- their own classes it returns with no fuel, so its recursion does not end.
pub unify-Endless :
    (fuel : ℕ) (arena : TypeArena) (span : Span) (left right l r : TypeId) (errors : List TypeError)
    (parents : List ℕ)
    → Root parents left l
    → Root parents right r
    → (l == r) ≡ false
    → IsOwnElement arena parents l
    → IsOwnElement arena parents r
    → unify fuel arena span left right errors parents ≡ none
unfolding unify choose IsOwnElement-Keeps
unify-Endless zero arena span left right l r errors parents at_l at_r apart cl cr = refl
unify-Endless (suc fuel) arena span left right l r errors parents at_l at_r apart cl cr =
    let (first, e, held) = resolve-Keeps parents left l at_l in
    let (second, e', kept) = resolve-Keeps first right r (held.roots right r at_r) in
    let keeps = Keeps-trans held kept in
    let cl' = IsOwnElement-Keeps keeps cl in
    let cr' = IsOwnElement-Keeps keeps cr in
    let inner =
      unify-Endless fuel arena span cl.element cr.element l r errors second cl'.below cr'.below
        apart cl' cr' in
    rw (e, e', ◌>>=◌, apart, cl.is_array, cr.is_array, inner) refl
