-- ===== src/Typeck/Solver/Unify.antt =====
-- When `unify` of crates/typeck/src/infer.rs returns.
use thagore.Base.{
  ℕ, zero, suc, ◌<◌, ◌≡◌, ◌≢◌, ap, ◌∙◌, true, List, [], some, ◌==◌, length, arith, Bool-cases, inl,
  inr, append-nil, ◌>>=◌, Option-cases, length-le_of_get_elem?, ==_iff,
}
use thagore.Lexer.Token.{Span}
use thagore.Typeck.Arena.{TypeId, TypeKind, FunctionType, TypeArena, kind}
use thagore.Typeck.Solver.{TypeError, choose, unify}
use thagore.Typeck.Solver.Forest.{Root, IsForest}
use thagore.Typeck.Solver.Classes.{
  Same, Root-self, Root-bound, Keeps, Keeps-trans, IsForest-Keeps, resolve-Keeps,
}
use thagore.Typeck.Solver.Choice.{choose-Choice}
use thagore.Typeck.Solver.Unions.{Unifies, Same-root, gives-Unifies}
use thagore.Typeck.Solver.Nested.{Nested, flat, array_of, Nested-Keeps, IsClosed}
use thagore.Typeck.Solver.Perform.{perform-Unifies, below-Unifies}

kind-some :
    (arena : TypeArena) (id : TypeId)
    → id < length arena.kinds
    → (k : TypeKind) × (kind id arena ≡ some k)
kind-some arena id small = elim (Option-cases (kind id arena)) [
  | inr (k, e) ↦ (k, e)
  | inl e ↦ absurd (omega (arith, length-le_of_get_elem? arena.kinds id e))
]

own : (a b : ℕ) → (a == b) ≡ true → a ≡ b
own a b h = (==_iff a b).0 h

-- One round of `unify`, whose recursive calls are on elements of the left type.
round-Unifies :
    (fuel : ℕ) (arena : TypeArena) (span : Span) (left right l : TypeId) (k : TypeKind)
    (errors : List TypeError) (parents : List ℕ)
    → IsForest parents
    → length parents ≡ length arena.kinds
    → Root parents left l
    → kind l arena ≡ some k
    → right < length parents
    → ((f : FunctionType) → k ≢ TypeKind.function f)
    → ((a b : TypeId) (k' : TypeKind) (r : TypeId) (after : List ℕ)
        → Keeps parents after
        → k ≡ TypeKind.array a
        → kind r arena ≡ some (TypeKind.array b)
        → Unifies arena after errors a b (unify fuel arena span a b errors after))
    → Unifies arena parents errors left right
        (unify (suc fuel) arena span left right errors parents)
unfolding unify
round-Unifies fuel arena span left right l k errors parents forest size at_l kind_l in_r not_fn
      inner =
    let (first, e, held) = resolve-Keeps parents left l at_l in
    let (r, at_r) = forest right in_r in
    let (second, e', kept) = resolve-Keeps first right r (held.roots right r at_r) in
    let keeps = Keeps-trans held kept in
    let forest' = IsForest-Keeps forest keeps in
    let l_at_l = keeps.roots l l (Root-self at_l) in
    let r_at_r = keeps.roots r r (Root-self at_r) in
    elim (Bool-cases (l == r)) [
      | inl t ↦
          let same : Same second l r = rw (own l r t) (Same-root r_at_r) in
          rw (e, e', ◌>>=◌, t)
            (below-Unifies keeps at_l at_r (
              rw (append-nil errors) at
                (gives-Unifies arena errors second l r l [] forest' (λ _. inl same))))
      | inr f ↦
          let (k', kind_r) = kind-some arena r (omega (arith, Root-bound (Root-self at_r))) in
          rw (e, e', ◌>>=◌, f, kind_l, kind_r)
            (below-Unifies keeps at_l at_r (
              perform-Unifies arena span (unify fuel arena span) errors second l r k k' forest'
                l_at_l r_at_r kind_l kind_r not_fn
                (λ a b p q. inner a b k' r second keeps p (kind_r ∙ ap some q))
                (choose arena l r k k') (choose-Choice arena l r k k')))
    ]

-- In an arena whose elements are its own types, on a forest of its types, `unify` of an array of arrays of a type that
-- is neither array nor function, or of such a type, with any type returns when the fuel is more than
-- the arrays are deep. It leaves a forest in which every class has grown or stayed, adds errors
-- after those that were there, and where it adds none, the two types are of one class or one of them
-- was the unknown type.
pub unify-Unifies :
    (fuel : ℕ) (arena : TypeArena) (span : Span) (left right depth : TypeId)
    (errors : List TypeError) (parents : List ℕ)
    → IsClosed arena
    → IsForest parents
    → length parents ≡ length arena.kinds
    → Nested arena parents left depth
    → right < length parents
    → depth < fuel
    → Unifies arena parents errors left right (unify fuel arena span left right errors parents)
unify-Unifies zero arena span left right depth errors parents closed forest size n in_r small =
    absurd (omega arith)
unify-Unifies (suc fuel) arena span _ right _ errors parents closed forest size
      (flat id root k at e not_nested) in_r small =
    round-Unifies fuel arena span id right root k errors parents forest size at e in_r
      (λ f. ground arith) (λ a b k' r after keeps p q. absurd (ground arith))
unify-Unifies (suc fuel) arena span _ right _ errors parents closed forest size
      (array_of id root element depth at e n) in_r small =
    round-Unifies fuel arena span id right root (TypeKind.array element) errors parents forest size
      at e in_r (λ f. ground arith)
      (λ a b k' r after keeps p q.
        let own : element ≡ a = ground arith in
        let in_b : b < length after = omega (arith, closed r b q, keeps.keeps_length) in
        unify-Unifies fuel arena span a b depth errors after closed (IsForest-Keeps forest keeps)
          (keeps.keeps_length ∙ size) (Nested-Keeps keeps (rw own at n)) in_b (omega arith))
