-- ===== src/Typeck/Solver/Perform.antt =====
-- One step of `unify` (crates/typeck/src/infer.rs) on two roots.
use thagore.Base.{
  ℕ, ◌<◌, ◌≡◌, ◌≢◌, ap, ◌∙◌, List, [], ◌∷◌, ◌++◌, Option, some, length, arith, inl, inr, ◌⊎◌,
  append-nil,
}
use thagore.Lexer.Token.{Span}
use thagore.Typeck.Arena.{TypeId, TypeKind, FunctionType, TypeArena, kind}
use thagore.Typeck.Solver.{TypeError, Step, Again, Unified, perform}
use thagore.Typeck.Solver.Forest.{Root, IsForest}
use thagore.Typeck.Solver.Classes.{Root-unique, Root-self, Root-bound, Keeps}
use thagore.Typeck.Solver.Choice.{
  Choice, unknown_left, unknown_right, links_left, links_right, merges, reports, in_elements,
  in_signatures,
}
use thagore.Typeck.Solver.Unions.{
  IsUnknown, Unifies, Same-trans, Same-Keeps, Same-root, Same-sym, union_to-Unions,
  union_roots-Unions, Unions-Unifies, then-Unifies, Unifies-sym, gives-Unifies,
}

-- Two roots that differ, and the calls on their elements.
module _ (arena : TypeArena) (span : Span) (again : Again) (errors : List TypeError)
    (parents : List ℕ) (l r : TypeId) (k k' : TypeKind) (forest : IsForest parents)
    (at_l : Root parents l l) (at_r : Root parents r r) (kind_l : kind l arena ≡ some k)
    (kind_r : kind r arena ≡ some k') (not_fn : (f : FunctionType) → k ≢ TypeKind.function f)
    (inner : (a b : TypeId)
      → k ≡ TypeKind.array a
      → k' ≡ TypeKind.array b
      → Unifies arena parents errors a b (again a b errors parents)) where
  unknown-Unifies :
      IsUnknown arena parents l ⊎ IsUnknown arena parents r
      → Unifies arena parents errors l r (some (arena.unknown_id, parents, errors))
  unknown-Unifies unknown =
      rw (append-nil errors) at
        (gives-Unifies arena errors parents l r arena.unknown_id [] forest (λ _. inr unknown))

  pub perform-Unifies :
      (step : Step)
      → Choice arena l r k k' step
      → Unifies arena parents errors l r (perform again arena span l r step errors parents)
  perform-Unifies _ (unknown_left q) =
      unknown-Unifies (inl (record { root = l; below = at_l; unknown = kind_l ∙ ap some q }))
  perform-Unifies _ (unknown_right q) =
      unknown-Unifies (inr (record { root = r; below = at_r; unknown = kind_r ∙ ap some q }))
  perform-Unifies _ links_left =
      Unions-Unifies arena errors
        (union_to-Unions errors parents l r forest (Root-bound at_l) (Root-bound at_r) r)
  perform-Unifies _ links_right = Unifies-sym arena errors (
      Unions-Unifies arena errors
        (union_to-Unions errors parents r l forest (Root-bound at_r) (Root-bound at_l) l))
  perform-Unifies _ merges =
      Unions-Unifies arena errors
        (union_roots-Unions errors parents l r forest (Root-bound at_l) (Root-bound at_r))
  perform-Unifies _ (reports x y) =
      gives-Unifies arena errors parents l r arena.unknown_id
        (TypeError.type_mismatch x y span ∷ []) forest (λ h. cc)
  perform-Unifies _ (in_elements a b p q) =
      let u = inner a b p q in
      let in_l : l < length u.after = omega (arith, Root-bound at_l, u.keeps_length) in
      let in_r : r < length u.after = omega (arith, Root-bound at_r, u.keeps_length) in
      rw u.ends (
        then-Unifies arena errors u
          (union_roots-Unions (errors ++ u.added) u.after l r u.forest in_l in_r))
  perform-Unifies _ (in_signatures f g p q) = absurd (not_fn f p)

below-IsUnknown :
    {arena : TypeArena} {before parents : List ℕ} {id root : TypeId}
    → Keeps before parents
    → Root before id root
    → IsUnknown arena parents root
    → IsUnknown arena before id
below-IsUnknown {root = root} keeps at_id u =
    let own : u.root ≡ root = Root-unique u.below (keeps.roots root root (Root-self at_id)) in
    record { root = root; below = at_id; unknown = rw own at u.unknown }

-- A result for the roots of two types is one for the types.
pub below-Unifies :
    {arena : TypeArena} {before parents : List ℕ} {errors : List TypeError}
    {left right l r : TypeId} {result : Option Unified}
    → Keeps before parents
    → Root before left l
    → Root before right r
    → Unifies arena parents errors l r result
    → Unifies arena before errors left right result
below-Unifies {before = before} {left = left} {right = right} {l = l} {r = r} keeps at_l at_r u =
    record {
      ty = u.ty;
      after = u.after;
      added = u.added;
      ends = u.ends;
      forest = u.forest;
      keeps_length = u.keeps_length ∙ keeps.keeps_length;
      grows = λ a b same. u.grows a b (Same-Keeps keeps a b same);
      agrees = λ none_added. elim (u.agrees none_added) [
        | inl same ↦
            let up = u.grows left l (Same-Keeps keeps left l (Same-root at_l)) in
            let down = u.grows r right (Same-Keeps keeps r right (Same-sym (Same-root at_r))) in
            inl (Same-trans (Same-trans up same) down)
        | inr (inl left_unknown) ↦ inr (inl (below-IsUnknown keeps at_l left_unknown))
        | inr (inr right_unknown) ↦ inr (inr (below-IsUnknown keeps at_r right_unknown))
      ];
    }
