-- ===== src/Typeck/Solver/Unions.antt =====
-- The results of `unify` (crates/typeck/src/infer.rs), and those of the unions that it makes.
use thagore.Base.{
  ℕ, ◌<◌, ◌≡◌, refl, sym, ap, ◌∙◌, List, [], ◌++◌, Option, some, length, arith, inl, inr, ◌⊎◌,
  append-nil,
}
use thagore.Typeck.Arena.{TypeId, TypeKind, TypeArena, kind}
use thagore.Typeck.Solver.{TypeError, Unified, union_to, union_roots}
use thagore.Typeck.Solver.Forest.{Root, IsForest}
use thagore.Typeck.Solver.Classes.{
  Same, Root-unique, Root-self, Keeps, IsForest-Keeps, resolve-Keeps, union-UnionLaw,
}

-- The type is the unknown one.
pub record IsUnknown (arena : TypeArena) (parents : List ℕ) (id : TypeId) : Type 0 where
  pub root : TypeId
  pub below : Root parents id root
  pub unknown : kind root arena ≡ some TypeKind.unknown

-- What a call of `unify` on `left` and `right` gives: it returns, it keeps the classes and the errors that are
-- there, and where it adds no error and neither type is unknown, the two types are of one class.
pub record Unifies (arena : TypeArena) (parents : List ℕ) (errors : List TypeError)
    (left right : TypeId) (result : Option Unified) : Type 0 where
  pub ty : TypeId
  pub after : List ℕ
  pub added : List TypeError
  pub ends : result ≡ some (ty, after, errors ++ added)
  pub forest : IsForest after
  pub keeps_length : length after ≡ length parents
  pub grows : (a b : TypeId) → Same parents a b → Same after a b
  pub agrees :
      added ≡ []
      → Same after left right ⊎ IsUnknown arena parents left ⊎ IsUnknown arena parents right

pub Same-trans :
    {parents : List ℕ} {a b c : ℕ} → Same parents a b → Same parents b c → Same parents a c
Same-trans p q =
    let one : p.root ≡ q.root = Root-unique p.right q.left in
    record { root = q.root; left = rw one at p.left; right = q.right }

pub Same-Keeps :
    {before after : List ℕ} → Keeps before after → (a b : ℕ) → Same before a b → Same after a b
Same-Keeps k a b p = record {
  root = p.root;
  left = k.roots a p.root p.left;
  right = k.roots b p.root p.right;
}

pub Same-root : {parents : List ℕ} {id root : ℕ} → Root parents id root → Same parents id root
Same-root {parents} {id} {root} r = record { root = root; left = r; right = Root-self r }

Same-refl : {parents : List ℕ} {id root : ℕ} → Root parents id root → Same parents id id
Same-refl {parents} {id} {root} r = record { root = root; left = r; right = r }

pub Same-sym : {parents : List ℕ} {a b : ℕ} → Same parents a b → Same parents b a
Same-sym p = record { root = p.root; left = p.right; right = p.left }

-- What a union of two classes gives.
pub record Unions (parents : List ℕ) (errors : List TypeError) (l r : TypeId)
    (result : Option Unified) : Type 0 where
  pub ty : TypeId
  pub after : List ℕ
  pub ends : result ≡ some (ty, after, errors)
  pub forest : IsForest after
  pub keeps_length : length after ≡ length parents
  pub grows : (a b : TypeId) → Same parents a b → Same after a b
  pub one : Same after l r

module _ (errors : List TypeError) (parents : List ℕ) (l r : TypeId) (forest : IsForest parents)
    (in_l : l < length parents) (in_r : r < length parents) where
  pub union_to-Unions :
      (result : TypeId) → Unions parents errors l r (union_to l r result errors parents)
  union_to-Unions result =
      let law = union-UnionLaw parents l r forest in_l in_r in
      let (rl, at_l) = forest l in_l in
      let (rr, at_r) = forest r in_r in
      record {
        ty = result;
        after = law.after;
        ends = rw law.ends refl;
        forest = law.forest;
        keeps_length = law.keeps_length;
        grows = λ a b same. (law.classes a b).1 (inl same);
        one = (law.classes l r).1 (inr (inl (Same-refl at_l, Same-refl at_r)));
      }

  pub union_roots-Unions : Unions parents errors l r (union_roots l r errors parents)
  union_roots-Unions =
      let u = union_to-Unions l in
      let law = union-UnionLaw parents l r forest in_l in_r in
      let (rl, at_l) = forest l in_l in
      let (rr, at_r) = forest r in_r in
      let one = (law.classes l r).1 (inr (inl (Same-refl at_l, Same-refl at_r))) in
      let in_after : l < length law.after = omega (arith, law.keeps_length) in
      let (root, at_root) = law.forest l in_after in
      let (last, e, k) = resolve-Keeps law.after l root at_root in
      record {
        ty = root;
        after = last;
        ends = rw (law.ends, e) refl;
        forest = IsForest-Keeps law.forest k;
        keeps_length = k.keeps_length ∙ law.keeps_length;
        grows = λ a b same. Same-Keeps k a b ((law.classes a b).1 (inl same));
        one = Same-Keeps k l r one;
      }

module _ (arena : TypeArena) (errors : List TypeError) where
  pub Unions-Unifies :
      {parents : List ℕ} {l r : TypeId} {result : Option Unified}
      → Unions parents errors l r result
      → Unifies arena parents errors l r result
  Unions-Unifies u = record {
    ty = u.ty;
    after = u.after;
    added = [];
    ends = u.ends ∙ ap (λ es. some (u.ty, u.after, es)) (sym (append-nil errors));
    forest = u.forest;
    keeps_length = u.keeps_length;
    grows = u.grows;
    agrees = λ _. inl u.one;
  }

  -- A union after a call on other types.
  pub then-Unifies :
      {parents : List ℕ} {a b l r : TypeId} {call result : Option Unified}
      → (u : Unifies arena parents errors a b call) → Unions u.after (errors ++ u.added) l r result
      → Unifies arena parents errors l r result
  then-Unifies u v = record {
    ty = v.ty;
    after = v.after;
    added = u.added;
    ends = v.ends;
    forest = v.forest;
    keeps_length = v.keeps_length ∙ u.keeps_length;
    grows = λ a b same. v.grows a b (u.grows a b same);
    agrees = λ _. inl v.one;
  }

  pub Unifies-sym :
      {parents : List ℕ} {l r : TypeId} {result : Option Unified}
      → Unifies arena parents errors l r result
      → Unifies arena parents errors r l result
  Unifies-sym {parents} {l} {r} u = record {
    ty = u.ty;
    after = u.after;
    added = u.added;
    ends = u.ends;
    forest = u.forest;
    keeps_length = u.keeps_length;
    grows = u.grows;
    agrees = λ none_added. elim (u.agrees none_added) [
      | inl same ↦ inl (Same-sym same)
      | inr (inl left) ↦ inr (inr left)
      | inr (inr right) ↦ inr (inl right)
    ];
  }

  -- A result with the same classes.
  pub gives-Unifies :
      (parents : List ℕ) (l r ty : TypeId) (added : List TypeError)
      → IsForest parents
      → (added ≡ [] → Same parents l r ⊎ IsUnknown arena parents l ⊎ IsUnknown arena parents r)
      → Unifies arena parents errors l r (some (ty, parents, errors ++ added))
  gives-Unifies parents l r ty added forest agrees = record {
    ty = ty;
    after = parents;
    added = added;
    ends = refl;
    forest = forest;
    keeps_length = refl;
    grows = λ a b same. same;
    agrees = agrees;
  }
