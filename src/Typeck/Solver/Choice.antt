-- ===== src/Typeck/Solver/Choice.antt =====
-- What the match of `unify` (crates/typeck/src/infer.rs) chooses for two kinds.
use thagore.Base.{◌≡◌, refl, Bool, true, false, ◌==◌, length, Bool-cases, inl, inr}
use thagore.Typeck.Arena.{TypeId, TypeKind, FunctionType, TypeArena}
use thagore.Typeck.Solver.{Step, choose}

abbrev pub is_nested : TypeKind → Bool
is_nested (TypeKind.array element) = true
is_nested (TypeKind.function f) = true
is_nested _ = false

-- What `choose` gives for two kinds.
pub data Choice (arena : TypeArena) (l r : TypeId) (k k' : TypeKind) : Step → Type 0 where
  unknown_left : k ≡ TypeKind.unknown → Choice arena l r k k' Step.give_unknown
  unknown_right : k' ≡ TypeKind.unknown → Choice arena l r k k' Step.give_unknown
  links_left : Choice arena l r k k' (Step.link l r)
  links_right : Choice arena l r k k' (Step.link r l)
  merges : Choice arena l r k k' Step.merge
  reports : (expected found : TypeId) → Choice arena l r k k' (Step.report expected found)
  in_elements :
      (a b : TypeId)
      → k ≡ TypeKind.array a
      → k' ≡ TypeKind.array b
      → Choice arena l r k k' (Step.elements a b)
  in_signatures :
      (f g : FunctionType)
      → k ≡ TypeKind.function f
      → k' ≡ TypeKind.function g
      → Choice arena l r k k' (Step.signatures f g)

pub choose-Choice :
    (arena : TypeArena) (l r : TypeId) (k k' : TypeKind)
    → Choice arena l r k k' (choose arena l r k k')
unfolding choose
choose-Choice arena l r TypeKind.unknown k' = unknown_left refl
choose-Choice arena l r k TypeKind.unknown = search (unknown_left, unknown_right)
choose-Choice arena l r (TypeKind.struct s) (TypeKind.struct t) =
    elim (Bool-cases (s.name == t.name)) [ inl e ↦ rw e merges | inr e ↦ rw e (reports l r) ]
choose-Choice arena l r (TypeKind.function f) (TypeKind.function g) =
    elim (Bool-cases (length f.params == length g.params)) [
      | inl e ↦ rw e (in_signatures f g refl refl)
      | inr e ↦ rw e (reports l r)
    ]
choose-Choice arena l r (TypeKind.array a) (TypeKind.array b) = in_elements a b refl refl
choose-Choice arena l r k k' = search (links_left, links_right, merges, reports)
