-- ===== src/Typeck/Arena/Kinds.antt =====
-- The equality of types and the search for a type (crates/typeck/src/types.rs).
use thagore.Base.{
  ℕ, zero, suc, ◌+◌, ◌<◌, ◌≤◌, ◌≡◌, ◌↔◌, refl, ap, Bool, true, false, List, [], ◌∷◌, ◌++◌, none,
  some, length, get_elem?, arith, Bool-cases, inl, inr, ◌⊎◌, ◌-◌, ◌∙◌,
}
use thagore.Typeck.Arena.{TypeId, StructField, TypeKind, ids_eq, fields_eq, kind_eq, position}

ids_eq-≡ : (xs ys : List TypeId) → ids_eq xs ys ≡ true → xs ≡ ys
ids_eq-≡ [] [] h = refl
ids_eq-≡ [] (y ∷ ys) h = cc
ids_eq-≡ (x ∷ xs) [] h = cc
ids_eq-≡ (x ∷ xs) (y ∷ ys) h = ground (arith, ids_eq-≡ xs ys)

ids_eq_refl : (xs : List TypeId) → ids_eq xs xs ≡ true
ids_eq_refl [] = refl
ids_eq_refl (x ∷ xs) = ground (arith, ids_eq_refl xs)

fields_eq-≡ : (xs ys : List StructField) → fields_eq xs ys ≡ true → xs ≡ ys
fields_eq-≡ [] [] h = refl
fields_eq-≡ [] (y ∷ ys) h = cc
fields_eq-≡ (x ∷ xs) [] h = cc
fields_eq-≡ (x ∷ xs) (y ∷ ys) h = ground (arith, fields_eq-≡ xs ys)

fields_eq_refl : (xs : List StructField) → fields_eq xs xs ≡ true
fields_eq_refl [] = refl
fields_eq_refl (x ∷ xs) = ground (arith, fields_eq_refl xs)

kind_eq-≡ : (a b : TypeKind) → kind_eq a b ≡ true → a ≡ b
unfolding kind_eq
kind_eq-≡ (TypeKind.struct s) (TypeKind.struct t) h = ground (arith, fields_eq-≡ s.fields t.fields)
kind_eq-≡ (TypeKind.function f) (TypeKind.function g) h = ground (arith, ids_eq-≡ f.params g.params)
kind_eq-≡ a b h = ground arith

pub kind_eq_refl : (a : TypeKind) → kind_eq a a ≡ true
unfolding kind_eq
kind_eq_refl (TypeKind.struct s) = ground (arith, fields_eq_refl s.fields)
kind_eq_refl (TypeKind.function f) = ground (arith, ids_eq_refl f.params)
kind_eq_refl a = ground arith

pub kind_eq_iff : (a b : TypeKind) → (kind_eq a b ≡ true) ↔ (a ≡ b)
kind_eq_iff a b = (kind_eq-≡ a b, λ p. rw p (kind_eq_refl b))

-- What a search gives: the first place of an element that passes.
pub position-some :
    (test : TypeKind → Bool) (i n : ℕ) (kinds : List TypeKind)
    → position test i kinds ≡ some n
    → (i ≤ n)
      × (n < i + length kinds)
      × ((k : TypeKind) × (get_elem? kinds (n - i) ≡ some k) × (test k ≡ true))
position-some test i n [] h = cc
position-some test i n (k ∷ kinds) h = elim (Bool-cases (test k)) [
  | inl e ↦
      let same : i ≡ n = ground arith in
      let none_before : n - i ≡ 0 = omega arith in
      (omega arith, omega arith, (k, rw none_before refl, e))
  | inr e ↦
      let (le, lt, (k', found, passes)) = position-some test (i + 1) n kinds (rw e at h) in
      let step : n - i ≡ suc (n - (i + 1)) = omega arith in
      (omega arith, omega arith, (k', rw step found, passes))
]

pub position-none :
    (test : TypeKind → Bool) (i n : ℕ) (kinds : List TypeKind) (k : TypeKind)
    → position test i kinds ≡ none
    → get_elem? kinds n ≡ some k
    → test k ≡ false
position-none test i n [] k h e = cc
position-none test i zero (j ∷ kinds) k h e = ground arith
position-none test i (suc n) (j ∷ kinds) k h e =
    ground (arith, position-none test (i + 1) n kinds k)

-- At the end of a list that has no such element.
pub position-concat :
    (test : TypeKind → Bool) (i : ℕ) (kinds : List TypeKind) (k : TypeKind)
    → position test i kinds ≡ none
    → test k ≡ true
    → position test i (kinds ++ k ∷ []) ≡ some (i + length kinds)
position-concat test i [] k h e = ground arith
position-concat test i (j ∷ kinds) k h e = elim (Bool-cases (test j)) [
  | inl t ↦ ground arith
  | inr t ↦
      let rest = position-concat test (i + 1) kinds k (rw t at h) e in
      let step : i + 1 + length kinds ≡ i + suc (length kinds) = omega arith in
      rw t (rest ∙ ap some step)
]

pub get_elem?-append :
    (i : ℕ) (kinds : List TypeKind) (k j : TypeKind)
    → get_elem? kinds i ≡ some j
    → get_elem? (kinds ++ k ∷ []) i ≡ some j
get_elem?-append i [] k j h = cc
get_elem?-append zero (x ∷ kinds) k j h = h
get_elem?-append (suc i) (x ∷ kinds) k j h = get_elem?-append i kinds k j h

pub get_elem?-last :
    (kinds : List TypeKind) (k : TypeKind) → get_elem? (kinds ++ k ∷ []) (length kinds) ≡ some k
get_elem?-last [] k = refl
get_elem?-last (x ∷ kinds) k = get_elem?-last kinds k

-- An element of the longer list stands in the old one or is the new one.
pub get_elem?-concat :
    (i : ℕ) (kinds : List TypeKind) (k j : TypeKind)
    → get_elem? (kinds ++ k ∷ []) i ≡ some j
    → (get_elem? kinds i ≡ some j) ⊎ ((i ≡ length kinds) × (k ≡ j))
get_elem?-concat zero [] k j h = inr (refl, ground arith)
get_elem?-concat (suc i) [] k j h = cc
get_elem?-concat zero (x ∷ kinds) k j h = inl h
get_elem?-concat (suc i) (x ∷ kinds) k j h = elim (get_elem?-concat i kinds k j h) [
  | inl e ↦ inl e
  | inr (e, q) ↦ inr (ap suc e, q)
]
