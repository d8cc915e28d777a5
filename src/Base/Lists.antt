-- ===== src/Base/Lists.antt =====
-- Lists measured and indexed by native numbers, under the library's names.
use Prim.Native.Nat.{ℕ, zero, suc, ◌+◌, ◌<◌, ◌≤◌}
use mathlib.Core.Path.{◌≡◌, refl}
use mathlib.Core.Logic.{◌⊎◌, inl, inr}
use mathlib.Core.List.{List, [], ◌∷◌, ◌++◌}
use mathlib.Core.Option.{Option, none, some}
use native.Mathlib.Omega.{arith}

module _ {ℓ} {A : Type ℓ} where
  abbrev pub length : List A → ℕ
  length [] = 0
  length (x ∷ xs) = suc (length xs)

  abbrev pub get_elem? : List A → ℕ → Option A
  get_elem? [] i = none
  get_elem? (x ∷ xs) zero = some x
  get_elem? (x ∷ xs) (suc i) = get_elem? xs i

  abbrev pub take : ℕ → List A → List A
  take zero xs = []
  take (suc n) [] = []
  take (suc n) (x ∷ xs) = x ∷ take n xs

  abbrev pub drop : ℕ → List A → List A
  drop zero xs = xs
  drop (suc n) [] = []
  drop (suc n) (x ∷ xs) = drop n xs

  pub length-append : (xs ys : List A) → length (xs ++ ys) ≡ length xs + length ys
  length-append [] ys = omega arith
  length-append (x ∷ xs) ys = omega (arith, length-append xs ys)

  pub List-cases : (xs : List A) → (xs ≡ []) ⊎ ((x : A) × (rest : List A) × (xs ≡ x ∷ rest))
  List-cases [] = inl refl
  List-cases (x ∷ xs) = inr (x, xs, refl)

  -- An element read lies inside the list, and only there is one read.
  pub lt-length_of_get_elem? :
      (xs : List A) (i : ℕ) {a : A} → get_elem? xs i ≡ some a → i < length xs
  lt-length_of_get_elem? [] i h = cc
  lt-length_of_get_elem? (x ∷ xs) zero h = omega arith
  lt-length_of_get_elem? (x ∷ xs) (suc i) h = omega (arith, lt-length_of_get_elem? xs i h)

  pub length-le_of_get_elem? : (xs : List A) (i : ℕ) → get_elem? xs i ≡ none → length xs ≤ i
  length-le_of_get_elem? [] i h = omega arith
  length-le_of_get_elem? (x ∷ xs) zero h = cc
  length-le_of_get_elem? (x ∷ xs) (suc i) h = omega (arith, length-le_of_get_elem? xs i h)

  -- Where a read finds an element.
  abbrev pub Found : List A → ℕ → Type 0
  Found xs i = elim (get_elem? xs i) [ none ↦ length xs ≤ i | some a ↦ i < length xs ]

  pub get_elem?-Found : (xs : List A) (i : ℕ) → Found xs i
  get_elem?-Found [] i = omega arith
  get_elem?-Found (x ∷ xs) zero = omega arith
  get_elem?-Found (x ∷ xs) (suc i) = ground (arith, get_elem?-Found xs i)
