-- ===== src/Base/Maps.antt =====
-- Sets and maps with native keys as lists: membership, counts, and association lists, whose order
-- stands for the order in which a hash map is walked.
use Prim.Native.Nat.{ℕ, suc, ◌+◌, ◌≤◌, ◌<◌}
use mathlib.Core.Path.{◌≡◌, refl}
use mathlib.Core.Logic.{inl, inr}
use mathlib.Core.Bool.{Bool, true, false, not, ◌||◌, ◌&&◌}
use mathlib.Core.List.{List, [], ◌∷◌, ◌++◌}
use mathlib.Core.Option.{Option, none, some}
use native.Mathlib.Omega.{arith}
use thagore.Base.Lists.{length}
use thagore.Base.Tests.{◌==◌, if◌then◌else◌, Bool-cases}

abbrev pub mem : ℕ → List ℕ → Bool
mem a [] = false
mem a (x ∷ xs) = x == a || mem a xs

abbrev pub count : ℕ → List ℕ → ℕ
count a [] = 0
count a (x ∷ xs) = (if x == a then 1 else 0) + count a xs

-- No element stands twice.
abbrev pub distinct : List ℕ → Bool
distinct [] = true
distinct (x ∷ xs) = not (mem x xs) && distinct xs

pub mem-append : (a : ℕ) (xs ys : List ℕ) → mem a (xs ++ ys) ≡ (mem a xs || mem a ys)
mem-append a [] ys = refl
mem-append a (x ∷ xs) ys = ground (arith, mem-append a xs ys)

pub count-append :
    (m : ℕ) (front back : List ℕ) → count m (front ++ back) ≡ count m front + count m back
count-append m [] back = omega arith
count-append m (k ∷ front) back = omega (arith, count-append m front back)

pub count-not_mem : (a : ℕ) (xs : List ℕ) → mem a xs ≡ false → count a xs ≡ 0
count-not_mem a [] h = refl
count-not_mem a (x ∷ xs) h = ground (arith, count-not_mem a xs)

pub count-mem : (a : ℕ) (xs : List ℕ) → mem a xs ≡ true → 0 < count a xs
count-mem a [] h = cc
count-mem a (x ∷ xs) h = ground (arith, count-mem a xs)

pub distinct-concat :
    (a : ℕ) (xs : List ℕ) → distinct xs ≡ true → mem a xs ≡ false → distinct (xs ++ a ∷ []) ≡ true
distinct-concat a [] d h = refl
distinct-concat a (x ∷ xs) d h = ground (arith, mem-append x xs (a ∷ []), distinct-concat a xs)

module _ {ℓ} {V : Type ℓ} where
  abbrev pub lookup : ℕ → List (ℕ × V) → Option V
  lookup k [] = none
  lookup k ((j, v) ∷ m) = if j == k then some v else lookup k m

  -- `HashMap::insert`: a key that is there keeps its place.
  abbrev pub insert : ℕ → V → List (ℕ × V) → List (ℕ × V)
  insert k v [] = (k, v) ∷ []
  insert k v ((j, w) ∷ m) = if j == k then (k, v) ∷ m else (j, w) ∷ insert k v m

  abbrev pub keys : List (ℕ × V) → List ℕ
  keys [] = []
  keys ((k, v) ∷ m) = k ∷ keys m

  pub lookup-insert :
      (k j : ℕ) (v : V) (m : List (ℕ × V))
      → lookup j (insert k v m) ≡ (if k == j then some v else lookup j m)
  lookup-insert k j v [] = refl
  lookup-insert k j v ((i, w) ∷ m) = ground (arith, lookup-insert k j v m)

  pub keys-insert :
      (k : ℕ) (v : V) (m : List (ℕ × V))
      → keys (insert k v m) ≡ (if mem k (keys m) then keys m else keys m ++ k ∷ [])
  keys-insert k v [] = refl
  keys-insert k v ((i, w) ∷ m) = ground (arith, keys-insert k v m)

  -- A key is found, and only a key.
  pub lookup-not_mem : (k : ℕ) (m : List (ℕ × V)) → mem k (keys m) ≡ false → lookup k m ≡ none
  lookup-not_mem k [] h = refl
  lookup-not_mem k ((j, v) ∷ m) h = ground (arith, lookup-not_mem k m)

  pub lookup-mem :
      (k : ℕ) (m : List (ℕ × V)) → mem k (keys m) ≡ true → (v : V) × (lookup k m ≡ some v)
  lookup-mem k [] h = cc
  lookup-mem k ((j, v) ∷ m) h = elim (Bool-cases (j == k)) [
    | inl e ↦ (v, rw e)
    | inr e ↦ rw e (lookup-mem k m (rw e at h))
  ]

pub distinct_of_count : (xs : List ℕ) → ((a : ℕ) → count a xs ≤ 1) → distinct xs ≡ true
distinct_of_count [] h = refl
distinct_of_count (x ∷ xs) h =
    ground (arith, h x, count-mem x xs, distinct_of_count xs (λ a. omega (arith, h a)))

-- `ys` without the first `a`.
remove : ℕ → List ℕ → List ℕ
remove a [] = []
remove a (y ∷ ys) = if y == a then ys else y ∷ remove a ys

length-remove : (a : ℕ) (ys : List ℕ) → mem a ys ≡ true → suc (length (remove a ys)) ≡ length ys
unfolding remove
length-remove a [] h = cc
length-remove a (y ∷ ys) h = ground (arith, length-remove a ys)

mem-remove :
    (a b : ℕ) (ys : List ℕ) → (a == b) ≡ false → mem b ys ≡ true → mem b (remove a ys) ≡ true
unfolding remove
mem-remove a b [] ne h = cc
mem-remove a b (y ∷ ys) ne h = ground (arith, mem-remove a b ys)

-- A list with no element twice is no longer than a list that holds all its elements.
pub length-le_of_subset :
    (xs ys : List ℕ)
    → distinct xs ≡ true
    → ((a : ℕ) → mem a xs ≡ true → mem a ys ≡ true)
    → length xs ≤ length ys
length-le_of_subset [] ys d h = omega arith
length-le_of_subset (x ∷ xs) ys d h =
    let found : mem x ys ≡ true = ground (arith, h x) in
    let shorter =
      length-le_of_subset xs (remove x ys) (ground arith)
        (λ a p. mem-remove x a ys (ground arith) (ground (arith, h a))) in
    omega (arith, shorter, length-remove x ys found)
