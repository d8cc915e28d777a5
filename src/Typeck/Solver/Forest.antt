-- ===== src/Typeck/Solver/Forest.antt =====
-- The chains of parents of `InferenceSolver` (crates/typeck/src/infer.rs), and what `find` does to them.
use thagore.Base.{
  ℕ, zero, suc, ◌<◌, ◌≤◌, ◌≡◌, refl, sym, ap, ◌∙◌, true, false, List, [], ◌∷◌, Option, some, ◌==◌,
  length, get_elem?, arith, Bool-cases, inl, inr, if◌then◌else◌, lt-length_of_get_elem?,
}
use thagore.Base.Maps.{distinct, mem, length-le_of_subset}
use thagore.Typeck.Solver.{set_parent, find}

-- `root` stands at the end of the chain of `steps` parents above `id`.
pub data Chain (parents : List ℕ) : (id root steps : ℕ) → Type 0 where
  at_root : (root : ℕ) → get_elem? parents root ≡ some root → Chain parents root root 0
  above :
      (id parent root steps : ℕ)
      → get_elem? parents id ≡ some parent
      → (parent == id) ≡ false
      → Chain parents parent root steps
      → Chain parents id root (suc steps)

pub Chain-root :
    {parents : List ℕ} {id root steps : ℕ}
    → Chain parents id root steps
    → get_elem? parents root ≡ some root
Chain-root (at_root root h) = h
Chain-root (above id parent root steps e ne c) = Chain-root c

-- The chain above an identifier is one.
pub Chain-unique :
    {parents : List ℕ} {id r s m n : ℕ}
    → Chain parents id r m
    → Chain parents id s n
    → (r ≡ s) × (m ≡ n)
Chain-unique (at_root r h) (at_root s k) = (refl, refl)
Chain-unique (at_root r h) (above id p s n e ne d) = ground arith
Chain-unique (above id p r m e ne c) (at_root s k) = ground arith
Chain-unique (above id p r m e ne c) (above id' p' s n e' ne' d) =
    let same : p' ≡ p = ground arith in
    let (roots, steps) = Chain-unique c (rw same at d) in (roots, ap suc steps)

pub record Root (parents : List ℕ) (id root : ℕ) : Type 0 where
  pub steps : ℕ
  pub chain : Chain parents id root steps

-- Every identifier has a root.
abbrev pub IsForest : List ℕ → Type 0
IsForest parents = (id : ℕ) → id < length parents → (root : ℕ) × Root parents id root

pub get_elem?-set_parent :
    (parents : List ℕ) (i j root p : ℕ)
    → get_elem? parents j ≡ some p
    → get_elem? (set_parent i root parents) j ≡ (if i == j then some root else some p)
get_elem?-set_parent [] i j root p h = cc
get_elem?-set_parent (q ∷ parents) zero zero root p h = refl
get_elem?-set_parent (q ∷ parents) zero (suc j) root p h = ground arith
get_elem?-set_parent (q ∷ parents) (suc i) zero root p h = ground arith
get_elem?-set_parent (q ∷ parents) (suc i) (suc j) root p h =
    ground (arith, get_elem?-set_parent parents i j root p)

pub length-set_parent :
    (parents : List ℕ) (i root : ℕ) → length (set_parent i root parents) ≡ length parents
length-set_parent [] i root = refl
length-set_parent (p ∷ parents) zero root = refl
length-set_parent (p ∷ parents) (suc i) root = ap suc (length-set_parent parents i root)

-- The roots stay what they are, and no chain grows.
abbrev pub Shorter : List ℕ → List ℕ → Type 0
Shorter before after =
    (id root steps : ℕ)
    → Chain before id root steps
    → (fewer : ℕ) × (fewer ≤ steps) × Chain after id root fewer

-- An identifier that hangs directly below its root.
pub compress-Shorter :
    (parents : List ℕ) (id root : ℕ)
    → (steps : ℕ) × Chain parents id root steps
    → Shorter parents (set_parent id root parents)
compress-Shorter parents id root (n, c) _ _ _ (at_root r h) =
    let same : (id ≡ r) → root ≡ r = λ e. (Chain-unique (rw e at c) (at_root r h)).0 in
    (0, omega arith, at_root r (ground (arith, get_elem?-set_parent parents id r root r h, same)))
compress-Shorter parents id root (n, c) _ _ _ (above j p r m e ne d) = elim (Bool-cases (id == j)) [
  | inl t ↦
      let own : id ≡ j = ground arith in
      let roots : root ≡ r = (Chain-unique (rw own at c) (above j p r m e ne d)).0 in
      let at_r = Chain-root d in
      let hung = get_elem?-set_parent parents id j root p e in
      let kept = get_elem?-set_parent parents id r root r at_r in
      let apart : (r == j) ≡ false = ground arith in
      (1, omega arith, above j r r 0 (ground arith) apart (at_root r (ground arith)))
  | inr f ↦
      let (fewer, le, rest) = compress-Shorter parents id root (n, c) p r m d in
      (
        suc fewer,
        omega arith,
        above j p r fewer (rw f at (get_elem?-set_parent parents id j root p e)) ne rest,
      )
]

-- The identifiers of a chain.
members : {parents : List ℕ} {id root steps : ℕ} → Chain parents id root steps → List ℕ
members (at_root root h) = root ∷ []
members (above id parent root steps e ne c) = id ∷ members c

length-members :
    {parents : List ℕ} {id root steps : ℕ} (c : Chain parents id root steps)
    → length (members c) ≡ suc steps
unfolding members
length-members (at_root root h) = refl
length-members (above id parent root steps e ne c) = ap suc (length-members c)

-- A member of a chain has a chain that is no longer.
member-Chain :
    {parents : List ℕ} {id root steps : ℕ} (c : Chain parents id root steps) (j : ℕ)
    → mem j (members c) ≡ true
    → (fewer : ℕ) × (fewer ≤ steps) × Chain parents j root fewer
unfolding members
member-Chain (at_root root h) j m =
    let same : root ≡ j = ground arith in (0, omega arith, rw (sym same) (at_root root h))
member-Chain (above id parent root steps e ne c) j m = elim (Bool-cases (id == j)) [
  | inl t ↦
      let own : j ≡ id = ground arith in
      (suc steps, omega arith, rw own (above id parent root steps e ne c))
  | inr f ↦ let (fewer, le, d) = member-Chain c j (ground arith) in (fewer, omega arith, d)
]

distinct-members :
    {parents : List ℕ} {id root steps : ℕ} (c : Chain parents id root steps)
    → distinct (members c) ≡ true
unfolding members
distinct-members (at_root root h) = refl
distinct-members (above id parent root steps e ne c) = elim (Bool-cases (mem id (members c))) [
  | inl t ↦
      let (fewer, le, d) = member-Chain c id t in
      let impossible = Chain-unique d (above id parent root steps e ne c) in
      absurd (omega (arith, impossible.1))
  | inr f ↦ ground (arith, distinct-members c)
]

-- The numbers below `n`.
below : ℕ → List ℕ
below zero = []
below (suc n) = n ∷ below n

mem-below : (n i : ℕ) → i < n → mem i (below n) ≡ true
unfolding below
mem-below zero i h = absurd (omega arith)
mem-below (suc n) i h = ground (arith, mem-below n i)

length-below : (n : ℕ) → length (below n) ≡ n
unfolding below
length-below zero = refl
length-below (suc n) = ap suc (length-below n)

pub Chain-bound :
    {parents : List ℕ} {id root steps : ℕ} → Chain parents id root steps → id < length parents
Chain-bound {parents} (at_root root h) = lt-length_of_get_elem? parents root h
Chain-bound {parents} (above id parent root steps e ne c) = lt-length_of_get_elem? parents id e

-- A chain has fewer steps than there are parents.
pub Chain-steps :
    {parents : List ℕ} {id root steps : ℕ} → Chain parents id root steps → steps < length parents
Chain-steps {parents} {id} {root} {steps} c =
    let inside : (a : ℕ) → mem a (members c) ≡ true → mem a (below (length parents)) ≡ true = λ a h.
      let (fewer, le, d) = member-Chain c a h in mem-below (length parents) a (Chain-bound d) in
    let short =
      length-le_of_subset (members c) (below (length parents)) (distinct-members c) inside in
    omega (arith, short, length-members c, length-below (length parents))

-- What a search from `id` gives.
pub record FoundRoot (parents : List ℕ) (id root : ℕ) (result : Option (ℕ × List ℕ)) : Type 0 where
  pub after : List ℕ
  pub ends : result ≡ some (root, after)
  pub shorter : Shorter parents after
  pub keeps_length : length after ≡ length parents

pub find-FoundRoot :
    (fuel : ℕ) (parents : List ℕ) (id root steps : ℕ)
    → Chain parents id root steps
    → steps < fuel
    → FoundRoot parents id root (find fuel id parents)
unfolding find
find-FoundRoot zero parents id root steps c small = absurd (omega arith)
find-FoundRoot (suc fuel) parents _ _ _ (at_root id h) small =
    let own : (id == id) ≡ true = ground arith in
    record {
      after = parents;
      ends = rw (h, own, find) refl;
      shorter = λ i r n d. (n, omega arith, d);
      keeps_length = refl;
    }
find-FoundRoot (suc fuel) parents _ _ _ (above id p root n e ne c) small =
    let rest = find-FoundRoot fuel parents p root n c (omega arith) in
    let (fewer, le, d) = rest.shorter id root (suc n) (above id p root n e ne c) in
    let hung = compress-Shorter rest.after id root (fewer, d) in
    record {
      after = set_parent id root rest.after;
      ends = rw (e, ne, rest.ends, find) refl;
      shorter = λ i r m chain.
          let (k, le_k, shorter_chain) = rest.shorter i r m chain in
          let (j, le_j, last_chain) = hung i r k shorter_chain in (j, omega arith, last_chain);
      keeps_length = length-set_parent rest.after id root ∙ rest.keeps_length;
    }
