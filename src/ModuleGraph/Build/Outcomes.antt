-- ===== src/ModuleGraph/Build/Outcomes.antt =====
-- What the outcomes of `build` (crates/module_graph/src/lib.rs) hold, and the number of different numbers below
-- a bound.
use thagore.Base.Maps.{length-le_of_subset, mem, distinct}
use thagore.Base.{length, ap, ℕ, zero, suc, ◌<◌, ◌≤◌, ◌≡◌, refl, true, List, [], ◌∷◌, arith}
use thagore.ModuleGraph.Build.{Outcome, ok, err, panicked, overflow, out_of_fuel, then_do}

-- The outcome is a result for which `P` holds, or an error of the program.
abbrev pub Holds : {A : Type 0} → (A → Type 0) → Outcome A → Type 0
Holds P (ok a) = P a
Holds P (err e) = Unit
Holds P panicked = ⊥
Holds P overflow = ⊥
Holds P out_of_fuel = ⊥

pub then_do-Holds :
    {A B : Type 0} (P : A → Type 0) (Q : B → Type 0) (r : Outcome A) (f : A → Outcome B)
    → Holds P r
    → ((a : A) → P a → Holds Q (f a))
    → Holds Q (then_do r f)
then_do-Holds P Q (ok a) f h k = k a h
then_do-Holds P Q (err e) f h k = tt
then_do-Holds P Q panicked f h k = h
then_do-Holds P Q overflow f h k = h
then_do-Holds P Q out_of_fuel f h k = h

-- The answer is a result or an error.
abbrev pub Answers : {A : Type 0} → Outcome A → Type 0
Answers = Holds (λ a. Unit)

-- The numbers below `n`.
range : ℕ → List ℕ
range zero = []
range (suc n) = n ∷ range n

mem-range : (n m : ℕ) → m < n → mem m (range n) ≡ true
unfolding range
mem-range zero m lt = absurd (omega arith)
mem-range (suc n) m lt = ground (arith, mem-range n m)

length-range : (n : ℕ) → length (range n) ≡ n
unfolding range
length-range zero = refl
length-range (suc n) = ap suc (length-range n)

-- Numbers below a bound that are all different are no more than the bound.
pub length-le_of_distinct :
    (n : ℕ) (xs : List ℕ) → distinct xs ≡ true → ((m : ℕ) → mem m xs ≡ true → m < n) → length xs ≤ n
length-le_of_distinct n xs d lt =
    omega
      (arith, length-range n, length-le_of_subset xs (range n) d (λ m h. mem-range n m (lt m h)))

pub Holds-map :
    {A : Type 0} (P Q : A → Type 0) (r : Outcome A) → ((a : A) → P a → Q a) → Holds P r → Holds Q r
Holds-map P Q (ok a) k h = k a h
Holds-map P Q (err e) k h = tt
Holds-map P Q panicked k h = h
Holds-map P Q overflow k h = h
Holds-map P Q out_of_fuel k h = h
