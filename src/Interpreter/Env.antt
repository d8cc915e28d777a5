-- ===== src/Interpreter/Env.antt =====
-- crates/interpreter/src/env.rs: `EnvStack`. A `HashMap` is a list of entries; the innermost scope stands first.
use Prim.Native.String.{String}
use text.Mathlib.Text
use text.Mathlib.TextEquality.{eq_iff}
use thagore.Base.Maps.{lookup, insert, lookup-insert}
use thagore.Base.{
  ℕ, ◌<◌, ◌≡◌, refl, Bool, true, false, ◌&&◌, List, [], ◌∷◌, Option, none, some, ◌==◌,
  if◌then◌else◌, length, arith,
}
use thagore.Interpreter.{Value}

-- A map by name.
abbrev pub named_get : String → List (String × Value) → Option Value
named_get name [] = none
named_get name ((key, value) ∷ entries) =
    if Text.◌==◌ name key then some value else named_get name entries

abbrev pub named_insert : String → Value → List (String × Value) → List (String × Value)
named_insert name value [] = (name, value) ∷ []
named_insert name value ((key, old) ∷ entries) =
    if Text.◌==◌ name key
    then (key, value) ∷ entries
    else (key, old) ∷ named_insert name value entries

pub record Scope : Type 0 where
  pub interned : List (ℕ × Value)
  pub named : List (String × Value)

abbrev pub EnvStack : Type 0
EnvStack = List Scope

abbrev pub empty_scope : Scope
empty_scope = record { interned = []; named = [] }

abbrev pub new : EnvStack
new = empty_scope ∷ []

abbrev pub push : EnvStack → EnvStack
push env = empty_scope ∷ env

-- The root scope stays.
unfoldable pub pop : EnvStack → EnvStack
pop [] = []
pop (scope ∷ []) = scope ∷ []
pop (scope ∷ outer ∷ rest) = outer ∷ rest

unfoldable pub define : String → Value → EnvStack → EnvStack
define name value [] = []
define name value (scope ∷ rest) =
    record scope { named = named_insert name value scope.named } ∷ rest

-- Whether a scope had the name, and the new stack.
unfoldable pub assign : String → Value → EnvStack → Bool × EnvStack
assign name value [] = (false, [])
assign name value (scope ∷ rest) =
    let outer = assign name value rest in
    elim (named_get name scope.named) [
      | some old ↦ (true, record scope { named = named_insert name value scope.named } ∷ rest)
      | none ↦ (outer.0, scope ∷ outer.1)
    ]

unfoldable pub get : String → EnvStack → Option Value
get name [] = none
get name (scope ∷ rest) = elim (named_get name scope.named) [
  | none ↦ get name rest
  | some value ↦ some value
]

unfoldable pub define_by_id : ℕ → Value → EnvStack → EnvStack
define_by_id id value [] = []
define_by_id id value (scope ∷ rest) =
    record scope { interned = insert id value scope.interned } ∷ rest

unfoldable pub assign_by_id : ℕ → Value → EnvStack → Bool × EnvStack
assign_by_id id value [] = (false, [])
assign_by_id id value (scope ∷ rest) =
    let outer = assign_by_id id value rest in
    elim (lookup id scope.interned) [
      | some old ↦ (true, record scope { interned = insert id value scope.interned } ∷ rest)
      | none ↦ (outer.0, scope ∷ outer.1)
    ]

unfoldable pub get_by_id : ℕ → EnvStack → Option Value
get_by_id id [] = none
get_by_id id (scope ∷ rest) = elim (lookup id scope.interned) [
  | none ↦ get_by_id id rest
  | some value ↦ some value
]

abbrev pub is_bound : Option Value → Bool
is_bound o = elim o [ none ↦ false | some value ↦ true ]

-- `assign_by_id` succeeds if and only if the variable has a value. Where it succeeds the variable
-- has the new value; every other variable, and where it fails every variable, keeps its value, and
-- no scope comes or goes.
pub get-assign_by_id :
    (id other : ℕ) (value : Value) (env : EnvStack)
    → (let (assigned, after) = assign_by_id id value env in
        (assigned ≡ is_bound (get_by_id id env))
        × (get_by_id other after
            ≡ (if assigned && id == other then some value else get_by_id other env))
        × (length after ≡ length env))
unfolding assign_by_id get_by_id
get-assign_by_id id other value [] = (refl, refl, refl)
get-assign_by_id id other value (scope ∷ rest) =
    let (same, found, kept) = get-assign_by_id id other value rest in
    ground (arith, same, found, kept, lookup-insert id other value scope.interned)

named_get-insert :
    (name other : String) (value : Value) (entries : List (String × Value))
    → named_get other (named_insert name value entries)
      ≡ (if Text.◌==◌ name other then some value else named_get other entries)
named_get-insert name other value [] = ground (arith, eq_iff name other, eq_iff other name)
named_get-insert name other value ((key, old) ∷ entries) = ground (
  arith,
  eq_iff name key,
  eq_iff other key,
  eq_iff name other,
  named_get-insert name other value entries,
)

-- `assign` succeeds if and only if the name has a value. Then the name has the new value; every
-- other name, and where it fails every name, keeps its value, and no scope comes or goes.
pub get-assign :
    (name other : String) (value : Value) (env : EnvStack)
    → (let (assigned, after) = assign name value env in
        (assigned ≡ is_bound (get name env))
        × (get other after
            ≡ (if assigned && Text.◌==◌ name other then some value else get other env))
        × (length after ≡ length env))
unfolding assign get
get-assign name other value [] = (refl, refl, refl)
get-assign name other value (scope ∷ rest) =
    let (same, found, kept) = get-assign name other value rest in
    ground
      (arith, same, found, kept, eq_iff name other, named_get-insert name other value scope.named)

-- On an environment of at least one scope: in a block that defines another variable, an assignment
-- leaves the same environment behind the block as an assignment without the block; and what a
-- block defines is gone behind it.
pub pop-assign_by_id :
    (id own : ℕ) (value hidden : Value) (env : EnvStack)
    → 0 < length env
    → (own == id) ≡ false
    → (pop (assign_by_id id value (define_by_id own hidden (push env))).1
        ≡ (assign_by_id id value env).1)
      × (pop (define_by_id own hidden (push env)) ≡ env)
unfolding pop assign_by_id define_by_id
pop-assign_by_id id own value hidden [] h ne = absurd (omega arith)
pop-assign_by_id id own value hidden (scope ∷ []) h ne = ground arith
pop-assign_by_id id own value hidden (scope ∷ outer ∷ rest) h ne = ground arith
