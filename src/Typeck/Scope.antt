-- ===== src/Typeck/Scope.antt =====
-- crates/typeck/src/scope.rs: `ScopeStack`, nested scopes of names in which an inner name hides an outer one.
-- A scope is an association list in the order of its `IndexMap`; the innermost scope stands first.
use thagore.Base.Maps.{mem, lookup, insert, keys, lookup-insert}
use thagore.Base.{
  ℕ, ◌≡◌, refl, Bool, true, false, List, [], ◌∷◌, ◌++◌, Option, none, some, ◌==◌, ◌<◌, arith,
  if◌then◌else◌, length, ◌∙◌, Option-cases, inl, inr,
}
use thagore.Typeck.Arena.{InternedStr, TypeId}

-- The checker's `ScopeStack<InternedStr, TypeId>`
abbrev pub Scope : Type 0
Scope = List (InternedStr × TypeId)

abbrev pub ScopeStack : Type 0
ScopeStack = List Scope

abbrev pub new : ScopeStack
new = [] ∷ []

abbrev pub clear : ScopeStack → ScopeStack
clear s = [] ∷ []

abbrev pub push_scope : ScopeStack → ScopeStack
push_scope s = [] ∷ s

-- The global scope stays.
unfoldable pub pop_scope : ScopeStack → ScopeStack
pop_scope [] = []
pop_scope (scope ∷ []) = scope ∷ []
pop_scope (scope ∷ outer ∷ rest) = outer ∷ rest

abbrev pub depth : ScopeStack → ℕ
depth s = length s

-- The old value and the new stack; `none` where the source panics.
unfoldable pub insert_name : InternedStr → TypeId → ScopeStack → Option (Option TypeId × ScopeStack)
insert_name key value [] = none
insert_name key value (scope ∷ rest) = some (lookup key scope, insert key value scope ∷ rest)

unfoldable pub get : InternedStr → ScopeStack → Option TypeId
get key [] = none
get key (scope ∷ rest) = elim (lookup key scope) [ none ↦ get key rest | some value ↦ some value ]

abbrev pub contains_in_current_scope : InternedStr → ScopeStack → Bool
contains_in_current_scope key [] = false
contains_in_current_scope key (scope ∷ rest) = mem key (keys scope)

-- The calls that a checker makes.
pub data Op : Type 0 where
  push : Op
  pop : Op
  bind : InternedStr → TypeId → Op

pub step : Op → ScopeStack → Option ScopeStack
step push s = some (push_scope s)
step pop s = some (pop_scope s)
step (bind key value) s = elim (insert_name key value s) [ none ↦ none | some r ↦ some r.1 ]

unfoldable pub run : List Op → ScopeStack → Option ScopeStack
unfolding step
run [] s = some s
run (op ∷ ops) s = elim (step op s) [ none ↦ none | some t ↦ run ops t ]

-- Calls in which every `push` has its `pop` and every `pop` its `push`.
pub data IsBalanced : List Op → Type 0 where
  nothing : IsBalanced []
  binding :
      (key : InternedStr) (value : TypeId) (ops : List Op)
      → IsBalanced ops
      → IsBalanced (bind key value ∷ ops)
  block :
      (body ops : List Op)
      → IsBalanced body
      → IsBalanced ops
      → IsBalanced (push ∷ (body ++ pop ∷ ops))

run-append :
    (body ops : List Op) (s t : ScopeStack) → run body s ≡ some t → run (body ++ ops) s ≡ run ops t
unfolding run
run-append [] ops s t h = ground arith
run-append (op ∷ body) ops s t h = elim (Option-cases (step op s)) [
  | inl e ↦ absurd (ground arith)
  | inr (v, e) ↦ rw (e, run) (run-append body ops v t (rw (e, run) at h))
]

-- Balanced calls change the innermost scope alone.
balanced-outer :
    (ops : List Op)
    → IsBalanced ops
    → (scope : Scope) (outer : ScopeStack)
    → (inner : Scope) × (run ops (scope ∷ outer) ≡ some (inner ∷ outer))
unfolding run pop_scope insert_name
balanced-outer _ nothing scope outer = (scope, refl)
balanced-outer _ (binding key value ops b) scope outer =
    balanced-outer ops b (insert key value scope) outer
balanced-outer _ (block body ops b c) scope outer =
    let (inner, e) = balanced-outer body b [] (scope ∷ outer) in
    let (last, q) = balanced-outer ops c scope outer in
    (last, run-append body (pop ∷ ops) ([] ∷ scope ∷ outer) (inner ∷ scope ∷ outer) e ∙ q)

-- A block of calls between `push_scope` and `pop_scope` in which the calls of `push_scope` and `pop_scope`
-- match leaves a stack of at least one scope as it was.
pub run-block :
    (body : List Op) (s : ScopeStack)
    → IsBalanced body
    → 0 < depth s
    → run (push ∷ (body ++ pop ∷ [])) s ≡ some s
unfolding run pop_scope
run-block body [] b h = absurd (omega arith)
run-block body (scope ∷ outer) b h =
    let (inner, e) = balanced-outer body b [] (scope ∷ outer) in
    run-append body (pop ∷ []) ([] ∷ scope ∷ outer) (inner ∷ scope ∷ outer) e

-- However calls of `push_scope`, `pop_scope` and `insert` follow each other from a stack of at least
-- one scope, the `expect` of `insert` never panics, and a scope is left.
pub run_total :
    (ops : List Op) (s : ScopeStack)
    → 0 < depth s
    → (t : ScopeStack) × (run ops s ≡ some t) × (0 < depth t)
unfolding run pop_scope insert_name
run_total [] s h = (s, refl, h)
run_total (op ∷ ops) [] h = absurd (omega arith)
run_total (push ∷ ops) (scope ∷ rest) h = run_total ops ([] ∷ scope ∷ rest) (omega arith)
run_total (pop ∷ ops) (scope ∷ []) h = run_total ops (scope ∷ []) (omega arith)
run_total (pop ∷ ops) (scope ∷ outer ∷ rest) h = run_total ops (outer ∷ rest) (omega arith)
run_total (bind key value ∷ ops) (scope ∷ rest) h =
    run_total ops (insert key value scope ∷ rest) (omega arith)

mem-lookup :
    (key : InternedStr) (scope : Scope)
    → mem key (keys scope) ≡ (elim (lookup key scope) [ none ↦ false | some value ↦ true ])
mem-lookup key [] = refl
mem-lookup key ((name, value) ∷ scope) = ground (arith, mem-lookup key scope)

-- Behind `insert` of a name that name has the new type and every other name the type it had; `insert`
-- gives an old type if and only if the current scope had the name, which it has now.
pub get-insert_name :
    (key other : InternedStr) (value : TypeId) (s t : ScopeStack) (old : Option TypeId)
    → insert_name key value s ≡ some (old, t)
    → (get other t ≡ (if key == other then some value else get other s))
      × (contains_in_current_scope key s ≡ (elim old [ none ↦ false | some id ↦ true ]))
      × (contains_in_current_scope key t ≡ true)
unfolding insert_name get
get-insert_name key other value [] t old h = cc
get-insert_name key other value (scope ∷ rest) t old h = ground (
  arith,
  lookup-insert key other value scope,
  mem-lookup key scope,
  mem-lookup key (insert key value scope),
  lookup-insert key key value scope,
)
