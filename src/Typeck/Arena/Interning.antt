-- ===== src/Typeck/Arena/Interning.antt =====
-- The identifiers that `TypeArena` (crates/typeck/src/types.rs) gives: a type that is there is found again, and
-- in every arena a type stands once.
use thagore.Base.{
  ℕ, zero, suc, ◌+◌, ◌<◌, ◌≡◌, refl, sym, ap, ◌∙◌, Bool, true, false, List, [], ◌∷◌, ◌++◌, some,
  ◌==◌, length, get_elem?, arith, Option-cases, inl, inr, ◌⊎◌, ◌-◌, as_u32, as_u32-eq, u32_limit,
}
use thagore.Typeck.Arena.Kinds.{
  kind_eq_refl, kind_eq_iff, position-some, position-none, position-concat, get_elem?-append,
  get_elem?-last, get_elem?-concat,
}
use thagore.Typeck.Arena.{
  TypeId, InternedStr, StructField, TypeKind, TypeArena, new, kind, kind_eq, position, push, intern,
  intern_array, next, intern_function, is_struct_named, reserve_struct, with_fields, set_at,
  set_struct_fields, fresh_infer, fresh_int_infer,
}

-- What the caller of a lookup of `k` relies on.
pub record Interned (k : TypeKind) (arena : TypeArena) (r : TypeId × TypeArena) : Type 0 where
  pub found : kind r.0 r.1 ≡ some k
  pub keeps : (i : TypeId) (j : TypeKind) → kind i arena ≡ some j → kind i r.1 ≡ some j
  pub again : intern k r.1 ≡ r

-- In an arena of fewer than 2^32 types `intern` gives an identifier of the type, every type that was
-- there keeps its identifier, and a second call gives the same identifier and changes nothing.
pub intern-Interned :
    (k : TypeKind) (arena : TypeArena)
    → length arena.kinds < u32_limit
    → Interned k arena (intern k arena)
unfolding intern
intern-Interned k arena small =
    let test : TypeKind → Bool = λ existing. kind_eq existing k in
    elim (Option-cases (position test 0 arena.kinds)) [
      | inr (n, e) ↦
          let (le, lt, (j, found, passes)) = position-some test 0 n arena.kinds e in
          let same : j ≡ k = (kind_eq_iff j k).0 passes in
          let id : as_u32 n ≡ n = as_u32-eq n (omega arith) in
          let at_n : n - 0 ≡ n = omega arith in
          rw (e, intern)
            (record {
              found = rw id (rw at_n at (found ∙ ap some same));
              keeps = λ i j h. h;
              again = rw (e, intern) refl;
            })
      | inl e ↦
          let id = as_u32-eq (length arena.kinds) small in
          let zero_add : 0 + length arena.kinds ≡ length arena.kinds = omega arith in
          let later = position-concat test 0 arena.kinds k e (kind_eq_refl k) ∙ ap some zero_add in
          rw (e, intern)
            (record {
              found = rw id (get_elem?-last arena.kinds k);
              keeps = λ i j h. get_elem?-append i arena.kinds k j h;
              again = rw (later, intern) refl;
            })
    ]

-- The two types count as one: equal types, or two structs of one name. Inference variables count
-- as their identifiers.
abbrev pub one_type : TypeKind → TypeKind → Bool
one_type (TypeKind.struct s) (TypeKind.struct t) = s.name == t.name
one_type (TypeKind.infer n) _ = false
one_type (TypeKind.int_infer n) _ = false
one_type a b = kind_eq a b

-- A type stands in the arena once.
abbrev pub IsCanonical : TypeArena → Type 0
IsCanonical arena =
    (i j : TypeId) (a b : TypeKind)
    → kind i arena ≡ some a
    → kind j arena ≡ some b
    → one_type a b ≡ true
    → i ≡ j

-- The arenas that calls of the operations lead to.
pub data Reachable : TypeArena → Type 0 where
  started : Reachable new
  array :
      (arena : TypeArena) (element : TypeId)
      → Reachable arena
      → Reachable (intern_array element arena).1
  function :
      (arena : TypeArena) (params : List TypeId) (return_type : TypeId)
      → Reachable arena
      → Reachable (intern_function params return_type arena).1
  reserved :
      (arena : TypeArena) (name : InternedStr)
      → Reachable arena
      → Reachable (reserve_struct name arena).1
  fielded :
      (arena : TypeArena) (id : TypeId) (fields : List StructField)
      → Reachable arena
      → Reachable (set_struct_fields id fields arena)
  inferred : (arena : TypeArena) → Reachable arena → Reachable (fresh_infer arena).1
  int_inferred : (arena : TypeArena) → Reachable arena → Reachable (fresh_int_infer arena).1

one_type-sym : (a b : TypeKind) → one_type a b ≡ true → one_type b a ≡ true
unfolding kind_eq
one_type-sym (TypeKind.struct s) (TypeKind.struct t) h = ground arith
one_type-sym a b h = ground (arith, (kind_eq_iff a b).0, kind_eq_refl a, kind_eq_refl b)

-- A new type that counts as none that is there.
push-IsCanonical :
    (k : TypeKind) (arena : TypeArena)
    → ((i : TypeId) (j : TypeKind) → kind i arena ≡ some j → one_type j k ≡ false)
    → IsCanonical arena
    → IsCanonical (push k arena).1
push-IsCanonical k arena new_type c i j a b p q same = elim (get_elem?-concat i arena.kinds k a p) [
  | inl p' ↦ elim (get_elem?-concat j arena.kinds k b q) [
    | inl q' ↦ c i j a b p' q' same
    | inr (l, e) ↦ absurd (ground (arith, new_type i a p'))
  ]
  | inr (l, e) ↦ elim (get_elem?-concat j arena.kinds k b q) [
    | inl q' ↦ absurd (ground (arith, new_type j b q', one_type-sym a b))
    | inr (l', e') ↦ l ∙ sym l'
  ]
]

-- The search of `intern` and of `reserve_struct` finds no type that counts as the new one.
intern-IsCanonical :
    (k : TypeKind) (arena : TypeArena)
    → ((j : TypeKind) → kind_eq j k ≡ false → one_type j k ≡ false)
    → IsCanonical arena
    → IsCanonical (intern k arena).1
unfolding intern
intern-IsCanonical k arena other c =
    let test : TypeKind → Bool = λ existing. kind_eq existing k in
    elim (Option-cases (position test 0 arena.kinds)) [
      | inr (n, e) ↦ rw (e, intern) c
      | inl e ↦
          rw (e, intern)
            (push-IsCanonical k arena (λ i j h. other j (position-none test 0 i arena.kinds j e h))
              c)
    ]

reserve_struct-IsCanonical :
    (name : InternedStr) (arena : TypeArena)
    → IsCanonical arena
    → IsCanonical (reserve_struct name arena).1
unfolding reserve_struct kind_eq
reserve_struct-IsCanonical name arena c =
    elim (Option-cases (position (is_struct_named name) 0 arena.kinds)) [
      | inr (n, e) ↦ rw (e, reserve_struct) c
      | inl e ↦
          rw (e, reserve_struct)
            (push-IsCanonical (TypeKind.struct (record { name = name; fields = [] })) arena
              (λ i j h. ground (arith, position-none (is_struct_named name) 0 i arena.kinds j e h))
              c)
    ]

-- A type keeps what it counts as when its fields are set.
set_at-one_type :
    (id : TypeId) (fields : List StructField) (kinds : List TypeKind) (i : TypeId) (a : TypeKind)
    → get_elem? (set_at id fields kinds) i ≡ some a
    → (b : TypeKind) × (get_elem? kinds i ≡ some b) × ((a ≡ b) ⊎ (a ≡ with_fields fields b))
set_at-one_type id fields [] i a h = cc
set_at-one_type zero fields (k ∷ kinds) zero a h = (k, refl, inr (ground arith))
set_at-one_type zero fields (k ∷ kinds) (suc i) a h = (a, h, inl refl)
set_at-one_type (suc id) fields (k ∷ kinds) zero a h = (a, h, inl refl)
set_at-one_type (suc id) fields (k ∷ kinds) (suc i) a h = set_at-one_type id fields kinds i a h

with_fields-one_type :
    (fields : List StructField) (a b a' b' : TypeKind)
    → (a ≡ a') ⊎ (a ≡ with_fields fields a')
    → (b ≡ b') ⊎ (b ≡ with_fields fields b')
    → one_type a b ≡ true
    → one_type a' b' ≡ true
unfolding kind_eq
with_fields-one_type fields a b a' b' p q h = ground arith

set_struct_fields-IsCanonical :
    (id : TypeId) (fields : List StructField) (arena : TypeArena)
    → IsCanonical arena
    → IsCanonical (set_struct_fields id fields arena)
unfolding set_struct_fields
set_struct_fields-IsCanonical id fields arena c i j a b p q same =
    let (a', p', r) = set_at-one_type id fields arena.kinds i a p in
    let (b', q', t) = set_at-one_type id fields arena.kinds j b q in
    c i j a' b' p' q' (with_fields-one_type fields a b a' b' r t same)

variable-alone :
    (j : TypeKind) (n : ℕ)
    → (one_type j (TypeKind.infer n) ≡ false) × (one_type j (TypeKind.int_infer n) ≡ false)
unfolding kind_eq
variable-alone j n = ground arith

-- In every arena that calls of the operations lead to, a type has one identifier: two identifiers
-- of equal types, or of structs with one name, are the same. Inference variables are not compared.
pub Reachable-IsCanonical : (arena : TypeArena) → Reachable arena → IsCanonical arena
unfolding fresh_infer fresh_int_infer kind_eq
Reachable-IsCanonical _ started = λ i j a b p q same. ground arith
Reachable-IsCanonical _ (array arena element r) =
    intern-IsCanonical (TypeKind.array element) arena (λ j h. ground arith)
      (Reachable-IsCanonical arena r)
Reachable-IsCanonical _ (function arena params return_type r) =
    intern-IsCanonical (TypeKind.function (record { params = params; return_type = return_type }))
      arena (λ j h. ground arith) (Reachable-IsCanonical arena r)
Reachable-IsCanonical _ (reserved arena name r) =
    reserve_struct-IsCanonical name arena (Reachable-IsCanonical arena r)
Reachable-IsCanonical _ (fielded arena id fields r) =
    set_struct_fields-IsCanonical id fields arena (Reachable-IsCanonical arena r)
Reachable-IsCanonical _ (inferred arena r) =
    push-IsCanonical (TypeKind.infer arena.next_infer)
      (record arena { next_infer = next arena.next_infer })
      (λ i j h. (variable-alone j arena.next_infer).0) (Reachable-IsCanonical arena r)
Reachable-IsCanonical _ (int_inferred arena r) =
    push-IsCanonical (TypeKind.int_infer arena.next_infer)
      (record arena { next_infer = next arena.next_infer })
      (λ i j h. (variable-alone j arena.next_infer).1) (Reachable-IsCanonical arena r)

named-set_at :
    (name : InternedStr) (start id : ℕ) (fields : List StructField) (kinds : List TypeKind)
    → position (is_struct_named name) start (set_at id fields kinds)
      ≡ position (is_struct_named name) start kinds
named-set_at name start id fields [] = refl
named-set_at name start zero fields (k ∷ kinds) = ground arith
named-set_at name start (suc id) fields (k ∷ kinds) =
    ground (arith, named-set_at name (start + 1) id fields kinds)

-- A struct keeps its identifier: when its name was reserved and the fields of any type are set,
-- reserving the name again gives the same identifier and changes nothing.
pub reserve_struct-again :
    (name : InternedStr) (arena : TypeArena) (other : TypeId) (fields : List StructField)
    (r : TypeId × TypeArena)
    → reserve_struct name arena ≡ r
    → reserve_struct name (set_struct_fields other fields r.1)
      ≡ (r.0, set_struct_fields other fields r.1)
unfolding reserve_struct set_struct_fields
reserve_struct-again name arena other fields r h =
    let test = is_struct_named name in
    elim (Option-cases (position test 0 arena.kinds)) [
      | inr (n, e) ↦
          let same = named-set_at name 0 other fields arena.kinds ∙ e in
          let found : (as_u32 n, arena) ≡ r = rw (e, reserve_struct) at h in
          rw (← found) (rw (same, reserve_struct) refl)
      | inl e ↦
          let k = TypeKind.struct (record { name = name; fields = [] }) in
          let zero_add : 0 + length arena.kinds ≡ length arena.kinds = omega arith in
          let last = position-concat test 0 arena.kinds k e (ground arith) ∙ ap some zero_add in
          let same = named-set_at name 0 other fields (arena.kinds ++ k ∷ []) ∙ last in
          let pushed : push k arena ≡ r = rw (e, reserve_struct) at h in
          rw (← pushed) (rw (same, reserve_struct) refl)
    ]
