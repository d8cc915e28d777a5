-- ===== src/Typeck/Table.antt =====
-- crates/typeck/src/table.rs: `TypeTable`, the types of the nodes of a program.
use thagore.Base.{
  ℕ, zero, suc, ◌+◌, ◌-◌, ◌<◌, ◌≡◌, refl, Bool, true, false, List, [], ◌∷◌, ◌++◌, Option, none,
  some, ◌==◌, leb, if◌then◌else◌, length, get_elem?, arith,
}
use thagore.Typeck.Arena.{TypeId}

-- `TypeTable { entries }`
abbrev pub TypeTable : Type 0
TypeTable = List (Option TypeId)

abbrev pub clear : TypeTable → TypeTable
clear entries = []

-- `count` empty entries
abbrev pub empty_entries : ℕ → TypeTable
empty_entries zero = []
empty_entries (suc n) = none ∷ empty_entries n

-- `entries.resize(size, None)` on fewer entries than `size`
abbrev pub resize : ℕ → TypeTable → TypeTable
resize size entries = entries ++ empty_entries (size - length entries)

-- `entries[index] = Some(type_id)`, inside the table
abbrev pub set : ℕ → TypeId → TypeTable → TypeTable
set index id [] = []
set zero id (entry ∷ entries) = some id ∷ entries
set (suc index) id (entry ∷ entries) = entry ∷ set index id entries

unfoldable pub insert : ℕ → TypeId → TypeTable → TypeTable
insert index id entries =
    set index id (if leb (length entries) index then resize (index + 1) entries else entries)

-- `get(index).copied().flatten()`
abbrev pub get : ℕ → TypeTable → Option TypeId
get index entries = elim (get_elem? entries index) [ none ↦ none | some entry ↦ entry ]

abbrev pub contains : ℕ → TypeTable → Bool
contains index entries = elim (get index entries) [ none ↦ false | some id ↦ true ]

-- `rewrite_all`, with the state that the closure carries from entry to entry
unfoldable pub rewrite_all :
    {S : Type 0} → (TypeId → S → TypeId × S) → TypeTable → S → TypeTable × S
rewrite_all rewrite [] s = ([], s)
rewrite_all rewrite (none ∷ entries) s =
    let (rewritten, t) = rewrite_all rewrite entries s in (none ∷ rewritten, t)
rewrite_all rewrite (some id ∷ entries) s =
    let (new_id, t) = rewrite id s in
    let (rewritten, u) = rewrite_all rewrite entries t in (some new_id ∷ rewritten, u)

get-set :
    (i j : ℕ) (id : TypeId) (entries : TypeTable)
    → i < length entries
    → get j (set i id entries) ≡ (if i == j then some id else get j entries)
get-set i j id [] lt = absurd (omega arith)
get-set zero zero id (entry ∷ entries) lt = refl
get-set zero (suc j) id (entry ∷ entries) lt = ground arith
get-set (suc i) zero id (entry ∷ entries) lt = ground arith
get-set (suc i) (suc j) id (entry ∷ entries) lt = ground (arith, get-set i j id entries)

get-empty_entries : (n j : ℕ) → get j (empty_entries n) ≡ none
get-empty_entries zero j = refl
get-empty_entries (suc n) zero = refl
get-empty_entries (suc n) (suc j) = get-empty_entries n j

get-resize : (n j : ℕ) (entries : TypeTable) → get j (entries ++ empty_entries n) ≡ get j entries
get-resize n j [] = get-empty_entries n j
get-resize n zero (entry ∷ entries) = refl
get-resize n (suc j) (entry ∷ entries) = get-resize n j entries

length-resize :
    (n : ℕ) (entries : TypeTable) → length (entries ++ empty_entries n) ≡ length entries + n
length-resize zero [] = refl
length-resize (suc n) [] = omega (arith, length-resize n [])
length-resize n (entry ∷ entries) = omega (arith, length-resize n entries)

-- Behind `insert` a node has the new type if it is the node given, and the type it had before if
-- it is another one, whatever the length of the table.
pub get-insert :
    (i j : ℕ) (id : TypeId) (entries : TypeTable)
    → get j (insert i id entries) ≡ (if i == j then some id else get j entries)
unfolding insert
get-insert i j id entries = ground (
  arith,
  get-set i j id entries,
  get-set i j id (resize (i + 1) entries),
  get-resize (i + 1 - length entries) j entries,
  length-resize (i + 1 - length entries) entries,
)
