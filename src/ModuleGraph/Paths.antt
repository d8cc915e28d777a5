-- ===== src/ModuleGraph/Paths.antt =====
-- Paths and cycles along the edges of the graph, and the stack of `detect_cycles`
-- (crates/module_graph/src/lib.rs).
use thagore.Base.Maps.{mem}
use thagore.Base.{
  ◌≡◌, refl, true, false, not, ◌&&◌, ◌||◌, List, [], ◌∷◌, ◌++◌, ◌==◌, arith, Bool-cases, inl, inr,
}
use thagore.ModuleGraph.Edges.{Edges}
use thagore.ModuleGraph.{ModuleId, list_of, VisitState, visiting, visited, from_first, pop, discard}

module _ (edges : Edges) where
  -- Each module imports the next one, and the last one imports `next`.
  abbrev pub IsPath : List ModuleId → ModuleId → Type 0
  IsPath [] next = Unit
  IsPath (a ∷ []) next = mem next (list_of a edges) ≡ true
  IsPath (a ∷ b ∷ rest) next = (mem b (list_of a edges) ≡ true) × IsPath (b ∷ rest) next

  -- A cycle with its first module repeated at the end.
  pub record IsCycle (cycle : List ModuleId) : Type 0 where
    pub start : ModuleId
    pub between : List ModuleId
    pub closed : cycle ≡ start ∷ (between ++ start ∷ [])
    pub path : IsPath (start ∷ between) start

  pub from_first-IsPath :
      (id next : ModuleId) (stack : List ModuleId)
      → mem id stack ≡ true
      → IsPath stack next
      → (between : List ModuleId) × (from_first id stack ≡ id ∷ between)
        × IsPath (id ∷ between) next
  unfolding from_first
  from_first-IsPath id next [] h p = cc
  from_first-IsPath id next (a ∷ []) h p = ([], ground arith, ground arith)
  from_first-IsPath id next (a ∷ b ∷ rest) h p = elim (Bool-cases (a == id)) [
    | inl e ↦ (b ∷ rest, ground arith, ground arith)
    | inr e ↦
        let (between, q, r) = from_first-IsPath id next (b ∷ rest) (ground arith) p.1 in
        (between, ground arith, r)
  ]

  pub IsPath-concat :
      (stack : List ModuleId) (id next : ModuleId)
      → IsPath stack id
      → mem next (list_of id edges) ≡ true
      → IsPath (stack ++ id ∷ []) next
  IsPath-concat [] id next p e = e
  IsPath-concat (a ∷ []) id next p e = (p, e)
  IsPath-concat (a ∷ b ∷ rest) id next p e = (p.0, IsPath-concat (b ∷ rest) id next p.1 e)

  -- Each module of a path imports the next one.
  pub IsPath-next :
      (xs : List ModuleId) (next m : ModuleId)
      → IsPath xs next
      → mem m xs ≡ true
      → (d : ModuleId) × (mem d (list_of m edges) ≡ true) × ((mem d xs || next == d) ≡ true)
  IsPath-next [] next m p h = cc
  IsPath-next (a ∷ []) next m p h = (next, ground arith, ground arith)
  IsPath-next (a ∷ b ∷ rest) next m p h = elim (Bool-cases (a == m)) [
    | inl e ↦ (b, ground arith, ground arith)
    | inr e ↦
        let (d, q, r) = IsPath-next (b ∷ rest) next m p.1 (ground arith) in (d, q, ground arith)
  ]

pub pop-concat : (stack : List ModuleId) (id : ModuleId) → pop (stack ++ id ∷ []) ≡ stack
unfolding pop
pop-concat [] id = refl
pop-concat (x ∷ []) id = refl
pop-concat (x ∷ y ∷ xs) id = ground (arith, pop-concat (y ∷ xs) id)

pub mem-discard :
    (a id : ModuleId) (xs : List ModuleId) → mem a (discard id xs) ≡ (mem a xs && not (id == a))
unfolding discard
mem-discard a id [] = refl
mem-discard a id (x ∷ xs) = ground (arith, mem-discard a id xs)

pub visited_only :
    (state : VisitState)
    → (state ≡ visiting → false ≡ true)
    → elim state [ visiting ↦ false | visited ↦ true ] ≡ true
visited_only visiting h = h refl
visited_only visited h = refl
