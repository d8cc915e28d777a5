-- ===== src/ModuleGraph/Order.antt =====
-- What the order of `topo_sort` (crates/module_graph/src/lib.rs) says of the modules that stand in it.
use thagore.Base.Maps.{mem, mem-append}
use thagore.Base.{
  ◌<◌, ◌≡◌, Bool, true, false, List, [], ◌∷◌, ◌++◌, arith, Bool-cases, inl, inr, append-nil,
}
use thagore.ModuleGraph.Edges.{Edges}
use thagore.ModuleGraph.Kahn.{outstanding, IsOrdered}
use thagore.ModuleGraph.{ModuleId, ModulePath, list_of}

pub outstanding-found :
    (order deps : List ModuleId)
    → 0 < outstanding order deps
    → (d : ModuleId) × (mem d deps ≡ true) × (mem d order ≡ false)
outstanding-found order [] h = absurd (omega arith)
outstanding-found order (dep ∷ deps) h = elim (Bool-cases (mem dep order)) [
  | inr e ↦ (dep, ground arith, e)
  | inl e ↦ let (d, p, q) = outstanding-found order deps (ground arith) in (d, ground arith, q)
]

pub outstanding-zero :
    (order deps : List ModuleId) (d : ModuleId)
    → outstanding order deps ≡ 0
    → mem d deps ≡ true
    → mem d order ≡ true
outstanding-zero order [] d z h = cc
outstanding-zero order (dep ∷ deps) d z h = ground (arith, outstanding-zero order deps d)

module _ (nodes : List (ModuleId × ModulePath)) (edges rev : Edges) where
  pub ordered-behind :
      (seen ms before after : List ModuleId) (m d : ModuleId)
      → IsOrdered nodes edges rev seen ms
      → ms ≡ before ++ m ∷ after
      → mem d (list_of m edges) ≡ true
      → mem d (seen ++ before) ≡ true
  ordered-behind seen [] [] after m d o e h = cc
  ordered-behind seen [] (b ∷ before) after m d o e h = cc
  ordered-behind seen (x ∷ ms) [] after m d o e h =
      rw append-nil (ground (arith, outstanding-zero seen (list_of m edges) d))
  ordered-behind seen (x ∷ ms) (b ∷ before) after m d o e h =
      let rest = ordered-behind (seen ++ x ∷ []) ms before after m d o.1 (ground arith) h in
      ground (
        arith,
        rest,
        mem-append d seen (b ∷ before),
        mem-append d (seen ++ x ∷ []) before,
        mem-append d seen (x ∷ []),
      )

  -- Modules each of which imports another one do not stand in an order.
  pub ordered-avoids :
      (stays : ModuleId → Bool)
      → ((m : ModuleId)
          → stays m ≡ true
          → (d : ModuleId) × (mem d (list_of m edges) ≡ true) × (stays d ≡ true))
      → (seen ms : List ModuleId) → IsOrdered nodes edges rev seen ms
      → ((a : ModuleId) → mem a seen ≡ true → stays a ≡ false)
      → (a : ModuleId) → mem a ms ≡ true
      → stays a ≡ false
  ordered-avoids stays again seen [] o none_seen a h = cc
  ordered-avoids stays again seen (x ∷ ms) o none_seen a h =
      let first : stays x ≡ false = elim (Bool-cases (stays x)) [
        | inr n ↦ n
        | inl y ↦
            let (d, p, q) = again x y in
            ground (arith, none_seen d, outstanding-zero seen (list_of x edges) d)
      ] in
      ground (
        arith,
        first,
        ordered-avoids stays again (seen ++ x ∷ []) ms o.1
            (λ b k. ground (arith, first, none_seen b, mem-append b seen (x ∷ []))) a,
      )
