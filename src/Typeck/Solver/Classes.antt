-- ===== src/Typeck/Solver/Classes.antt =====
-- The classes of `InferenceSolver` (crates/typeck/src/infer.rs): `union` merges two classes.
use thagore.Base.{
  ℕ, suc, ◌+◌, ◌-◌, ◌<◌, ◌≡◌, ◌↔◌, refl, ◌∙◌, false, List, Option, some, ◌==◌, length, get_elem?,
  arith, Bool-cases, inl, inr, ◌⊎◌, if◌then◌else◌,
}
use thagore.Typeck.Solver.{set_parent, find_root, ensure, resolve, union}
use thagore.Typeck.Solver.Forest.{
  Chain, Root, at_root, above, Chain-root, Chain-unique, IsForest, find-FoundRoot, Chain-steps,
  Chain-bound, compress-Shorter, get_elem?-set_parent, length-set_parent,
}

-- The two identifiers stand below one root: they name one type.
pub record Same (parents : List ℕ) (a b : ℕ) : Type 0 where
  pub root : ℕ
  pub left : Root parents a root
  pub right : Root parents b root

pub Root-unique : {parents : List ℕ} {id r s : ℕ} → Root parents id r → Root parents id s → r ≡ s
Root-unique p q = (Chain-unique p.chain q.chain).0

pub Root-bound : {parents : List ℕ} {id r : ℕ} → Root parents id r → id < length parents
Root-bound p = Chain-bound p.chain

pub Root-self : {parents : List ℕ} {id r : ℕ} → Root parents id r → Root parents r r
Root-self {parents} {id} {r} p = record { steps = 0; chain = at_root r (Chain-root p.chain) }

-- The same roots.
pub record Keeps (before after : List ℕ) : Type 0 where
  pub keeps_length : length after ≡ length before
  pub roots : (id root : ℕ) → Root before id root → Root after id root

pub IsForest-Keeps : {before after : List ℕ} → IsForest before → Keeps before after → IsForest after
IsForest-Keeps forest keeps = λ id small.
    let (root, r) = forest id (omega (arith, keeps.keeps_length)) in (root, keeps.roots id root r)

pub Keeps-trans : {a b c : List ℕ} → Keeps a b → Keeps b c → Keeps a c
Keeps-trans p q = record {
  keeps_length = q.keeps_length ∙ p.keeps_length;
  roots = λ id root r. q.roots id root (p.roots id root r);
}

pub Keeps-refl : (parents : List ℕ) → Keeps parents parents
Keeps-refl parents = record { keeps_length = refl; roots = λ id root r. r }

find_root-Keeps :
    (parents : List ℕ) (id root : ℕ)
    → Root parents id root
    → (after : List ℕ) × (find_root id parents ≡ some (root, after)) × Keeps parents after
unfolding find_root
find_root-Keeps parents id root r =
    let enough : r.steps < suc (length parents) = omega (arith, Chain-steps r.chain) in
    let found = find-FoundRoot (suc (length parents)) parents id root r.steps r.chain enough in
    (
      found.after,
      found.ends,
      record {
        keeps_length = found.keeps_length;
        roots = λ i s p.
            let (fewer, le, d) = found.shorter i s p.steps p.chain in
            record { steps = fewer; chain = d };
      },
    )

pub ensure-id : (parents : List ℕ) (id : ℕ) → id < length parents → ensure id parents ≡ parents
unfolding ensure
ensure-id parents id small =
    let nothing : id + 1 - length parents ≡ 0 = omega arith in rw nothing refl

pub resolve-Keeps :
    (parents : List ℕ) (id root : ℕ)
    → Root parents id root
    → (after : List ℕ) × (resolve id parents ≡ some (root, after)) × Keeps parents after
unfolding resolve
resolve-Keeps parents id root r =
    rw (ensure-id parents id (Root-bound r)) (find_root-Keeps parents id root r)

-- A root hung below another one.
hang-Root :
    (parents : List ℕ) (child parent : ℕ)
    → Root parents child child
    → Root parents parent parent
    → (child == parent) ≡ false
    → (id root steps : ℕ) → Chain parents id root steps
    → Root (set_parent child parent parents) id (if root == child then parent else root)
hang-Root parents child parent c d apart _ _ _ (at_root r h) =
    let hung = get_elem?-set_parent parents child r parent r h in
    let kept = get_elem?-set_parent parents child parent parent parent (Chain-root d.chain) in
    elim (Bool-cases (r == child)) [
      | inl t ↦
          let top : get_elem? (set_parent child parent parents) parent ≡ some parent =
            ground (arith, kept) in
          let up : get_elem? (set_parent child parent parents) r ≡ some parent = ground arith in
          rw t (record {
            steps = 1;
            chain = above r parent parent 0 up (ground arith) (at_root parent top);
          })
      | inr f ↦ rw f (record { steps = 0; chain = at_root r (ground arith) })
    ]
hang-Root parents child parent c d apart _ _ _ (above id p r k e ne chain) =
    let rest = hang-Root parents child parent c d apart p r k chain in
    let hung = get_elem?-set_parent parents child id parent p e in
    let inner : (child == id) ≡ false = ground (arith, Chain-root c.chain) in
    record {
      steps = suc rest.steps;
      chain =
          above id p (if r == child then parent else r) rest.steps (rw inner at hung) ne rest.chain;
    }

-- What `union` gives when the roots of its arguments are `c` and `p`.
pub record Joined (parents : List ℕ) (c p : ℕ) (result : Option (List ℕ)) : Type 0 where
  pub after : List ℕ
  pub ends : result ≡ some after
  pub keeps_length : length after ≡ length parents
  pub roots : (id root : ℕ) → Root parents id root → Root after id (if root == c then p else root)

pub union-Joined :
    (parents : List ℕ) (child parent c p : ℕ)
    → Root parents child c
    → Root parents parent p
    → Joined parents c p (union child parent parents)
unfolding union
union-Joined parents child parent c p rc rp =
    let (found, e, k) = find_root-Keeps parents child c rc in
    let (both, e', k') = find_root-Keeps found parent p (k.roots parent p rp) in
    let keeps = Keeps-trans k k' in
    let same_length = length-set_parent both c p ∙ keeps.keeps_length in
    let no_push = ensure-id parents child (Root-bound rc) in
    let no_other = ensure-id parents parent (Root-bound rp) in
    record {
      after = set_parent c p both;
      ends = rw (no_push, no_other, e, e') refl;
      keeps_length = same_length;
      roots = λ id root r.
          let r' = keeps.roots id root r in
          let top_c = Root-self (keeps.roots child c rc) in
          let top_p = Root-self (keeps.roots parent p rp) in
          elim (Bool-cases (c == p)) [
            | inl t ↦
                let own : p ≡ c = ground arith in
                let stays : (if root == c then p else root) ≡ root = ground arith in
                let (fewer, le, d) =
                  compress-Shorter both c c (top_c.steps, top_c.chain) id root r'.steps r'.chain in
                rw stays (rw own (record { steps = fewer; chain = d }))
            | inr f ↦ hang-Root both c p top_c top_p f id root r'.steps r'.chain
          ];
    }

-- The classes after the classes of `x` and `y` become one.
abbrev pub Merged : List ℕ → ℕ → ℕ → ℕ → ℕ → Type 0
Merged parents x y a b =
    Same parents a b ⊎ (Same parents a x × Same parents b y) ⊎ (Same parents a y × Same parents b x)

pub record UnionLaw (parents : List ℕ) (x y : ℕ) (result : Option (List ℕ)) : Type 0 where
  pub after : List ℕ
  pub ends : result ≡ some after
  pub forest : IsForest after
  pub keeps_length : length after ≡ length parents
  pub classes : (a b : ℕ) → Same after a b ↔ Merged parents x y a b

Merged-of_after :
    {parents : List ℕ} {x y c p : ℕ} {result : Option (List ℕ)}
    → IsForest parents
    → Root parents x c
    → Root parents y p
    → (j : Joined parents c p result) → (a b : ℕ) → Same j.after a b
    → Merged parents x y a b
Merged-of_after {parents} {x} {y} {c} {p} forest rc rp j a b same =
    let (ra, qa) = forest a (omega (arith, Root-bound same.left, j.keeps_length)) in
    let (rb, qb) = forest b (omega (arith, Root-bound same.right, j.keeps_length)) in
    let left : (if ra == c then p else ra) ≡ same.root = Root-unique (j.roots a ra qa) same.left in
    let right : (if rb == c then p else rb) ≡ same.root =
      Root-unique (j.roots b rb qb) same.right in
    let joined : (r s i k : ℕ) → r ≡ s → Root parents i r → Root parents k s → Same parents i k =
      λ r s i k e u v. record { root = s; left = rw e at u; right = v } in
    elim (Bool-cases (ra == c)) [
      | inl t ↦ elim (Bool-cases (rb == c)) [
        | inl t' ↦ inl (joined ra rb a b (ground arith) qa qb)
        | inr f' ↦
            inr (inl (joined ra c a x (ground arith) qa rc, joined rb p b y (ground arith) qb rp))
      ]
      | inr f ↦ elim (Bool-cases (rb == c)) [
        | inl t' ↦
            inr (inr (joined ra p a y (ground arith) qa rp, joined rb c b x (ground arith) qb rc))
        | inr f' ↦ inl (joined ra rb a b (ground arith) qa qb)
      ]
    ]

after_of_Merged :
    {parents : List ℕ} {x y c p : ℕ} {result : Option (List ℕ)}
    → Root parents x c
    → Root parents y p
    → (j : Joined parents c p result) → (a b : ℕ) → Merged parents x y a b
    → Same j.after a b
after_of_Merged {parents} {x} {y} {c} {p} rc rp j a b (inl same) = record {
  root = if same.root == c then p else same.root;
  left = j.roots a same.root same.left;
  right = j.roots b same.root same.right;
}
after_of_Merged {parents} {x} {y} {c} {p} rc rp j a b (inr (inl (u, v))) =
    let at_c : u.root ≡ c = Root-unique u.right rc in
    let at_p : v.root ≡ p = Root-unique v.right rp in
    let to_p : (if c == c then p else c) ≡ p = ground arith in
    let still : (if p == c then p else p) ≡ p = ground arith in
    record {
      root = p;
      left = rw to_p at (j.roots a c (rw at_c at u.left));
      right = rw still at (j.roots b p (rw at_p at v.left));
    }
after_of_Merged {parents} {x} {y} {c} {p} rc rp j a b (inr (inr (u, v))) =
    let at_p : u.root ≡ p = Root-unique u.right rp in
    let at_c : v.root ≡ c = Root-unique v.right rc in
    let to_p : (if c == c then p else c) ≡ p = ground arith in
    let still : (if p == c then p else p) ≡ p = ground arith in
    record {
      root = p;
      left = rw still at (j.roots a p (rw at_p at u.left));
      right = rw to_p at (j.roots b c (rw at_c at v.left));
    }

Joined-IsForest :
    {parents : List ℕ} {c p : ℕ} {result : Option (List ℕ)}
    → IsForest parents
    → (j : Joined parents c p result) → IsForest j.after
Joined-IsForest {parents} {c} {p} forest j = λ id small.
    let (root, r) = forest id (omega (arith, j.keeps_length)) in
    (if root == c then p else root, j.roots id root r)

-- On two identifiers of a forest `union` returns, with a forest of the same identifiers, in which two of them
-- are of one class when they were, or when one was in the class of the first argument and the other in
-- that of the second.
pub union-UnionLaw :
    (parents : List ℕ) (x y : ℕ)
    → IsForest parents
    → x < length parents
    → y < length parents
    → UnionLaw parents x y (union x y parents)
union-UnionLaw parents x y forest in_x in_y =
    let (c, rc) = forest x in_x in
    let (p, rp) = forest y in_y in
    let j = union-Joined parents x y c p rc rp in
    record {
      after = j.after;
      ends = j.ends;
      forest = Joined-IsForest forest j;
      keeps_length = j.keeps_length;
      classes = λ a b. (Merged-of_after forest rc rp j a b, after_of_Merged rc rp j a b);
    }
