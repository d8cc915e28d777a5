-- ===== src/Ir/Validate/Blocks.antt =====
-- `validate_function` (crates/ir/src/validate.rs) reports no error where, and only where, the function is
-- valid.
use thagore.Base.Maps.{mem, keys}
use thagore.Base.{
  ◌≡◌, ◌↔◌, refl, sym, ◌||◌, Bool, false, List, [], ◌∷◌, ◌++◌, none, some, arith, Bool-cases,
  Option-cases, inl, inr,
}
use thagore.Ir.{Value, BlockId, Terminator, BasicBlock, IrFunction}
use thagore.Ir.Validate.Valid.{
  defined_in, defined_in_blocks, BlockIsValid, IsValid, ids, mem-see_all, mem-see_blocks,
}
use thagore.Ir.Validate.Checks.{
  check_successors-nil_iff, check_predecessors-nil_iff, check_terminator-nil,
  check_terminator-valid,
}
use thagore.Ir.Validate.{
  check_successors, check_predecessors, check_instrs, check_terminator, check_block,
  check_terminated, check_end, check_blocks, see_all, see_blocks, validate_function,
}
use thagore.Ir.Validate.Instrs.{
  append-nil_both, both-append_nil, check_instrs-nil, check_instrs-Valid,
}

unterminated : (b : BasicBlock) → b.terminator ≡ none → check_terminated b ≡ [] → ⊥
unterminated b h e = ground arith

ending :
    (valid : List BlockId) (b : BasicBlock) (seen : List Value) (t : Terminator)
    → b.terminator ≡ some t
    → check_end valid b seen ≡ []
    → check_terminator valid b.id seen t ≡ []
ending valid b seen t h e = rw h at e

module _ (valid : List BlockId) (all : List Value) where
  -- The five parts of the check of a block.
  record Parts (seen : List Value) (block : BasicBlock) : Type 0 where
    first : check_terminated block ≡ []
    forth : check_successors valid block.id block.successors ≡ []
    back : check_predecessors valid block.id block.predecessors ≡ []
    inside : check_instrs all block seen block.instructions ≡ []
    last : check_end valid block (see_all seen block.instructions) ≡ []

  check_block-Parts :
      (seen : List Value) (block : BasicBlock)
      → check_block valid all seen block ≡ []
      → Parts seen block
  unfolding check_block
  check_block-Parts seen block e =
      let (r3, last) =
        append-nil_both _ (check_end valid block (see_all seen block.instructions)) e in
      let (r2, inside) = append-nil_both _ (check_instrs all block seen block.instructions) r3 in
      let (r, back) = append-nil_both _ (check_predecessors valid block.id block.predecessors) r2 in
      let (first, forth) = append-nil_both (check_terminated block) _ r in
      record { first = first; forth = forth; back = back; inside = inside; last = last }

  Parts-check_block :
      (seen : List Value) (block : BasicBlock)
      → Parts seen block
      → check_block valid all seen block ≡ []
  unfolding check_block
  Parts-check_block seen block p =
      let r = both-append_nil (check_terminated block) _ p.first p.forth in
      let r2 = both-append_nil _ (check_predecessors valid block.id block.predecessors) r p.back in
      let r3 = both-append_nil _ (check_instrs all block seen block.instructions) r2 p.inside in
      both-append_nil _ (check_end valid block (see_all seen block.instructions)) r3 p.last

  abbrev Valid : (Value → Bool) → BasicBlock → Type 0
  Valid = BlockIsValid valid (λ v. mem v all)

  check_block-nil :
      (seen : List Value) (block : BasicBlock)
      → check_block valid all seen block ≡ []
      → Valid (λ v. mem v seen) block
  check_block-nil seen block e =
      let p = check_block-Parts seen block e in
      record {
        terminated = λ h. absurd (unterminated block h p.first);
        successors = (check_successors-nil_iff valid block.id block.successors).0 p.forth;
        predecessors = (check_predecessors-nil_iff valid block.id block.predecessors).0 p.back;
        instrs = check_instrs-nil all block seen block.instructions p.inside;
        end = λ t h.
            check_terminator-nil valid block.id (see_all seen block.instructions)
              (λ v. mem v seen || defined_in v block.instructions)
              (λ v. mem-see_all v seen block.instructions) t (ending valid block _ t h p.last);
      }

  check_block-Valid :
      (seen : List Value) (block : BasicBlock)
      → Valid (λ v. mem v seen) block
      → check_block valid all seen block ≡ []
  check_block-Valid seen block w = elim (Option-cases block.terminator) [
    | inl e ↦ absurd (w.terminated e)
    | inr (t, e) ↦
        let ended : check_terminator valid block.id (see_all seen block.instructions) t ≡ [] =
          check_terminator-valid valid block.id (see_all seen block.instructions)
            (λ v. mem v seen || defined_in v block.instructions)
            (λ v. mem-see_all v seen block.instructions) t (w.end t e) in
        Parts-check_block seen block (record {
          first = rw e refl;
          forth = (check_successors-nil_iff valid block.id block.successors).1 w.successors;
          back = (check_predecessors-nil_iff valid block.id block.predecessors).1 w.predecessors;
          inside = check_instrs-Valid all block seen block.instructions w.instrs;
          last = rw e ended;
        })
  ]

  -- What is known may be said in another way.
  known-Valid :
      (known other : Value → Bool) (block : BasicBlock)
      → ((v : Value) → known v ≡ other v)
      → Valid known block
      → Valid other block
  known-Valid known other block k w = record {
    terminated = w.terminated;
    successors = w.successors;
    predecessors = w.predecessors;
    instrs = λ before after i h.
        let o = w.instrs before after i h in
        record { uses = λ v p. ground (arith, k v, o.uses v); inputs = o.inputs };
    end = λ t h.
        let o = w.end t h in
        record { uses = λ v p. ground (arith, k v, o.uses v); jumps = o.jumps };
  }

  -- Every block is valid behind those that stand before it.
  abbrev pub AllBlocks : (Value → Bool) → List BasicBlock → Type 0
  AllBlocks known blocks =
      (before after : List BasicBlock) (block : BasicBlock)
      → blocks ≡ before ++ block ∷ after
      → Valid (λ v. known v || defined_in_blocks v before) block

  check_blocks-nil :
      (seen : List Value) (blocks : List BasicBlock)
      → check_blocks valid all seen blocks ≡ []
      → AllBlocks (λ v. mem v seen) blocks
  unfolding check_blocks
  check_blocks-nil seen [] e [] after b h = cc
  check_blocks-nil seen [] e (j ∷ before) after b h = cc
  check_blocks-nil seen (block ∷ blocks) e [] after b h =
      let (here, rest) = append-nil_both (check_block valid all seen block) _ e in
      let same : block ≡ b = ground arith in
      known-Valid (λ v. mem v seen) (λ v. mem v seen || false) b (λ v. ground arith)
        (check_block-nil seen b (rw (← same) here))
  check_blocks-nil seen (block ∷ blocks) e (j ∷ before) after b h =
      let (here, rest) = append-nil_both (check_block valid all seen block) _ e in
      let same : block ≡ j = ground arith in
      let tail : blocks ≡ before ++ b ∷ after = ground arith in
      let seen' = see_all seen block.instructions in
      rw (← same) (
        known-Valid (λ v. mem v seen' || defined_in_blocks v before)
          (λ v. mem v seen || (defined_in v block.instructions || defined_in_blocks v before)) b
          (λ v. ground (arith, mem-see_all v seen block.instructions))
          (check_blocks-nil seen' blocks rest before after b tail))

  check_blocks-valid :
      (seen : List Value) (blocks : List BasicBlock)
      → AllBlocks (λ v. mem v seen) blocks
      → check_blocks valid all seen blocks ≡ []
  unfolding check_blocks
  check_blocks-valid seen [] w = refl
  check_blocks-valid seen (block ∷ blocks) w =
      let seen' = see_all seen block.instructions in
      both-append_nil (check_block valid all seen block) _
        (check_block-Valid seen block (
          known-Valid (λ v. mem v seen || false) (λ v. mem v seen) block (λ v. ground arith)
            (w [] blocks block refl)))
        (check_blocks-valid seen' blocks (λ before after b h.
          known-Valid
            (λ v. mem v seen || (defined_in v block.instructions || defined_in_blocks v before))
            (λ v. mem v seen' || defined_in_blocks v before) b
            (λ v. ground (arith, mem-see_all v seen block.instructions))
            (w (block ∷ before) after b (ground arith))))

-- The values of the function may be said in another way.
all-BlockIsValid :
    (valid : List BlockId) (all other known : Value → Bool) (block : BasicBlock)
    → ((v : Value) → all v ≡ other v)
    → BlockIsValid valid all known block
    → BlockIsValid valid other known block
all-BlockIsValid valid all other known block k w = record {
  terminated = w.terminated;
  successors = w.successors;
  predecessors = w.predecessors;
  instrs = λ before after i h.
      let o = w.instrs before after i h in
      record { uses = o.uses; inputs = λ v p q. ground (arith, k v, o.inputs v p q) };
  end = w.end;
}

-- `validate_function` reports no error if and only if the function is extern, or every value in it
-- is a parameter or defined before its use in the order of the blocks (at a phi: defined
-- anywhere), every phi input comes from a predecessor, every block has a terminator, and every edge
-- leads to a block of the function.
pub validate_function-IsValid_iff :
    (function : IrFunction)
    → (validate_function function ≡ []) ↔ ((function.is_extern ≡ false) → IsValid function)
unfolding validate_function
validate_function-IsValid_iff function =
    let blocks = function.blocks in
    let params = keys function.params in
    let all = see_blocks params blocks in
    let spec : Value → Bool = λ v. mem v params || defined_in_blocks v blocks in
    elim (Bool-cases function.is_extern) [
      | inl e ↦ (λ h f. cc, λ h. rw e refl)
      | inr e ↦ (
        λ h f. record {
          blocks = λ before after b q.
              all-BlockIsValid (ids blocks) (λ v. mem v all) spec
                (λ v. mem v params || defined_in_blocks v before) b
                (λ v. mem-see_blocks v params blocks)
                (check_blocks-nil (ids blocks) all params blocks (rw e at h) before after b q);
        },
        λ h. rw e (
            check_blocks-valid (ids blocks) all params blocks (λ before after b q.
              all-BlockIsValid (ids blocks) spec (λ v. mem v all)
                (λ v. mem v params || defined_in_blocks v before) b
                (λ v. sym (mem-see_blocks v params blocks)) ((h e).blocks before after b q))),
      )
    ]
