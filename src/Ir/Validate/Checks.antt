-- ===== src/Ir/Validate/Checks.antt =====
-- The checks of one instruction, of a list of edges and of a terminator (crates/ir/src/validate.rs) pass
-- where, and only where, these are valid.
use thagore.Base.Maps.{mem}
use thagore.Base.{◌≡◌, ◌↔◌, refl, ◌∙◌, Bool, true, List, [], ◌∷◌, none, some, arith}
use thagore.Ir.{Value, BlockId, Instr, Terminator, BasicBlock}
use thagore.Ir.Validate.{
  require_all, check_successors, check_predecessors, check_inputs, check_instr, check_terminator,
}
use thagore.Ir.Validate.Valid.{has_input, InstrIsValid, TerminatorIsValid}

require_all-nil_iff :
    (seen values : List Value) (block : BlockId)
    → (require_all seen values block ≡ []) ↔ ((v : Value) → mem v values ≡ true → mem v seen ≡ true)
unfolding require_all
require_all-nil_iff seen [] block = (λ e v h. cc, λ h. refl)
require_all-nil_iff seen (value ∷ values) block =
    let (to, from) = require_all-nil_iff seen values block in
    (
      λ e v h. ground (arith, λ (p : require_all seen values block ≡ []). to p v),
      λ h. ground (arith, h value, from (λ v m. h v (ground arith))),
    )

check_inputs-nil_iff :
    (all : List Value) (block : BasicBlock) (inputs : List (Value × BlockId))
    → (check_inputs all block inputs ≡ []) ↔ (
        (v : Value) (p : BlockId)
        → has_input v p inputs ≡ true
        → (mem v all ≡ true) × (mem p block.predecessors ≡ true))
unfolding check_inputs
check_inputs-nil_iff all block [] = (λ e v p h. cc, λ h. refl)
check_inputs-nil_iff all block ((incoming, predecessor) ∷ inputs) =
    let (to, from) = check_inputs-nil_iff all block inputs in
    (
      λ e v p h. ground (arith, λ (q : check_inputs all block inputs ≡ []). to q v p),
      λ h. ground (arith, h incoming predecessor, from (λ v p m. h v p (ground arith))),
    )

pub check_successors-nil_iff :
    (valid : List BlockId) (id : BlockId) (edges : List BlockId)
    → (check_successors valid id edges ≡ [])
      ↔ ((b : BlockId) → mem b edges ≡ true → mem b valid ≡ true)
unfolding check_successors
check_successors-nil_iff valid id [] = (λ e v h. cc, λ h. refl)
check_successors-nil_iff valid id (edge ∷ edges) =
    let (to, from) = check_successors-nil_iff valid id edges in
    (
      λ e v h. ground (arith, λ (p : check_successors valid id edges ≡ []). to p v),
      λ h. ground (arith, h edge, from (λ v m. h v (ground arith))),
    )

pub check_predecessors-nil_iff :
    (valid : List BlockId) (id : BlockId) (edges : List BlockId)
    → (check_predecessors valid id edges ≡ [])
      ↔ ((b : BlockId) → mem b edges ≡ true → mem b valid ≡ true)
unfolding check_predecessors
check_predecessors-nil_iff valid id [] = (λ e v h. cc, λ h. refl)
check_predecessors-nil_iff valid id (edge ∷ edges) =
    let (to, from) = check_predecessors-nil_iff valid id edges in
    (
      λ e v h. ground (arith, λ (p : check_predecessors valid id edges ≡ []). to p v),
      λ h. ground (arith, h edge, from (λ v m. h v (ground arith))),
    )

module _ (all seen : List Value) (known : Value → Bool) (k : (v : Value) → mem v seen ≡ known v)
    (block : BasicBlock) where
  -- The checks of an instruction pass where the instruction is valid.
  pub check_instr-nil :
      (instr : Instr)
      → check_instr all block seen instr ≡ []
      → InstrIsValid (λ v. mem v all) known block instr
  unfolding check_instr
  check_instr-nil (Instr.call value name args) e = record {
    uses = λ v h. ground (arith, k v, (require_all-nil_iff seen args block.id).0 e v);
    inputs = λ v p h. cc;
  }
  check_instr-nil (Instr.phi value inputs) e = record {
    uses = λ v h. cc;
    inputs = (check_inputs-nil_iff all block inputs).0 e;
  }
  check_instr-nil _ e = record { uses = λ v h. ground (arith, k v); inputs = λ v p h. ground arith }

  pub check_instr-valid :
      (instr : Instr)
      → InstrIsValid (λ v. mem v all) known block instr
      → check_instr all block seen instr ≡ []
  unfolding check_instr
  check_instr-valid (Instr.const value c) w = refl
  check_instr-valid (Instr.alloc value type) w = refl
  check_instr-valid (Instr.bin_op value op left right) w =
      ground (arith, k left, k right, w.uses left, w.uses right)
  check_instr-valid (Instr.un_op value op operand) w = ground (arith, k operand, w.uses operand)
  check_instr-valid (Instr.load value operand) w = ground (arith, k operand, w.uses operand)
  check_instr-valid (Instr.store slot operand) w =
      ground (arith, k operand, k slot, w.uses operand, w.uses slot)
  check_instr-valid (Instr.set_field slot field operand) w =
      ground (arith, k operand, k slot, w.uses operand, w.uses slot)
  check_instr-valid (Instr.call value name args) w =
      (require_all-nil_iff seen args block.id).1 (λ v h. k v ∙ w.uses v h)
  check_instr-valid (Instr.get_field value object field) w = ground (arith, k object, w.uses object)
  check_instr-valid (Instr.index value object i) w =
      ground (arith, k object, k i, w.uses object, w.uses i)
  check_instr-valid (Instr.phi value inputs) w = (check_inputs-nil_iff all block inputs).1 w.inputs

module _ (valid : List BlockId) (id : BlockId) (seen : List Value) (known : Value → Bool)
    (k : (v : Value) → mem v seen ≡ known v) where
  pub check_terminator-nil :
      (terminator : Terminator)
      → check_terminator valid id seen terminator ≡ []
      → TerminatorIsValid valid known terminator
  unfolding check_terminator
  check_terminator-nil terminator e = record {
    uses = λ v h. ground (arith, k v);
    jumps = λ b h. ground arith;
  }

  pub check_terminator-valid :
      (terminator : Terminator)
      → TerminatorIsValid valid known terminator
      → check_terminator valid id seen terminator ≡ []
  unfolding check_terminator
  check_terminator-valid (Terminator.return none) w = refl
  check_terminator-valid (Terminator.return (some value)) w = ground (arith, k value, w.uses value)
  check_terminator-valid (Terminator.jump target) w = ground (arith, w.jumps target)
  check_terminator-valid (Terminator.branch condition then_block else_block) w =
      ground (arith, k condition, w.uses condition, w.jumps then_block, w.jumps else_block)
  check_terminator-valid Terminator.unreachable w = refl
