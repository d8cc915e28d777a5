-- ===== src/Ir/Validate/Valid.antt =====
-- What the validation of crates/ir/src/validate.rs demands, stated without its loops, and the values
-- that its loops have seen.
use thagore.Base.Maps.{mem, keys}
use thagore.Base.{
  ◌==◌, ◌≡◌, ◌≢◌, ◌||◌, ◌&&◌, Bool, true, false, List, [], ◌∷◌, ◌++◌, none, some, map, arith,
}
use thagore.Ir.{Value, BlockId, Instr, defined_value, Terminator, BasicBlock, IrFunction}
use thagore.Ir.Validate.{see, see_all, see_blocks}

-- The values that an instruction reads where it stands; those of a phi are read at the end of a
-- predecessor.
abbrev pub operands : Instr → List Value
operands (Instr.const value c) = []
operands (Instr.bin_op value op left right) = left ∷ right ∷ []
operands (Instr.un_op value op operand) = operand ∷ []
operands (Instr.call value name args) = args
operands (Instr.get_field value object field) = object ∷ []
operands (Instr.set_field slot field operand) = slot ∷ operand ∷ []
operands (Instr.index value object i) = object ∷ i ∷ []
operands (Instr.alloc value type) = []
operands (Instr.load value operand) = operand ∷ []
operands (Instr.store slot operand) = slot ∷ operand ∷ []
operands (Instr.phi value inputs) = []

abbrev pub phi_inputs : Instr → List (Value × BlockId)
phi_inputs (Instr.phi value inputs) = inputs
phi_inputs _ = []

abbrev pub has_input : Value → BlockId → List (Value × BlockId) → Bool
has_input v p [] = false
has_input v p ((w, q) ∷ inputs) = (w == v && q == p) || has_input v p inputs

abbrev pub condition_of : Terminator → List Value
condition_of (Terminator.return (some value)) = value ∷ []
condition_of (Terminator.branch condition then_block else_block) = condition ∷ []
condition_of _ = []

abbrev pub targets : Terminator → List BlockId
targets (Terminator.jump target) = target ∷ []
targets (Terminator.branch condition then_block else_block) = then_block ∷ else_block ∷ []
targets _ = []

abbrev pub defines : Value → Instr → Bool
defines v instr = elim (defined_value instr) [ none ↦ false | some w ↦ w == v ]

-- Whether one of the instructions, or an instruction of one of the blocks, defines a value.
abbrev pub defined_in : Value → List Instr → Bool
defined_in v [] = false
defined_in v (instr ∷ instrs) = defines v instr || defined_in v instrs

abbrev pub defined_in_blocks : Value → List BasicBlock → Bool
defined_in_blocks v [] = false
defined_in_blocks v (block ∷ blocks) = defined_in v block.instructions || defined_in_blocks v blocks

-- `all` are the values of the function and `known` those defined before the instruction.
pub record InstrIsValid (all known : Value → Bool) (block : BasicBlock) (instr : Instr)
    : Type 0 where
  pub uses : (v : Value) → mem v (operands instr) ≡ true → known v ≡ true
  pub inputs :
      (v : Value) (p : BlockId)
      → has_input v p (phi_inputs instr) ≡ true
      → (all v ≡ true) × (mem p block.predecessors ≡ true)

pub record TerminatorIsValid (valid : List BlockId) (known : Value → Bool) (terminator : Terminator)
    : Type 0 where
  pub uses : (v : Value) → mem v (condition_of terminator) ≡ true → known v ≡ true
  pub jumps : (b : BlockId) → mem b (targets terminator) ≡ true → mem b valid ≡ true

-- The blocks of the function are `valid`, and `known` are the values defined before the block.
pub record BlockIsValid (valid : List BlockId) (all known : Value → Bool) (block : BasicBlock)
    : Type 0 where
  pub terminated : block.terminator ≢ none
  pub successors : (b : BlockId) → mem b block.successors ≡ true → mem b valid ≡ true
  pub predecessors : (b : BlockId) → mem b block.predecessors ≡ true → mem b valid ≡ true
  pub instrs :
      (before after : List Instr) (instr : Instr)
      → block.instructions ≡ before ++ instr ∷ after
      → InstrIsValid all (λ v. known v || defined_in v before) block instr
  pub end :
      (terminator : Terminator)
      → block.terminator ≡ some terminator
      → TerminatorIsValid valid (λ v. known v || defined_in v block.instructions) terminator

abbrev pub ids : List BasicBlock → List BlockId
ids blocks = map (λ block. block.id) blocks

-- A function in which every value is a parameter or defined before it is used, in the order of the
-- blocks, and every edge leads to a block of the function.
pub record IsValid (function : IrFunction) : Type 0 where
  pub blocks :
      (before after : List BasicBlock) (block : BasicBlock)
      → function.blocks ≡ before ++ block ∷ after
      → BlockIsValid
          (ids function.blocks)
          (λ v. mem v (keys function.params) || defined_in_blocks v function.blocks)
          (λ v. mem v (keys function.params) || defined_in_blocks v before)
          block

pub mem-see_all :
    (v : Value) (seen : List Value) (instrs : List Instr)
    → mem v (see_all seen instrs) ≡ (mem v seen || defined_in v instrs)
mem-see_all v seen [] = ground arith
mem-see_all v seen (instr ∷ instrs) = ground (arith, mem-see_all v (see seen instr) instrs)

pub mem-see_blocks :
    (v : Value) (seen : List Value) (blocks : List BasicBlock)
    → mem v (see_blocks seen blocks) ≡ (mem v seen || defined_in_blocks v blocks)
mem-see_blocks v seen [] = ground arith
mem-see_blocks v seen (block ∷ blocks) = ground (
  arith,
  mem-see_blocks v (see_all seen block.instructions) blocks,
  mem-see_all v seen block.instructions,
)
