-- ===== src/Ir/Validate.antt =====
-- crates/ir/src/validate.rs: the validation of lowered functions. The errors that a part pushes are
-- the list that it gives; a `BTreeSet`, which is only asked for members, is the list of what was
-- put in.
pub mod Valid
pub mod Checks
pub mod Instrs
pub mod Blocks
mod Tests
use thagore.Base.Maps.{mem, keys}
use thagore.Base.{ℕ, Bool, true, false, List, [], ◌∷◌, ◌++◌, Option, none, some, if◌then◌else◌, map}
use thagore.Ir.{
  Value, BlockId, Instr, defined_value, Terminator, BasicBlock, IrFunction, IrModule, LoweringError,
}

abbrev pub require_seen : List Value → Value → BlockId → List LoweringError
require_seen seen value block =
    if mem value seen then [] else LoweringError.undefined_value value block ∷ []

-- The loop over the arguments of a call.
pub require_all : List Value → List Value → BlockId → List LoweringError
require_all seen [] block = []
require_all seen (value ∷ values) block =
    require_seen seen value block ++ require_all seen values block

-- The loop over the successors.
pub check_successors : List BlockId → BlockId → List BlockId → List LoweringError
check_successors valid id [] = []
check_successors valid id (successor ∷ successors) =
    (if mem successor valid then [] else LoweringError.invalid_block_edge id successor ∷ [])
    ++ check_successors valid id successors

-- The loop over the predecessors.
pub check_predecessors : List BlockId → BlockId → List BlockId → List LoweringError
check_predecessors valid id [] = []
check_predecessors valid id (predecessor ∷ predecessors) =
    (if mem predecessor valid then [] else LoweringError.invalid_block_edge predecessor id ∷ [])
    ++ check_predecessors valid id predecessors

-- The loop over the inputs of a phi.
pub check_inputs : List Value → BasicBlock → List (Value × BlockId) → List LoweringError
check_inputs all block [] = []
check_inputs all block ((incoming, predecessor) ∷ inputs) =
    (if mem incoming all then [] else LoweringError.undefined_value incoming block.id ∷ [])
    ++ (if mem predecessor block.predecessors
        then []
        else LoweringError.invalid_phi_input block.id predecessor incoming ∷ [])
    ++ check_inputs all block inputs

-- The `match` on an instruction.
pub check_instr : List Value → BasicBlock → List Value → Instr → List LoweringError
check_instr all block seen (Instr.const value c) = []
check_instr all block seen (Instr.alloc value type) = []
check_instr all block seen (Instr.bin_op value op left right) =
    require_seen seen left block.id ++ require_seen seen right block.id
check_instr all block seen (Instr.un_op value op operand) = require_seen seen operand block.id
check_instr all block seen (Instr.load value operand) = require_seen seen operand block.id
check_instr all block seen (Instr.store slot operand) =
    require_seen seen operand block.id ++ require_seen seen slot block.id
check_instr all block seen (Instr.set_field slot field operand) =
    require_seen seen operand block.id ++ require_seen seen slot block.id
check_instr all block seen (Instr.call value name args) = require_all seen args block.id
check_instr all block seen (Instr.get_field value object field) = require_seen seen object block.id
check_instr all block seen (Instr.index value object i) =
    require_seen seen object block.id ++ require_seen seen i block.id
check_instr all block seen (Instr.phi value inputs) = check_inputs all block inputs

-- `seen` behind an instruction.
abbrev pub see : List Value → Instr → List Value
see seen instr = elim (defined_value instr) [ none ↦ seen | some value ↦ value ∷ seen ]

abbrev pub see_all : List Value → List Instr → List Value
see_all seen [] = seen
see_all seen (instr ∷ instrs) = see_all (see seen instr) instrs

-- The loop over the instructions.
pub check_instrs : List Value → BasicBlock → List Value → List Instr → List LoweringError
check_instrs all block seen [] = []
check_instrs all block seen (instr ∷ instrs) =
    check_instr all block seen instr ++ check_instrs all block (see seen instr) instrs

abbrev check_target : List BlockId → BlockId → BlockId → List LoweringError
check_target valid id target =
    if mem target valid then [] else LoweringError.invalid_block_edge id target ∷ []

-- The `match` on a terminator.
pub check_terminator : List BlockId → BlockId → List Value → Terminator → List LoweringError
check_terminator valid id seen (Terminator.return (some value)) = require_seen seen value id
check_terminator valid id seen (Terminator.jump target) = check_target valid id target
check_terminator valid id seen (Terminator.branch condition then_block else_block) =
    require_seen seen condition id
    ++ check_target valid id then_block
    ++ check_target valid id else_block
check_terminator valid id seen (Terminator.return none) = []
check_terminator valid id seen Terminator.unreachable = []

-- The two uses of the optional terminator.
abbrev check_terminated : BasicBlock → List LoweringError
check_terminated block = elim block.terminator [
  | none ↦ LoweringError.missing_terminator block.id ∷ []
  | some terminator ↦ []
]

abbrev check_end : List BlockId → BasicBlock → List Value → List LoweringError
check_end valid block seen = elim block.terminator [
  | none ↦ []
  | some terminator ↦ check_terminator valid block.id seen terminator
]

-- One round of the loop over the blocks.
pub check_block : List BlockId → List Value → List Value → BasicBlock → List LoweringError
check_block valid all seen block =
    check_terminated block
    ++ check_successors valid block.id block.successors
    ++ check_predecessors valid block.id block.predecessors
    ++ check_instrs all block seen block.instructions
    ++ check_end valid block (see_all seen block.instructions)

pub check_blocks : List BlockId → List Value → List Value → List BasicBlock → List LoweringError
check_blocks valid all seen [] = []
check_blocks valid all seen (block ∷ blocks) =
    check_block valid all seen block
    ++ check_blocks valid all (see_all seen block.instructions) blocks

-- The two loops that fill `all_defined`, and the values that a run over all blocks sees.
abbrev pub see_blocks : List Value → List BasicBlock → List Value
see_blocks seen [] = seen
see_blocks seen (block ∷ blocks) = see_blocks (see_all seen block.instructions) blocks

unfoldable pub validate_function : IrFunction → List LoweringError
validate_function function =
    if function.is_extern
    then []
    else check_blocks (map (λ block. block.id) function.blocks)
        (see_blocks (keys function.params) function.blocks) (keys function.params) function.blocks

abbrev validate_all : List IrFunction → List LoweringError
validate_all [] = []
validate_all (function ∷ functions) = validate_function function ++ validate_all functions

unfoldable pub validate_module : IrModule → List LoweringError
validate_module ir = validate_all ir.functions
