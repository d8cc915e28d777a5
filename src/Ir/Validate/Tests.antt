-- ===== src/Ir/Validate/Tests.antt =====
-- A function that adds one, and one that uses a value before its definition.
use thagore.Base.{◌≡◌, ◌↔◌, refl, false, List, [], ◌∷◌, some}
use thagore.Ir.{Instr, Const, BinOp, Terminator, IrFunction, LoweringError}
use thagore.Ir.Validate.Blocks.{validate_function-IsValid_iff}
use thagore.Ir.Validate.Valid.{IsValid}
use thagore.Ir.Validate.{
  check_successors, check_predecessors, check_instr, check_instrs, check_terminator, check_block,
  check_blocks, validate_function,
}

abbrev function_of : List Instr → IrFunction
function_of instrs = record {
  name = 0;
  params = (0, 2) ∷ [];
  return_type = 2;
  blocks =
      record {
        id = 0;
        instructions = instrs;
        terminator = some (Terminator.return (some 2));
        successors = [];
        predecessors = [];
      }
      ∷ [];
  entry = 0;
  value_types = 2 ∷ 2 ∷ 2 ∷ [];
  is_extern = false;
}

abbrev add_one : IrFunction
add_one = function_of (Instr.const 1 (Const.int 1) ∷ Instr.bin_op 2 BinOp.add 0 1 ∷ [])

abbrev add_late : IrFunction
add_late = function_of (Instr.bin_op 2 BinOp.add 0 1 ∷ Instr.const 1 (Const.int 1) ∷ [])

validate_add_one : validate_function add_one ≡ []
unfolding validate_function check_blocks check_block check_instrs check_instr check_terminator
    check_predecessors check_successors
validate_add_one = refl

validate_add_late : validate_function add_late ≡ LoweringError.undefined_value 1 0 ∷ []
unfolding validate_function check_blocks check_block check_instrs check_instr check_terminator
    check_predecessors check_successors
validate_add_late = refl

validate_function-IsValid_iff_example :
    (validate_function add_one ≡ []) ↔ ((add_one.is_extern ≡ false) → IsValid add_one)
validate_function-IsValid_iff_example = validate_function-IsValid_iff add_one
