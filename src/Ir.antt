-- ===== src/Ir.antt =====
-- crates/ir/src: instr.rs, block.rs, module.rs and error.rs, the data of the lowered code.
pub mod Validate
use Prim.Native.String.{String}
use thagore.Base.{ℕ, Bool, List, Option, none, some}

-- `Value(u32)`, `BlockId(u32)`, and the `InternedStr(u32)`, `TypeId(u32)` and `NodeId(u32)` of the
-- other crates.
abbrev pub Value : Type 0
Value = ℕ

abbrev pub BlockId : Type 0
BlockId = ℕ

abbrev pub InternedStr : Type 0
InternedStr = ℕ

abbrev pub TypeId : Type 0
TypeId = ℕ

abbrev pub NodeId : Type 0
NodeId = ℕ

-- An `i64` and an `f64` stand for their 64 bits.
pub data Const : Type 0 where
  int : ℕ → Const
  float : ℕ → Const
  bool : Bool → Const
  str : InternedStr → Const
  unit : Const

pub data BinOp : Type 0 where
  or and add sub mul div rem eq not_eq lt lt_eq gt gt_eq : BinOp

pub data UnOp : Type 0 where
  plus neg not : UnOp

pub data Instr : Type 0 where
  const : Value → Const → Instr
  bin_op : Value → BinOp → Value → Value → Instr
  un_op : Value → UnOp → Value → Instr
  call : Value → InternedStr → List Value → Instr
  get_field : Value → Value → InternedStr → Instr
  set_field : Value → InternedStr → Value → Instr
  index : Value → Value → Value → Instr
  alloc : Value → TypeId → Instr
  load : Value → Value → Instr
  store : Value → Value → Instr
  phi : Value → List (Value × BlockId) → Instr

abbrev pub defined_value : Instr → Option Value
defined_value (Instr.const value c) = some value
defined_value (Instr.bin_op value op left right) = some value
defined_value (Instr.un_op value op operand) = some value
defined_value (Instr.call value name args) = some value
defined_value (Instr.get_field value object field) = some value
defined_value (Instr.index value object i) = some value
defined_value (Instr.alloc value type) = some value
defined_value (Instr.load value slot) = some value
defined_value (Instr.phi value inputs) = some value
defined_value (Instr.set_field slot field operand) = none
defined_value (Instr.store slot operand) = none

pub data Terminator : Type 0 where
  return : Option Value → Terminator
  jump : BlockId → Terminator
  branch : Value → BlockId → BlockId → Terminator
  unreachable : Terminator

pub record BasicBlock : Type 0 where
  pub id : BlockId
  pub instructions : List Instr
  pub terminator : Option Terminator
  pub successors : List BlockId
  pub predecessors : List BlockId

pub record IrFunction : Type 0 where
  pub name : InternedStr
  pub params : List (Value × TypeId)
  pub return_type : TypeId
  pub blocks : List BasicBlock
  pub entry : BlockId
  pub value_types : List TypeId
  pub is_extern : Bool

pub record IrStruct : Type 0 where
  pub name : InternedStr
  pub fields : List (InternedStr × TypeId)

pub record IrModule : Type 0 where
  pub name : InternedStr
  pub functions : List IrFunction
  pub structs : List IrStruct

-- `Span` of crates/ast
pub record SourceSpan : Type 0 where
  pub start : ℕ
  pub end : ℕ

pub data LoweringError : Type 0 where
  unknown_identifier : InternedStr → SourceSpan → LoweringError
  missing_type : NodeId → SourceSpan → LoweringError
  unknown_struct : InternedStr → SourceSpan → LoweringError
  unknown_field : InternedStr → InternedStr → SourceSpan → LoweringError
  not_callable : TypeId → SourceSpan → LoweringError
  not_indexable : TypeId → SourceSpan → LoweringError
  invalid_assignment_target : SourceSpan → LoweringError
  invalid_lowering_state : String → SourceSpan → LoweringError
  missing_terminator : BlockId → LoweringError
  duplicate_terminator : BlockId → LoweringError
  undefined_value : Value → BlockId → LoweringError
  invalid_block_edge : BlockId → BlockId → LoweringError
  invalid_phi_input : BlockId → BlockId → Value → LoweringError
  unknown : SourceSpan → LoweringError
