-- ===== src/Ast.antt =====
-- crates/ast/src: the expressions (expr.rs) that the parser builds. An `i64` stands for its bits and an `f64`
-- for the text that is read as one; a reference into the arena is the node it leads to.
pub mod Types
pub mod Stmts
pub mod Decls
use thagore.Base.{ℕ, Bool, Option}
use thagore.Lexer.Source.{Bytes}
use thagore.Lexer.Token.{Span}

-- `NodeId(u32)` and `InternedStr(u32)` of node.rs
abbrev pub NodeId : Type 0
NodeId = ℕ

abbrev pub InternedStr : Type 0
InternedStr = ℕ

pub data Literal : Type 0 where
  int : ℕ → Literal
  float : Option Bytes → Literal
  bool : Bool → Literal
  str : InternedStr → Literal

pub data BinOp : Type 0 where
  or and add sub mul div rem eq not_eq lt lt_eq gt gt_eq : BinOp

pub data UnaryOp : Type 0 where
  plus neg not : UnaryOp

mutual
  pub data Expr : Type 0 where
    binary : NodeId → Span → (left : Expr) → BinOp → (right : Expr) → Expr
    unary : NodeId → Span → UnaryOp → (operand : Expr) → Expr
    call : NodeId → Span → (callee : Expr) → (args : Exprs) → Expr
    field_access : NodeId → Span → (object : Expr) → (field : InternedStr) → Expr
    index : NodeId → Span → (object place : Expr) → Expr
    ident : NodeId → Span → (name : InternedStr) → Expr
    literal : NodeId → Span → Literal → Expr
    assign : NodeId → Span → (target value : Expr) → Expr

  -- `AstSlice<ExprRef>`
  pub data Exprs : Type 0 where
    none : Exprs
    more : Expr → Exprs → Exprs

abbrev pub id : Expr → NodeId
id (Expr.binary i s l op r) = i
id (Expr.unary i s op e) = i
id (Expr.call i s c args) = i
id (Expr.field_access i s o f) = i
id (Expr.index i s o p) = i
id (Expr.ident i s n) = i
id (Expr.literal i s l) = i
id (Expr.assign i s t v) = i

abbrev pub span : Expr → Span
span (Expr.binary i s l op r) = s
span (Expr.unary i s op e) = s
span (Expr.call i s c args) = s
span (Expr.field_access i s o f) = s
span (Expr.index i s o p) = s
span (Expr.ident i s n) = s
span (Expr.literal i s l) = s
span (Expr.assign i s t v) = s
