-- ===== src/Ast/Types.antt =====
-- crates/ast/src/types.rs: type expressions and the constraints of type parameters.
use thagore.Base.{List}
use thagore.Ast.{NodeId, InternedStr}
use thagore.Lexer.Token.{Span}

mutual
  pub data TypeExpr : Type 0 where
    named : NodeId → Span → (name : InternedStr) → TypeExpr
    generic : NodeId → Span → (name : InternedStr) → (args : TypeExprs) → TypeExpr
    infer : NodeId → Span → TypeExpr

  -- `AstSlice<TypeExprRef>`
  pub data TypeExprs : Type 0 where
    none : TypeExprs
    more : TypeExpr → TypeExprs → TypeExprs

abbrev pub type_span : TypeExpr → Span
type_span (TypeExpr.named i s n) = s
type_span (TypeExpr.generic i s n args) = s
type_span (TypeExpr.infer i s) = s

pub data ConstraintKind : Type 0 where
  ordered eq numeric : ConstraintKind

pub record Constraint : Type 0 where
  pub id : NodeId
  pub span : Span
  pub kind : ConstraintKind

pub record TypeParam : Type 0 where
  pub id : NodeId
  pub span : Span
  pub name : InternedStr
  pub constraints : List Constraint
