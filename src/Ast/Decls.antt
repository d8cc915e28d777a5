-- ===== src/Ast/Decls.antt =====
-- crates/ast/src/decl.rs: declarations.
use thagore.Base.{ℕ, Bool, List, Option}
use thagore.Ast.{NodeId, InternedStr, Expr}
use thagore.Ast.Types.{TypeExpr, TypeParam}
use thagore.Ast.Stmts.{Block, LetDecl}
use thagore.Lexer.Token.{Span}

pub record Param : Type 0 where
  pub id : NodeId
  pub span : Span
  pub name : InternedStr
  pub ty : TypeExpr

pub record FieldDef : Type 0 where
  pub id : NodeId
  pub span : Span
  pub name : InternedStr
  pub ty : TypeExpr

pub record FuncDecl : Type 0 where
  pub id : NodeId
  pub span : Span
  pub name : InternedStr
  pub params : List Param
  pub return_type : Option TypeExpr
  pub body : Block

pub record ConstDecl : Type 0 where
  pub id : NodeId
  pub span : Span
  pub name : InternedStr
  pub type_ann : TypeExpr
  pub value : Expr

pub record StructDecl : Type 0 where
  pub id : NodeId
  pub span : Span
  pub name : InternedStr
  pub fields : List FieldDef

pub record ImplBlock : Type 0 where
  pub id : NodeId
  pub span : Span
  pub target : InternedStr
  pub methods : List FuncDecl

pub record ImportSymbol : Type 0 where
  pub id : NodeId
  pub span : Span
  pub name : InternedStr
  pub alias : Option InternedStr

pub record ImportDecl : Type 0 where
  pub id : NodeId
  pub span : Span
  pub relative_level : ℕ
  pub path_segments : List InternedStr
  pub symbols : List ImportSymbol
  pub is_from : Bool
  pub include_all : Bool
  pub alias : Option InternedStr

pub record ExternDecl : Type 0 where
  pub id : NodeId
  pub span : Span
  pub name : InternedStr
  pub params : List Param
  pub return_type : TypeExpr

pub record IntentDecl : Type 0 where
  pub id : NodeId
  pub span : Span
  pub name : InternedStr
  pub constraints : List Expr
  pub body : Block

pub record FlowStage : Type 0 where
  pub id : NodeId
  pub span : Span
  pub name : InternedStr
  pub body : Block

pub record FlowDecl : Type 0 where
  pub id : NodeId
  pub span : Span
  pub name : InternedStr
  pub stages : List FlowStage
  pub compensation : Option Block

-- A generic declaration is the plain one and its type parameters.
pub data Decl : Type 0 where
  func : FuncDecl → Decl
  generic_func : List TypeParam → FuncDecl → Decl
  let_decl : LetDecl → Decl
  const_decl : ConstDecl → Decl
  struct : StructDecl → Decl
  generic_struct : List TypeParam → StructDecl → Decl
  impl_block : ImplBlock → Decl
  generic_impl : List TypeParam → ImplBlock → Decl
  import_decl : ImportDecl → Decl
  extern_decl : ExternDecl → Decl
  intent : IntentDecl → Decl
  flow : FlowDecl → Decl
