-- ===== src/Ast/Stmts.antt =====
-- crates/ast/src/stmt.rs: statements and blocks, and the `let` of decl.rs.
use thagore.Base.{Option}
use thagore.Ast.{NodeId, InternedStr, Expr}
use thagore.Ast.Types.{TypeExpr}
use thagore.Lexer.Token.{Span}

pub record LetDecl : Type 0 where
  pub id : NodeId
  pub span : Span
  pub name : InternedStr
  pub ty : Option TypeExpr
  pub initializer : Expr

mutual
  pub data Stmt : Type 0 where
    let_decl : LetDecl → Stmt
    expr : NodeId → Span → Expr → Stmt
    return_stmt : NodeId → Span → (value : Option Expr) → Stmt
    if_stmt :
        NodeId → Span → (condition : Expr) → (then_block : Block) → (else_block : Blocks) → Stmt
    while_stmt : NodeId → Span → (condition : Expr) → (body : Block) → Stmt
    for_stmt : NodeId → Span → (binding : InternedStr) → (iterator : Expr) → (body : Block) → Stmt
    break_stmt continue_stmt : NodeId → Span → Stmt

  pub data Block : Type 0 where
    block : NodeId → Span → (statements : Stmts) → Block

  -- `AstSlice<Stmt>`
  pub data Stmts : Type 0 where
    none : Stmts
    more : Stmt → Stmts → Stmts

  -- `Option<BlockRef>`
  pub data Blocks : Type 0 where
    no_block : Blocks
    one : Block → Blocks

abbrev pub block_span : Block → Span
block_span (Block.block i s statements) = s

abbrev pub stmt_span : Stmt → Span
stmt_span (Stmt.let_decl d) = d.span
stmt_span (Stmt.expr i s e) = s
stmt_span (Stmt.return_stmt i s v) = s
stmt_span (Stmt.if_stmt i s c t e) = s
stmt_span (Stmt.while_stmt i s c b) = s
stmt_span (Stmt.for_stmt i s x e b) = s
stmt_span (Stmt.break_stmt i s) = s
stmt_span (Stmt.continue_stmt i s) = s
