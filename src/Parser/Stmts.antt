-- ===== src/Parser/Stmts.antt =====
-- crates/parser/src/stmt.rs: the parser of statements and blocks, and `parse_let_decl` of decl.rs.
pub mod Goes
pub mod Total
pub mod Recovery
use thagore.Base.{
  ℕ, zero, suc, ◌+◌, ◌*◌, Bool, true, false, ◌&&◌, ◌||◌, List, Option, none, some, if◌then◌else◌,
  length, ◌>>=◌,
}
use thagore.Ast.{Expr}
use thagore.Ast
use thagore.Ast.Types.{TypeExpr}
use thagore.Ast.Stmts.{LetDecl, Stmt, Stmts, Block, Blocks, block_span, stmt_span}
use thagore.Lexer.Keywords.{codes}
use thagore.Lexer.Source.{Bytes}
use thagore.Lexer.Token.{Span, Token, TokenKind, join}
use thagore.Parser.Kinds.{kind_is}
use thagore.Parser.{
  Parser, ParseError, ErrorKind, ConditionDelimiter, Expectation, peek, advance, at, current_span,
  emit_statement_error, emit_unexpected, emit_missing, begin_statement, skip_newlines,
  synchronize_statement, consume_lexer_error_at_cursor, token_is_contextual,
  parse_identifier_symbol,
}
use thagore.Parser.Pratt.{parse_expr}
use thagore.Parser.Types.{alloc_node, parse_type_expr}

-- `if self.at(Newline) { self.skip_newlines() }`
abbrev pub consume_statement_terminator : Parser → Parser
consume_statement_terminator p = if at TokenKind.newline p then skip_newlines p else p

abbrev pub emit_here : ErrorKind → Parser → Parser
emit_here kind p = emit_statement_error (record { span = current_span p; kind = kind }) p

-- `expect_block_colon`
abbrev pub expect_block_colon : Parser → Parser
expect_block_colon p =
    if at TokenKind.colon p then advance p else emit_here ErrorKind.missing_block_colon p

-- A token that should be there.
abbrev pub take_or_miss : TokenKind → Parser → Parser
take_or_miss kind p = if at kind p then advance p else emit_missing kind p

-- A token kind at which `enter_indented_section_for` does not synchronize.
abbrev pub ends_section : TokenKind → Bool
ends_section TokenKind.newline = true
ends_section TokenKind.dedent = true
ends_section TokenKind.eof = true
ends_section _ = false

unfoldable pub enter_indented_section_for : Expectation → Parser → Bool × Parser
enter_indented_section_for expectation p =
    let q = skip_newlines p in
    if at TokenKind.indent q then (true, advance q) else (
      false,
      if ends_section (peek q).kind
          then emit_unexpected expectation q
          else synchronize_statement (emit_unexpected expectation q),
    )

abbrev pub is_expression_start : TokenKind → Bool
is_expression_start TokenKind.identifier = true
is_expression_start TokenKind.kw_from = true
is_expression_start TokenKind.kw_include = true
is_expression_start TokenKind.integer = true
is_expression_start TokenKind.float = true
is_expression_start TokenKind.string = true
is_expression_start TokenKind.minus = true
is_expression_start TokenKind.l_paren = true
is_expression_start _ = false

-- The parser of a nested block.
abbrev pub BlockParser : Type 0
BlockParser = Expectation → Parser → Option (Block × Parser)

module _ (source : Bytes) where
  -- `parse_expr(0)`, with fuel for every token
  unfoldable pub parse_expression : Parser → Option (Expr × Parser)
  parse_expression p = parse_expr source (2 * length p.ahead + 2) 0 p

  -- `: T`, or none
  unfoldable pub parse_annotation : TokenKind → Parser → Option (Option TypeExpr × Parser)
  parse_annotation kind p = elim (at kind p) [
    | true ↦ do (ty, p) ← parse_type_expr source (advance p); some (some ty, p)
    | false ↦ some (none, p)
  ]

  unfoldable pub parse_let_decl : Parser → Option (LetDecl × Parser)
  parse_let_decl p = do
    (name, q) ← some (parse_identifier_symbol source Expectation.identifier (advance p))
    (ty, q) ← parse_annotation TokenKind.colon q
    (initializer, q) ← parse_expression (take_or_miss TokenKind.assign q)
    some (
        alloc_node
          (λ i. record {
            id = i;
            span = join (current_span p) (Ast.span initializer);
            name = name;
            ty = ty;
            initializer = initializer;
          })
          q)

  abbrev pub condition_error : ConditionDelimiter → ErrorKind
  condition_error delimiter = ErrorKind.missing_condition_delimiter delimiter

  abbrev pub open_condition : Parser → Parser
  open_condition p =
      if at TokenKind.l_paren p
      then advance p
      else emit_here (condition_error ConditionDelimiter.open_paren) p

  abbrev pub close_condition : Parser → Parser
  close_condition p =
      if at TokenKind.r_paren p
      then advance p
      else emit_here (condition_error ConditionDelimiter.close_paren) p

  unfoldable pub parse_condition_expr : Parser → Option (Expr × Parser)
  parse_condition_expr p = do
    (condition, p) ← parse_expression (open_condition p)
    some (condition, close_condition p)

  -- The `else` of an `if`, and the span that the statement ends with.
  unfoldable pub parse_else : BlockParser → Block → Parser → Option ((Blocks × Span) × Parser)
  parse_else block then_block p = elim (at TokenKind.kw_else p) [
    | true ↦ do
      (b, p) ← block Expectation.else_body (expect_block_colon (advance p))
      some ((Blocks.one b, block_span b), p)
    | false ↦ some ((Blocks.no_block, block_span then_block), p)
  ]

  unfoldable pub parse_if_stmt : BlockParser → Parser → Option (Stmt × Parser)
  parse_if_stmt block p = do
    (condition, q) ← parse_condition_expr (advance p)
    (then_block, q) ← block Expectation.if_body (expect_block_colon q)
    ((else_block, end), q) ← parse_else block then_block q
    some (
        alloc_node (λ i. Stmt.if_stmt i (join (current_span p) end) condition then_block else_block)
          q)

  unfoldable pub parse_while_stmt : BlockParser → Parser → Option (Stmt × Parser)
  parse_while_stmt block p = do
    (condition, q) ← parse_condition_expr (advance p)
    (body, q) ← block Expectation.while_body (expect_block_colon q)
    some (
        alloc_node (λ i. Stmt.while_stmt i (join (current_span p) (block_span body)) condition body)
          q)

  -- The contextual `in`
  abbrev pub expect_in : Parser → Parser
  expect_in p =
      if token_is_contextual source (peek p) (codes "in")
      then advance p
      else emit_unexpected (Expectation.token TokenKind.identifier) p

  unfoldable pub parse_for_stmt : BlockParser → Parser → Option (Stmt × Parser)
  parse_for_stmt block p = do
    (binding, q) ← some (parse_identifier_symbol source Expectation.identifier (advance p))
    (iterator, q) ← parse_expression (expect_in q)
    (body, q) ← block Expectation.for_body (expect_block_colon q)
    some (
        alloc_node
          (λ i. Stmt.for_stmt i (join (current_span p) (block_span body)) binding iterator body) q)

  unfoldable pub parse_return_stmt : Parser → Option (Stmt × Parser)
  parse_return_stmt p =
      let q = advance p in
      elim (at TokenKind.newline q || at TokenKind.dedent q || at TokenKind.eof q) [
        | true ↦
            some
              (alloc_node (λ i. Stmt.return_stmt i (join (current_span p) (current_span p)) none) q)
        | false ↦ do
          (value, q) ← parse_expression q
          some (
              alloc_node
                (λ i. Stmt.return_stmt i (join (current_span p) (Ast.span value)) (some value)) q)
      ]

  unfoldable pub parse_expr_stmt : Parser → Option (Stmt × Parser)
  parse_expr_stmt p = do
    (e, q) ← parse_expression p
    some (alloc_node (λ i. Stmt.expr i (Ast.span e) e) q)

  abbrev pub some_stmt : Stmt × Parser → Option (Option Stmt × Parser)
  some_stmt (s, p) = some (some s, p)

  abbrev pub let_stmt : LetDecl × Parser → Option (Option Stmt × Parser)
  let_stmt (d, p) = some (some (Stmt.let_decl d), p)

  -- A statement that starts with no keyword.
  unfoldable pub parse_plain_stmt : Parser → Option (Option Stmt × Parser)
  parse_plain_stmt p = elim (token_is_contextual source (peek p) (codes "break")) [
    | true ↦ some_stmt (alloc_node (λ i. Stmt.break_stmt i (current_span p)) (advance p))
    | false ↦ elim (token_is_contextual source (peek p) (codes "continue")) [
      | true ↦ some_stmt (alloc_node (λ i. Stmt.continue_stmt i (current_span p)) (advance p))
      | false ↦ elim (is_expression_start (peek p).kind) [
        | true ↦ parse_expr_stmt p >>= some_stmt
        | false ↦ some (none, emit_unexpected Expectation.statement p)
      ]
    ]
  ]

  -- The match of `parse_stmt` on the kind of the token.
  unfoldable pub stmt_of : BlockParser → TokenKind → Parser → Option (Option Stmt × Parser)
  stmt_of block TokenKind.kw_let p = parse_let_decl p >>= let_stmt
  stmt_of block TokenKind.kw_if p = parse_if_stmt block p >>= some_stmt
  stmt_of block TokenKind.kw_while p = parse_while_stmt block p >>= some_stmt
  stmt_of block TokenKind.kw_for p = parse_for_stmt block p >>= some_stmt
  stmt_of block TokenKind.kw_return p = parse_return_stmt p >>= some_stmt
  stmt_of block kind p = parse_plain_stmt p

  unfoldable pub parse_stmt : BlockParser → Parser → Option (Option Stmt × Parser)
  parse_stmt block p =
      let (was_error, q) = consume_lexer_error_at_cursor p in
      elim was_error [ true ↦ some (none, q) | false ↦ stmt_of block (peek p).kind p ]

  -- What the loop of a block does behind a statement.
  abbrev pub after_stmt : Option Stmt → Parser → Parser
  after_stmt (some s) p = consume_statement_terminator (begin_statement p)
  after_stmt none p = consume_statement_terminator (begin_statement (synchronize_statement p))

  abbrev pub end_of : Option Stmt → Span → Span
  end_of none end = end
  end_of (some s) end = stmt_span s

  abbrev pub add_stmt : Option Stmt → (Stmts × Span) × Parser → (Stmts × Span) × Parser
  add_stmt none r = r
  add_stmt (some s) ((statements, end), p) = ((Stmts.more s statements, end), p)

  -- The loop of `parse_block_for`, at most `count` rounds.
  unfoldable pub parse_stmts : BlockParser → ℕ → Span → Parser → Option ((Stmts × Span) × Parser)
  parse_stmts block zero end p = none
  parse_stmts block (suc count) end p =
      let q = skip_newlines p in
      elim (at TokenKind.dedent q || at TokenKind.eof q) [
        | true ↦ some ((Stmts.none, end), q)
        | false ↦ do
          (stmt, r) ← parse_stmt block (begin_statement q)
          statements ← parse_stmts block count (end_of stmt end) (after_stmt stmt r)
          some (add_stmt stmt statements)
      ]

  -- The dedent behind a section.
  abbrev pub close_section : Span → Parser → Span × Parser
  close_section end p =
      if at TokenKind.dedent p
      then (join end (current_span p), advance p)
      else (end, if at TokenKind.eof p then p else emit_here ErrorKind.missing_dedent p)

  abbrev pub finish_block : Span → (Stmts × Span) × Parser → Block × Parser
  finish_block start ((statements, end), p) =
      let (end, q) = close_section end p in
      alloc_node (λ i. Block.block i (join start end) statements) q

  unfoldable pub parse_block_with : ℕ → Expectation → Parser → Option (Block × Parser)
  parse_block_with zero expectation p = none
  parse_block_with (suc fuel) expectation p =
      let (entered, q) = enter_indented_section_for expectation p in
      elim entered [
        | false ↦ some (alloc_node (λ i. Block.block i (current_span p) Stmts.none) q)
        | true ↦ do
          statements ← parse_stmts (parse_block_with fuel) (suc (length q.ahead)) (current_span p) q
          some (finish_block (current_span p) statements)
      ]

  -- `parse_block_for`, with a step for each token and one more
  unfoldable pub parse_block_for : Expectation → Parser → Option (Block × Parser)
  parse_block_for expectation p = parse_block_with (suc (length p.ahead)) expectation p
