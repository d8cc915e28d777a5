-- ===== src/Parser/Pratt.antt =====
-- crates/parser/src/expr.rs: the Pratt parser of expressions. `none` stands for a run that the fuel does not
-- reach the end of. A function that parses a part takes the recursive call, `again`.
pub mod Total
pub mod Grammar
pub mod Steps
pub mod Extent
pub mod Rounds
pub mod Agrees
use thagore.Base.{
  ℕ, zero, suc, ◌+◌, Bool, true, false, not, ◌&&◌, ◌||◌, List, [], ◌∷◌, Option, none, some, leb,
  ltb, ◌*◌, ◌-◌, ◌%◌, ◌^◌, ◌==◌, if◌then◌else◌, length, ◌>>=◌,
}
use thagore.Ast.{InternedStr, Expr, Exprs, Literal, BinOp, UnaryOp}
use thagore.Ast
use thagore.Lexer.Keywords.{codes}
use thagore.Lexer.Source.{Bytes}
use thagore.Lexer.Table.{is_digit}
use thagore.Lexer.Token.{Span, Token, TokenKind, join}
use thagore.Parser.Kinds.{kind_is, is_expr_terminator, is_builtin_type, token_can_name_value}
use thagore.Parser.{
  Parser, Names, ErrorKind, Expectation, peek, advance, at, current_span, emit_statement_error,
  emit_unexpected, emit_missing, skip_token, match_kind, skip_soft_layout,
  consume_lexer_error_at_cursor, has_text, token_text, token_is_contextual, intern_token_symbol,
  parse_name_symbol, alloc, synthetic_zero_expr,
}

-- `BindingPower`: the left and the right one
pub record BindingPower : Type 0 where
  pub left : ℕ
  pub right : ℕ

abbrev pub left_assoc : ℕ → BindingPower
left_assoc level = record { left = level; right = level + 1 }

abbrev pub right_assoc : ℕ → BindingPower
right_assoc level = record { left = level; right = level }

pub data InfixOperator : Type 0 where
  assign : InfixOperator
  binary : BinOp → InfixOperator
  postfix : InfixOperator

-- `INFIX_BINDING_TABLE`, with the operator that `current_infix_operator` gives for the kind.
abbrev pub infix_binding : TokenKind → Option (BindingPower × InfixOperator)
infix_binding TokenKind.assign = some (right_assoc 1, InfixOperator.assign)
infix_binding TokenKind.eq_eq = some (left_assoc 4, InfixOperator.binary BinOp.eq)
infix_binding TokenKind.bang_eq = some (left_assoc 4, InfixOperator.binary BinOp.not_eq)
infix_binding TokenKind.lt = some (left_assoc 5, InfixOperator.binary BinOp.lt)
infix_binding TokenKind.gt = some (left_assoc 5, InfixOperator.binary BinOp.gt)
infix_binding TokenKind.lt_eq = some (left_assoc 5, InfixOperator.binary BinOp.lt_eq)
infix_binding TokenKind.gt_eq = some (left_assoc 5, InfixOperator.binary BinOp.gt_eq)
infix_binding TokenKind.plus = some (left_assoc 6, InfixOperator.binary BinOp.add)
infix_binding TokenKind.minus = some (left_assoc 6, InfixOperator.binary BinOp.sub)
infix_binding TokenKind.star = some (left_assoc 7, InfixOperator.binary BinOp.mul)
infix_binding TokenKind.slash = some (left_assoc 7, InfixOperator.binary BinOp.div)
infix_binding TokenKind.percent = some (left_assoc 7, InfixOperator.binary BinOp.rem)
infix_binding TokenKind.dot = some (left_assoc 10, InfixOperator.postfix)
infix_binding TokenKind.l_bracket = some (left_assoc 10, InfixOperator.postfix)
infix_binding TokenKind.l_paren = some (left_assoc 10, InfixOperator.postfix)
infix_binding _ = none

abbrev pub prefix_not_bp : ℕ
prefix_not_bp = 4

abbrev pub prefix_neg_bp : ℕ
prefix_neg_bp = 9

abbrev pub postfix_bp : ℕ
postfix_bp = 10

abbrev pub is_postfix_start : TokenKind → Bool
is_postfix_start TokenKind.dot = true
is_postfix_start TokenKind.l_bracket = true
is_postfix_start TokenKind.l_paren = true
is_postfix_start _ = false

-- `str::parse::<i64>` on ASCII digits with a sign: the bits of the number, when it lies in range
abbrev digits : ℕ → Bytes → Option ℕ
digits n [] = some n
digits n (b ∷ bytes) = if is_digit b then digits (n * 10 + (b - 48)) bytes else none

abbrev within : ℕ → Option ℕ → Option ℕ
within bound none = none
within bound (some n) = if leb n bound then some n else none

abbrev negated : Option ℕ → Option ℕ
negated none = none
negated (some n) = some ((2 ^ 64 - n) % 2 ^ 64)

abbrev signed : ℕ → Bytes → Option ℕ
signed b [] = if is_digit b then digits 0 (b ∷ []) else none
signed b (c ∷ bytes) =
    if b == b'-'
    then negated (within (2 ^ 63) (digits 0 (c ∷ bytes)))
    else if b == b'+'
    then within (2 ^ 63 - 1) (digits 0 (c ∷ bytes))
    else within (2 ^ 63 - 1) (digits 0 (b ∷ c ∷ bytes))

unfoldable pub parse_i64 : Bytes → Option ℕ
parse_i64 [] = none
parse_i64 (b ∷ bytes) = signed b bytes

abbrev or_zero : Option ℕ → ℕ
or_zero none = 0
or_zero (some n) = n

-- A recursive call of `parse_expr`.
abbrev pub Again : Type 0
Again = ℕ → Parser → Option (Expr × Parser)

module _ (source : Bytes) where
  unfoldable pub current_infix_operator : Token → Option (BindingPower × InfixOperator)
  current_infix_operator token =
      if token_is_contextual source token (codes "or")
      then some (left_assoc 2, InfixOperator.binary BinOp.or)
      else if token_is_contextual source token (codes "and")
      then some (left_assoc 3, InfixOperator.binary BinOp.and)
      else infix_binding token.kind

  abbrev pub finish_unary : UnaryOp → Span → Expr × Parser → Expr × Parser
  finish_unary op start (operand, p) =
      alloc (λ i. Expr.unary i (join start (Ast.span operand)) op operand) p

  abbrev pub finish_ident : Span → InternedStr × Names → Parser → Expr × Parser
  finish_ident start (name, names) p =
      alloc (λ i. Expr.ident i start name) (record p { names = names })

  unfoldable pub parse_identifier_like_prefix : Again → Parser → Option (Expr × Parser)
  parse_identifier_like_prefix again p =
      let token = peek p in
      let is_true = has_text source token (codes "true") in
      elim (is_true || has_text source token (codes "false")) [
        | true ↦ some (alloc (λ i. Expr.literal i token.span (Literal.bool is_true)) (advance p))
        | false ↦ elim (has_text source token (codes "not")) [
          | true ↦ do
            operand ← again prefix_not_bp (advance p)
            some (finish_unary UnaryOp.not token.span operand)
          | false ↦
              some (finish_ident token.span (intern_token_symbol source token p.names) (advance p))
        ]
      ]

  -- The right parenthesis of a parenthesised expression.
  abbrev pub close_paren : Expr × Parser → Expr × Parser
  close_paren (e, p) =
      let (closed, q) = match_kind TokenKind.r_paren p in
      (e, if closed then q else emit_missing TokenKind.r_paren p)

  -- The match of `parse_prefix` on the kind of the token.
  unfoldable pub prefix_of : Again → TokenKind → Parser → Option (Expr × Parser)
  prefix_of again TokenKind.identifier p = parse_identifier_like_prefix again p
  prefix_of again TokenKind.kw_from p = parse_identifier_like_prefix again p
  prefix_of again TokenKind.kw_include p = parse_identifier_like_prefix again p
  prefix_of again TokenKind.kw_i32 p = parse_identifier_like_prefix again p
  prefix_of again TokenKind.kw_f32 p = parse_identifier_like_prefix again p
  prefix_of again TokenKind.kw_bool p = parse_identifier_like_prefix again p
  prefix_of again TokenKind.kw_str p = parse_identifier_like_prefix again p
  prefix_of again TokenKind.integer p =
      let value = or_zero (token_text source (peek p) >>= parse_i64) in
      some (alloc (λ i. Expr.literal i (current_span p) (Literal.int value)) (advance p))
  prefix_of again TokenKind.float p =
      let text = token_text source (peek p) in
      some (alloc (λ i. Expr.literal i (current_span p) (Literal.float text)) (advance p))
  prefix_of again TokenKind.string p =
      let (symbol, names) = intern_token_symbol source (peek p) p.names in
      some (
        alloc (λ i. Expr.literal i (current_span p) (Literal.str symbol))
          (record (advance p) { names = names }))
  prefix_of again TokenKind.minus p = do
    operand ← again prefix_neg_bp (advance p)
    some (finish_unary UnaryOp.neg (current_span p) operand)
  prefix_of again TokenKind.l_paren p = do inner ← again 0 (advance p); some (close_paren inner)
  prefix_of again kind p =
      some (
        synthetic_zero_expr (current_span p)
          (skip_token (emit_unexpected Expectation.expression p)))

  unfoldable pub parse_prefix : Again → Parser → Option (Expr × Parser)
  parse_prefix again p =
      let (was_error, q) = consume_lexer_error_at_cursor p in
      if was_error
      then some (synthetic_zero_expr (current_span q) q)
      else prefix_of again (peek p).kind p

  -- The arguments up to the right parenthesis; every round starts at an argument or at the end.
  unfoldable pub parse_args : Again → ℕ → Parser → Option (Exprs × Parser)
  parse_args again zero p = none
  parse_args again (suc count) p = elim (at TokenKind.r_paren p || at TokenKind.eof p) [
    | true ↦ some (Exprs.none, p)
    | false ↦ do
      (arg, p) ← again 0 p
      elim (at TokenKind.comma (skip_soft_layout p)) [
        | true ↦ do
          (args, p) ← parse_args again count (skip_soft_layout (advance (skip_soft_layout p)))
          some (Exprs.more arg args, p)
        | false ↦ some (Exprs.more arg Exprs.none, skip_soft_layout p)
      ]
  ]

  abbrev finish_call : Expr → Exprs × Parser → Expr × Parser
  finish_call lhs (args, p) =
      let (closed, q) = match_kind TokenKind.r_paren p in
      let end = if closed then current_span p else Ast.span lhs in
      alloc (λ i. Expr.call i (join (Ast.span lhs) end) lhs args)
        (if closed then q else emit_missing TokenKind.r_paren p)

  abbrev finish_index : Expr → Expr × Parser → Expr × Parser
  finish_index lhs (place, p) =
      let (closed, q) = match_kind TokenKind.r_bracket p in
      let end = if closed then current_span p else Ast.span place in
      alloc (λ i. Expr.index i (join (Ast.span lhs) end) lhs place)
        (if closed then q else emit_missing TokenKind.r_bracket p)

  unfoldable pub parse_field : Expr → Parser → Expr × Parser
  parse_field lhs p =
      let q = advance p in
      let (field, r) = parse_name_symbol source Expectation.identifier q in
      let span = join (join (Ast.span lhs) (current_span p)) (current_span q) in
      alloc (λ i. Expr.field_access i span lhs field) r

  -- `parse_postfix`; `count` bounds the arguments.
  unfoldable pub parse_postfix : Again → ℕ → TokenKind → Expr → Parser → Option (Expr × Parser)
  parse_postfix again count TokenKind.dot lhs p = some (parse_field lhs p)
  parse_postfix again count TokenKind.l_bracket lhs p = do
    place ← again 0 (advance p)
    some (finish_index lhs place)
  parse_postfix again count TokenKind.l_paren lhs p = do
    args ← parse_args again count (skip_soft_layout (advance p))
    some (finish_call lhs args)
  parse_postfix again count kind lhs p = some (lhs, p)

  -- What an infix operator does with its two sides.
  unfoldable pub combine : InfixOperator → Token → Expr → Expr × Parser → Expr × Parser
  combine InfixOperator.assign token lhs (rhs, p) =
      alloc (λ i. Expr.assign i (join (Ast.span lhs) (Ast.span rhs)) lhs rhs) p
  combine (InfixOperator.binary op) token lhs (rhs, p) =
      alloc (λ i. Expr.binary i (join (Ast.span lhs) (Ast.span rhs)) lhs op rhs) p
  combine InfixOperator.postfix token lhs (rhs, p) = (
    lhs,
    emit_statement_error
        (record {
          span = token.span;
          kind = ErrorKind.unexpected_token Expectation.expression token.kind;
        })
        p,
  )

  -- The loop of `parse_expr`, at most `count` rounds.
  unfoldable pub parse_loop : Again → ℕ → ℕ → Expr → Parser → Option (Expr × Parser)
  parse_loop again zero min_bp lhs p = none
  parse_loop again (suc count) min_bp lhs p = elim (is_expr_terminator (peek p).kind) [
    | true ↦ some (lhs, p)
    | false ↦ elim (leb min_bp postfix_bp && is_postfix_start (peek p).kind) [
      | true ↦ do
        (lhs, p) ← parse_postfix again count (peek p).kind lhs p
        parse_loop again count min_bp lhs p
      | false ↦ elim (current_infix_operator (peek p)) [
        | none ↦ some (lhs, p)
        | some (binding, operator) ↦ elim (ltb binding.left min_bp) [
          | true ↦ some (lhs, p)
          | false ↦ do
            rhs ← again binding.right (advance p)
            (lhs, p) ← some (combine operator (peek p) lhs rhs)
            parse_loop again count min_bp lhs p
        ]
      ]
    ]
  ]

  unfoldable pub parse_expr : ℕ → ℕ → Parser → Option (Expr × Parser)
  parse_expr zero min_bp p = none
  parse_expr (suc fuel) min_bp p = do
    (lhs, p) ← parse_prefix (parse_expr fuel) p
    parse_loop (parse_expr fuel) fuel min_bp lhs p
