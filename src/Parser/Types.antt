-- ===== src/Parser/Types.antt =====
-- crates/parser/src/types.rs: the parser of type expressions.
pub mod Total
use thagore.Base.{
  ℕ, zero, suc, Bool, true, false, ◌&&◌, ◌||◌, List, Option, none, some, if◌then◌else◌, length,
  ◌>>=◌,
}
use thagore.Ast.{NodeId, InternedStr}
use thagore.Ast.Types.{TypeExpr, TypeExprs, type_span}
use thagore.Lexer.Keywords.{codes}
use thagore.Lexer.Source.{Bytes}
use thagore.Lexer.Token.{Span, Token, TokenKind, join}
use thagore.Parser.Kinds.{kind_is, is_expr_terminator, is_builtin_type}
use thagore.Parser.{
  Parser, Names, Expectation, peek, advance, at, current_span, emit_unexpected, emit_missing,
  next_id, token_is_contextual, intern_token_symbol,
}

-- A node that takes the next identifier.
abbrev pub alloc_node {ℓ} : {A : Type ℓ} → (NodeId → A) → Parser → A × Parser
alloc_node node p = (node p.names.next_node_id, record p { names = next_id p.names })

abbrev pub synthetic_infer_type : Span → Parser → TypeExpr × Parser
synthetic_infer_type span p = alloc_node (λ i. TypeExpr.infer i span) p

abbrev pub Again : Type 0
Again = Parser → Option (TypeExpr × Parser)

unfoldable pub parse_type_args : Again → ℕ → TokenKind → Parser → Option (TypeExprs × Parser)
parse_type_args again zero closing p = none
parse_type_args again (suc count) closing p =
    elim (at closing p || is_expr_terminator (peek p).kind) [
      | true ↦ some (TypeExprs.none, p)
      | false ↦ do
        (ty, p) ← again p
        elim (at TokenKind.comma p) [
          | true ↦ do
            (args, p) ← parse_type_args again count closing (advance p)
            some (TypeExprs.more ty args, p)
          | false ↦ some (TypeExprs.more ty TypeExprs.none, p)
        ]
    ]

abbrev pub finish_type_args :
    TokenKind → Span → InternedStr → TypeExprs × Parser → TypeExpr × Parser
finish_type_args closing start name (args, p) =
    alloc_node (λ i. TypeExpr.generic i (join start (current_span p)) name args)
      (if at closing p then advance p else emit_missing closing p)

unfoldable pub parse_generic :
    Again → ℕ → TokenKind → Span → InternedStr → Parser → Option (TypeExpr × Parser)
parse_generic again count closing start name p = do
  args ← parse_type_args again count closing p
  some (finish_type_args closing start name args)

-- Behind the name: the arguments in `<` `>` or `[` `]`, or none.
unfoldable pub parse_type_rest :
    Again → ℕ → Span → InternedStr → Parser → Option (TypeExpr × Parser)
parse_type_rest again count start name p = elim (at TokenKind.lt p) [
  | true ↦ parse_generic again count TokenKind.gt start name (advance p)
  | false ↦ elim (at TokenKind.l_bracket p) [
    | true ↦ parse_generic again count TokenKind.r_bracket start name (advance p)
    | false ↦ some (alloc_node (λ i. TypeExpr.named i start name) p)
  ]
]

module _ (source : Bytes) where
  abbrev named_from : InternedStr × Names → Parser → InternedStr × Parser
  named_from (name, names) p = (name, record p { names = names })

  unfoldable pub parse_type_with : ℕ → Parser → Option (TypeExpr × Parser)
  parse_type_with zero p = none
  parse_type_with (suc fuel) p = elim (token_is_contextual source (peek p) (codes "_")) [
    | true ↦ some (alloc_node (λ i. TypeExpr.infer i (current_span p)) (advance p))
    | false ↦ elim (kind_is TokenKind.identifier (peek p).kind || is_builtin_type (peek p).kind) [
      | true ↦ do
        (name, q) ← some (named_from (intern_token_symbol source (peek p) p.names) (advance p))
        parse_type_rest (parse_type_with fuel) fuel (current_span p) name q
      | false ↦
          some (synthetic_infer_type (current_span p) (emit_unexpected Expectation.type_expr p))
    ]
  ]

  -- `parse_type_expr`, with a step for each token and one more
  unfoldable pub parse_type_expr : Parser → Option (TypeExpr × Parser)
  parse_type_expr p = parse_type_with (suc (length p.ahead)) p
