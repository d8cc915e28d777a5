-- ===== src/Parser/Tests.antt =====
-- Runs of the parser (crates/parser/src).
use thagore.Base.{ℕ, ◌+◌, ◌≡◌, refl, false, List, [], ◌∷◌, some, arith, inl, as_u32}
use thagore.Ast.{Expr, BinOp}
use thagore.Lexer.Keywords.{codes, bytes_eq}
use thagore.Lexer.Source.{Bytes, resolve, is_char_boundary}
use thagore.Lexer.Token.{Span, Token, TokenKind, with_slice, plain}
use thagore.Parser.{consume_lexer_error_at_cursor, Parser, Names, new, intern_text}
use thagore.Parser.Kinds.{kind_is}
use thagore.Parser.Moves.{Moves}
use thagore.Parser.Symbols.{Interned, intern_text-Interned}
use thagore.Parser.Pratt.Total.{Returns, parse_expr-Returns}
use thagore.Parser.Pratt.Grammar.{Written, name, binary, assignment, symbol, mul}
use thagore.Parser.Pratt.Agrees.{parse_expr-Written}
use thagore.Parser.{Expectation}
use thagore.Parser.Stmts.{BlockParser, parse_block_for}
use thagore.Parser.Stmts.Goes.{Goes}
use thagore.Parser.Stmts.Total.{parse_block_for-Returns}
use thagore.Parser.Program.{parse_program}
use thagore.Parser.Program.Total.{Finished, parse_program-Finished}
use thagore.Parser.Pratt.{
  parse_expr, parse_prefix, prefix_of, parse_identifier_like_prefix, parse_loop,
  current_infix_operator, combine,
}

abbrev source : Bytes
source = codes "x=a*b"

abbrev at_byte : ℕ → Span
at_byte i = record { start = i; end = i + 1 }

abbrev word : ℕ → Token
word i = with_slice TokenKind.identifier (at_byte i) (record { offset = i; len = 1 })

abbrev behind : List Token
behind = plain TokenKind.eof (at_byte 5) ∷ []

abbrev from_factor : List Token
from_factor = word 4 ∷ behind

abbrev from_star : List Token
from_star = plain TokenKind.star (at_byte 3) ∷ from_factor

abbrev from_value : List Token
from_value = word 2 ∷ from_star

abbrev from_assign : List Token
from_assign = plain TokenKind.assign (at_byte 1) ∷ from_value

abbrev tokens : List Token
tokens = word 0 ∷ from_assign

abbrev product : Expr
product =
    Expr.binary 3 (record { start = 2; end = 5 }) (Expr.ident 1 (at_byte 2) 1) BinOp.mul
      (Expr.ident 2 (at_byte 4) 2)

abbrev tree : Expr
tree = Expr.assign 4 (record { start = 0; end = 5 }) (Expr.ident 0 (at_byte 0) 0) product

abbrev after_tree : Parser
after_tree = record {
  ahead = behind;
  names = record { symbols = codes "x" ∷ codes "a" ∷ codes "b" ∷ []; next_node_id = 5 };
  errors = [];
  statement_has_error = false;
}

parse_expr-tree : parse_expr source 6 0 (new tokens) ≡ some (tree, after_tree)
unfolding parse_expr parse_prefix consume_lexer_error_at_cursor kind_is prefix_of
    parse_identifier_like_prefix resolve is_char_boundary bytes_eq parse_loop current_infix_operator
    combine intern_text as_u32
parse_expr-tree = refl

abbrev named : List Bytes → ℕ → Names
named symbols next_node_id = record { symbols = symbols; next_node_id = next_node_id }

abbrev x : List Bytes
x = codes "x" ∷ []

abbrev x_a : List Bytes
x_a = codes "x" ∷ codes "a" ∷ []

abbrev x_a_b : List Bytes
x_a_b = codes "x" ∷ codes "a" ∷ codes "b" ∷ []

product-Written : Written source 7 8 from_value behind (named x 1) product (named x_a_b 4)
unfolding resolve is_char_boundary bytes_eq intern_text as_u32
product-Written =
    binary (plain TokenKind.star (at_byte 3)) 7 11 11 11 11 from_value from_factor behind
      (named x 1) (named x_a 2) (named x_a_b 3) (Expr.ident 1 (at_byte 2) 1)
      (Expr.ident 2 (at_byte 4) 2) BinOp.mul (symbol TokenKind.star 7 BinOp.mul refl mul)
      (name (word 2) from_star (named x 1) refl refl refl refl) (omega arith)
      (name (word 4) behind (named x_a 2) refl refl refl refl) (omega arith)

tree-Written : Written source 1 1 tokens behind (named [] 0) tree (named x_a_b 5)
unfolding resolve is_char_boundary bytes_eq intern_text as_u32
tree-Written =
    assignment (plain TokenKind.assign (at_byte 1)) 11 11 7 8 tokens from_value behind (named [] 0)
      (named x 1) (named x_a_b 4) (Expr.ident 0 (at_byte 0) 0) product refl
      (name (word 0) from_assign (named [] 0) refl refl refl refl) (omega arith) product-Written
      (omega arith)

parse_expr-Written_example : parse_expr source 6 0 (new tokens) ≡ some (tree, after_tree)
parse_expr-Written_example =
    parse_expr-Written source 1 1 tokens behind (named [] 0) (named x_a_b 5) tree (new tokens) 0 6
      tree-Written (omega arith) (inl (inl refl)) (omega arith) (omega arith)

parse_expr-Returns_example : Returns (Moves (new tokens)) (parse_expr source 14 0 (new tokens))
parse_expr-Returns_example = parse_expr-Returns source 14 0 (new tokens) (omega arith)

intern_text-Interned_example :
    Interned (codes "a") (named x_a 2) (intern_text (codes "a") (named x_a 2))
intern_text-Interned_example = intern_text-Interned (codes "a") (named x_a 2) (omega arith)

abbrev indented : List Token
indented =
    plain TokenKind.newline (at_byte 0)
    ∷ plain TokenKind.indent (at_byte 0)
    ∷ word 0
    ∷ plain TokenKind.newline (at_byte 1)
    ∷ plain TokenKind.dedent (at_byte 1)
    ∷ behind

parse_block_for-Returns_example :
    Returns (Goes (new indented)) (parse_block_for source Expectation.statement (new indented))
parse_block_for-Returns_example =
    parse_block_for-Returns source Expectation.statement (new indented)

parse_program-Finished_example : Returns (Finished (new tokens)) (parse_program source (new tokens))
parse_program-Finished_example = parse_program-Finished source (new tokens)

abbrev blocks : BlockParser
blocks = parse_block_for source

abbrev bad_token : Token
bad_token = plain TokenKind.error (at_byte 0)

abbrev line_end : Token
line_end = plain TokenKind.newline (at_byte 1)

abbrev block_end : Token
block_end = plain TokenKind.dedent (at_byte 1)
