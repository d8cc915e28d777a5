-- ===== src/Parser/Program.antt =====
-- `parse_program` of crates/parser/src/parser.rs.
pub mod Total
use thagore.Base.{ℕ, zero, suc, Bool, true, false, List, [], ◌∷◌, Option, none, some, length, ◌>>=◌}
use thagore.Ast.Decls.{Decl}
use thagore.Lexer.Source.{Bytes}
use thagore.Lexer.Token.{TokenKind}
use thagore.Parser.{
  Parser, at, begin_statement, skip_newlines, synchronize_statement, consume_lexer_error_at_cursor,
}
use thagore.Parser.Decls.{parse_decl}

-- Behind a declaration, or behind an error.
abbrev pub after_decl : Option Decl → Parser → Parser
after_decl (some d) p = skip_newlines (begin_statement p)
after_decl none p = skip_newlines (begin_statement (synchronize_statement p))

abbrev pub add_decl : Option Decl → List Decl × Parser → List Decl × Parser
add_decl none r = r
add_decl (some d) (decls, p) = (d ∷ decls, p)

-- The loop of `parse_program`, at most `count` rounds.
unfoldable pub parse_decls : Bytes → ℕ → Parser → Option (List Decl × Parser)
parse_decls source zero p = none
parse_decls source (suc count) p = elim (at TokenKind.eof p) [
  | true ↦ some ([], p)
  | false ↦
      let (was_error, q) = consume_lexer_error_at_cursor p in
      elim was_error [
        | true ↦ parse_decls source count (skip_newlines q)
        | false ↦ do
          (decl, q) ← parse_decl source (begin_statement p)
          decls ← parse_decls source count (after_decl decl q)
          some (add_decl decl decls)
      ]
]

unfoldable pub parse_program : Bytes → Parser → Option (List Decl × Parser)
parse_program source p = parse_decls source (suc (length p.ahead)) (skip_newlines p)
