-- ===== src/Parser/Stmts/Recovery.antt =====
-- The recovery of a block (crates/parser/src/stmt.rs) behind a lexer error.
use thagore.Base.{◌≡◌, List, ◌∷◌, none, some}
use thagore.Lexer.Source.{Bytes}
use thagore.Lexer.Token.{Token}
use thagore.Parser.{Parser, synchronize_statement, emit_statement_error, lexer_error_of}
use thagore.Parser.Stmts.{BlockParser, parse_stmt}

-- What the loop of a block makes of the error: the token that it goes on with.
pub record Recovers (source : Bytes) (block : BlockParser) (p : Parser) (rest : List Token)
    : Type 0 where
  pub after : Parser
  pub ends : parse_stmt source block p ≡ some (none, after)
  pub goes_on : (synchronize_statement after).ahead ≡ rest

-- The parser behind the report of the error.
abbrev reported : Token → Token → Token → List Token → Parser → Parser
reported bad newline dedent rest p =
    emit_statement_error (lexer_error_of (record p { ahead = bad ∷ newline ∷ dedent ∷ rest }))
      (record p { ahead = bad ∷ newline ∷ dedent ∷ rest })
