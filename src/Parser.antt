-- ===== src/Parser.antt =====
-- crates/parser/src: the state of the parser and its cursor (parser.rs), and its errors (error.rs). `ahead` is
-- `tokens[cursor..]`, so that a parser that has moved has fewer tokens ahead.
pub mod Kinds
pub mod Moves
pub mod Pratt
pub mod Symbols
pub mod Types
pub mod Stmts
pub mod Lists
pub mod Decls
pub mod Program
mod Tests
use Prim.Native.Nat.{min}
use thagore.Base.{
  ℕ, suc, ◌+◌, ◌-◌, Bool, true, false, ◌&&◌, ◌||◌, List, [], ◌∷◌, ◌++◌, Option, none, some, ◌==◌,
  as_u32, u32_limit, if◌then◌else◌, length, ◌>>=◌,
}
use thagore.Ast.{NodeId, InternedStr, Expr, Literal}
use thagore.Lexer.Keywords.{codes, bytes_eq}
use thagore.Lexer.Source.{Bytes}
use thagore.Lexer.Source
use thagore.Lexer.Token.{
  Span, SliceRef, Token, TokenKind, Message, token_slice, error_message, plain,
}
use thagore.Parser.Kinds.{kind_is, is_statement_boundary, token_can_name_value, is_builtin_type}

pub data Expectation : Type 0 where
  token : TokenKind → Expectation
  identifier expression type_expr declaration statement block parameter field : Expectation
  flow_stage import_path_segment func_body struct_body impl_body intent_body : Expectation
  flow_body if_body else_body while_body for_body : Expectation

pub data ConditionDelimiter : Type 0 where
  open_paren close_paren : ConditionDelimiter

-- The message of a lexer error is the token's, or `"lexer error"`.
pub data ErrorKind : Type 0 where
  unexpected_token : (expected : Expectation) (found : TokenKind) → ErrorKind
  missing_token : (expected : TokenKind) → ErrorKind
  missing_block_colon : ErrorKind
  missing_condition_delimiter : (expected : ConditionDelimiter) → ErrorKind
  missing_dedent : ErrorKind
  lexer_error : (message : Option Message) → ErrorKind

pub record ParseError : Type 0 where
  pub span : Span
  pub kind : ErrorKind

-- The tables that a node draws on: the texts of the symbols and the next identifier.
pub record Names : Type 0 where
  pub symbols : List Bytes
  pub next_node_id : ℕ

pub record Parser : Type 0 where
  pub ahead : List Token
  pub names : Names
  pub errors : List ParseError
  pub statement_has_error : Bool

abbrev pub new : List Token → Parser
new tokens = record {
  ahead = tokens;
  names = record { symbols = []; next_node_id = 0 };
  errors = [];
  statement_has_error = false;
}

abbrev end_token : Token
end_token = plain TokenKind.eof (record { start = 0; end = 0 })

abbrev pub first : List Token → Token
first [] = end_token
first (t ∷ ts) = t

abbrev pub peek : Parser → Token
peek p = first p.ahead

abbrev pub rest : List Token → List Token
rest [] = []
rest (t ∷ ts) = ts

-- The token that is consumed is `peek` of the parser before.
abbrev pub advance : Parser → Parser
advance p = record p { ahead = rest p.ahead }

abbrev pub at : TokenKind → Parser → Bool
at kind p = kind_is kind (peek p).kind

unfoldable pub emit_statement_error : ParseError → Parser → Parser
emit_statement_error error p =
    if p.statement_has_error
    then p
    else record p { errors = p.errors ++ error ∷ []; statement_has_error = true }

abbrev pub begin_statement : Parser → Parser
begin_statement p = record p { statement_has_error = false }

abbrev pub match_kind : TokenKind → Parser → Bool × Parser
match_kind kind p = if at kind p then (true, advance p) else (false, p)

abbrev pub current_span : Parser → Span
current_span p = (peek p).span

-- `expect`: whether the token was there
abbrev pub expect : TokenKind → Parser → Bool × Parser
expect kind p = if at kind p then (true, advance p) else (
  false,
  emit_statement_error
      (record {
        span = current_span p;
        kind = ErrorKind.unexpected_token (Expectation.token kind) (peek p).kind;
      })
      p,
)

abbrev pub expect_dedent : Parser → Bool × Parser
expect_dedent p = if at TokenKind.dedent p then (true, advance p) else (
  false,
  emit_statement_error (record { span = current_span p; kind = ErrorKind.missing_dedent }) p,
)

-- `next_node_id.saturating_add(1)`
abbrev pub next_id : Names → Names
next_id names = record names { next_node_id = min (names.next_node_id + 1) (u32_limit - 1) }

-- The loops over tokens walk the tokens ahead.
abbrev drop_newlines : List Token → List Token
drop_newlines [] = []
drop_newlines (t ∷ ts) = if kind_is TokenKind.newline t.kind then drop_newlines ts else t ∷ ts

abbrev pub skip_newlines : Parser → Parser
skip_newlines p = record p { ahead = drop_newlines p.ahead }

abbrev pub is_soft : TokenKind → Bool
is_soft TokenKind.newline = true
is_soft TokenKind.indent = true
is_soft TokenKind.dedent = true
is_soft _ = false

abbrev pub drop_soft : List Token → List Token
drop_soft [] = []
drop_soft (t ∷ ts) = if is_soft t.kind then drop_soft ts else t ∷ ts

abbrev pub skip_soft_layout : Parser → Parser
skip_soft_layout p = record p { ahead = drop_soft p.ahead }

abbrev to_boundary : List Token → List Token
to_boundary [] = []
to_boundary (t ∷ ts) = if is_statement_boundary t.kind then t ∷ ts else to_boundary ts

-- The newlines or the dedent that end the statement.
abbrev past_boundary : Parser → Parser
past_boundary p =
    if at TokenKind.newline p
    then skip_newlines p
    else if at TokenKind.dedent p
    then advance p
    else p

abbrev lexer_error_of : Parser → ParseError
lexer_error_of p = record {
  span = current_span p;
  kind = ErrorKind.lexer_error (error_message (peek p));
}

abbrev past_line : Parser → Parser
past_line p = record p { ahead = to_boundary p.ahead }

abbrev past_newline : Parser → Parser
past_newline p = if at TokenKind.newline p then advance p else p

unfoldable pub synchronize_statement : Parser → Parser
synchronize_statement p =
    if at TokenKind.eof p
    then p
    else past_boundary (past_line (if is_statement_boundary (peek p).kind then p else advance p))

unfoldable pub consume_lexer_error_at_cursor : Parser → Bool × Parser
consume_lexer_error_at_cursor p =
    if kind_is TokenKind.error (peek p).kind
    then (true, past_newline (past_line (advance (emit_statement_error (lexer_error_of p) p))))
    else (false, p)

-- The first place, from `i` on, of a text.
abbrev pub position : Bytes → ℕ → List Bytes → Option ℕ
position text i [] = none
position text i (s ∷ symbols) = if bytes_eq s text then some i else position text (i + 1) symbols

unfoldable pub intern_text : Bytes → Names → InternedStr × Names
intern_text text names = elim (position text 0 names.symbols) [
  | some i ↦ (as_u32 i, names)
  | none ↦
      (as_u32 (length names.symbols + 1 - 1), record names { symbols = names.symbols ++ text ∷ [] })
]

-- The text of a token that has none.
abbrev pub default_text : TokenKind → Bytes
default_text TokenKind.kw_i32 = codes "i32"
default_text TokenKind.kw_f32 = codes "f32"
default_text TokenKind.kw_bool = codes "bool"
default_text TokenKind.kw_str = codes "str"
default_text _ = codes "__missing__"

abbrev pub emit_unexpected : Expectation → Parser → Parser
emit_unexpected expected p =
    emit_statement_error
      (record { span = current_span p; kind = ErrorKind.unexpected_token expected (peek p).kind }) p

abbrev pub emit_missing : TokenKind → Parser → Parser
emit_missing kind p =
    emit_statement_error (record { span = current_span p; kind = ErrorKind.missing_token kind }) p

-- `if !self.at(Eof) { self.advance(); }`
abbrev pub skip_token : Parser → Parser
skip_token p = if at TokenKind.eof p then p else advance p

abbrev intern_in : Bytes → Parser → InternedStr × Parser
intern_in text p =
    let (symbol, names) = intern_text text p.names in (symbol, record p { names = names })

module _ (source : Bytes) where
  abbrev pub token_text : Token → Option Bytes
  token_text t = token_slice t >>= λ (slice : SliceRef). Source.resolve source slice

  -- `token_text(token) == Some(keyword)`
  abbrev pub has_text : Token → Bytes → Bool
  has_text t keyword = elim (token_text t) [ none ↦ false | some text ↦ bytes_eq text keyword ]

  abbrev pub token_is_contextual : Token → Bytes → Bool
  token_is_contextual t keyword = kind_is TokenKind.identifier t.kind && has_text t keyword

  abbrev pub symbol_text : Token → Bytes
  symbol_text t = elim (token_text t) [ some text ↦ text | none ↦ default_text t.kind ]

  abbrev pub intern_token_symbol : Token → Names → InternedStr × Names
  intern_token_symbol t names = intern_text (symbol_text t) names

  unfoldable pub parse_symbol : Bool → Expectation → Parser → InternedStr × Parser
  parse_symbol can_name expected p =
      if can_name
      then intern_in (symbol_text (peek p)) (advance p)
      else intern_in (codes "__error__") (skip_token (emit_unexpected expected p))

  abbrev pub parse_identifier_symbol : Expectation → Parser → InternedStr × Parser
  parse_identifier_symbol expected p = parse_symbol (token_can_name_value (peek p).kind) expected p

  abbrev pub parse_name_symbol : Expectation → Parser → InternedStr × Parser
  parse_name_symbol expected p =
      parse_symbol (token_can_name_value (peek p).kind || is_builtin_type (peek p).kind) expected p

-- A node that takes the next identifier.
abbrev pub alloc : (NodeId → Expr) → Parser → Expr × Parser
alloc node p = (node p.names.next_node_id, record p { names = next_id p.names })

abbrev pub synthetic_zero_expr : Span → Parser → Expr × Parser
synthetic_zero_expr span p = alloc (λ i. Expr.literal i span (Literal.int 0)) p
