-- ===== src/Lexer/Token.antt =====
-- crates/lexer/src/token.rs and crates/lexer/src/error.rs: spans, slices, tokens, diagnostics.
use thagore.Base.{ℕ, ◌+◌, ◌-◌, Bool, true, false, Option, leb, if◌then◌else◌, ◌==◌}
use Prim.Native.Nat.{min}

pub record Span : Type 0 where
  pub start : ℕ
  pub end : ℕ

-- `end.saturating_sub(start)`
abbrev pub span_len : Span → ℕ
span_len s = s.end - s.start

abbrev pub span_is_empty : Span → Bool
span_is_empty s = leb s.end s.start

abbrev pub join : Span → Span → Span
join a b = record {
  start = if leb a.start b.start then a.start else b.start;
  end = if leb b.end a.end then a.end else b.end;
}

pub record SliceRef : Type 0 where
  pub offset : ℕ
  pub len : ℕ

abbrev pub from_span : Span → SliceRef
from_span s = record { offset = s.start; len = span_len s }

-- `offset.saturating_add(len)` on `u32`
abbrev pub slice_end : SliceRef → ℕ
slice_end r = min (r.offset + r.len) 4294967295

abbrev pub slice_span : SliceRef → Span
slice_span r = record { start = r.offset; end = slice_end r }

abbrev pub slice_is_empty : SliceRef → Bool
slice_is_empty r = r.len == 0

-- The reserved words carry the prefix `kw_`.
pub data TokenKind : Type 0 where
  identifier integer float string : TokenKind
  kw_let kw_func kw_if kw_else kw_while kw_for kw_return kw_const kw_from kw_import : TokenKind
  kw_include kw_extern kw_struct kw_impl kw_intent kw_flow : TokenKind
  kw_i32 kw_f32 kw_bool kw_str : TokenKind
  plus minus star slash percent eq_eq bang_eq lt gt lt_eq gt_eq assign arrow : TokenKind
  colon comma dot l_paren r_paren l_bracket r_bracket : TokenKind
  newline indent dedent eof error : TokenKind

unfoldable pub is_keyword : TokenKind → Bool
is_keyword TokenKind.kw_let = true
is_keyword TokenKind.kw_func = true
is_keyword TokenKind.kw_if = true
is_keyword TokenKind.kw_else = true
is_keyword TokenKind.kw_while = true
is_keyword TokenKind.kw_for = true
is_keyword TokenKind.kw_return = true
is_keyword TokenKind.kw_const = true
is_keyword TokenKind.kw_from = true
is_keyword TokenKind.kw_import = true
is_keyword TokenKind.kw_include = true
is_keyword TokenKind.kw_extern = true
is_keyword TokenKind.kw_struct = true
is_keyword TokenKind.kw_impl = true
is_keyword TokenKind.kw_intent = true
is_keyword TokenKind.kw_flow = true
is_keyword TokenKind.kw_i32 = true
is_keyword TokenKind.kw_f32 = true
is_keyword TokenKind.kw_bool = true
is_keyword TokenKind.kw_str = true
is_keyword _ = false

-- The messages of error.rs, one constructor for each static text.
pub data Message : Type 0 where
  tab_indentation invalid_indentation inconsistent_dedent : Message
  unterminated_string invalid_token invalid_bang : Message

pub data TokenData : Type 0 where
  none : TokenData
  slice : SliceRef → TokenData
  error : Message → TokenData

pub record Token : Type 0 where
  pub kind : TokenKind
  pub span : Span
  pub payload : TokenData

-- `Token::new`
abbrev pub plain : TokenKind → Span → Token
plain k s = record { kind = k; span = s; payload = TokenData.none }

abbrev pub with_slice : TokenKind → Span → SliceRef → Token
with_slice k s r = record { kind = k; span = s; payload = TokenData.slice r }

abbrev pub with_error : Span → Message → Token
with_error s m = record { kind = TokenKind.error; span = s; payload = TokenData.error m }

pub record LexError : Type 0 where
  pub span : Span
  pub message : Message

abbrev pub to_token : LexError → Token
to_token e = with_error e.span e.message

-- `Token::slice` and `Token::error_message`
abbrev pub token_slice : Token → Option SliceRef
token_slice t = elim t.payload [ TokenData.slice r ↦ Option.some r | _ ↦ Option.none ]

abbrev pub error_message : Token → Option Message
error_message t = elim t.payload [ TokenData.error m ↦ Option.some m | _ ↦ Option.none ]
