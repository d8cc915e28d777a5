-- ===== src/Lexer/Scan/Tokens.antt =====
-- Every scanner reads a token off the text between two boundaries and leaves the rest of the state.
use thagore.Base.{
  ℕ, ◌+◌, ◌<◌, ◌≡◌, refl, true, some, get_elem?, length, arith, Option-cases, inl, inr,
}
use thagore.Lexer.Keywords.Laws.{keyword-is_keyword}
use thagore.Lexer.Keywords.{keyword}
use thagore.Lexer.Scan.Loops.{
  number_loop-Reaches, identifier_loop-Reaches, string_loop-Reaches, identifier_loop-lt, Accepts,
}
use thagore.Lexer.Scan.{
  Lexer, span_of, fuel_of, consume_newline, consume_tab_error, consume_invalid_byte,
  single_byte_token, scan_minus_or_arrow, scan_equal_family, scan_less_family, scan_greater_family,
  scan_bang_family, number_loop, scan_number, scan_string, identifier_loop, word_kind,
  scan_identifier_or_keyword,
}
use thagore.Lexer.Source.Boundary.{IsStr, Character, boundary-Character}
use thagore.Lexer.Source.{Bytes, Unicode, is_char_boundary, classify_number_at, resolve}
use thagore.Lexer.Table.{is_digit, DfaState, transition}
use thagore.Lexer.Token.{
  TokenKind, TokenData, Message, Token, Span, SliceRef, with_slice, is_keyword, from_span,
}

-- The part that a token plays in the layout: an `Indent`, a `Dedent`, a dedent to a level that was
-- not open, the end, or a token inside a line.
pub data Role : Type 0 where
  opens closes reopens ends inside : Role

payload_role : TokenData → Role
payload_role (TokenData.error Message.inconsistent_dedent) = reopens
payload_role _ = inside

unfoldable pub role : Token → Role
unfolding payload_role
role t = elim t.kind [
  | TokenKind.indent ↦ opens
  | TokenKind.dedent ↦ closes
  | TokenKind.eof ↦ ends
  | _ ↦ payload_role t.payload
]

pub record Scanned (s : Lexer) (r : Token × Lexer) : Type 0 where
  pub bytes : r.1.bytes ≡ s.bytes
  pub pending : r.1.pending ≡ s.pending
  pub levels : r.1.indent_stack ≡ s.indent_stack
  pub reached : r.1.reached_eof ≡ s.reached_eof
  pub forward : s.offset < r.1.offset
  pub boundary : is_char_boundary s.bytes r.1.offset ≡ true
  pub span : r.0.span ≡ span_of s.offset r.1.offset
  pub role_inside : role r.0 ≡ inside

is_keyword-role :
    (kind : TokenKind) (span : Span) (r : SliceRef)
    → is_keyword kind ≡ true
    → role (with_slice kind span r) ≡ inside
unfolding role is_keyword
is_keyword-role kind span r h = ground arith

-- The kind of a word is `Identifier` or a reserved word, so its token is inside a line.
pub word_kind-role :
    (bytes : Bytes) (r : SliceRef) (span : Span)
    → role (with_slice (word_kind bytes r) span r) ≡ inside
unfolding word_kind role
word_kind-role bytes r span = elim (Option-cases (resolve bytes r)) [
  | inl e ↦ rw (e, word_kind)
  | inr (text, e) ↦ elim (Option-cases (keyword text)) [
    | inl k ↦ rw (e, word_kind) (rw (k, word_kind))
    | inr (kind, k) ↦
        rw (e, word_kind)
          (rw (k, word_kind) (is_keyword-role kind span r (keyword-is_keyword text k)))
  ]
]

module _ (s : Lexer) (str : IsStr s.bytes) (h : is_char_boundary s.bytes s.offset ≡ true) where
  here : Character s.bytes s.offset
  here = boundary-Character s.bytes str s.offset h

  -- The text behind an ASCII byte.
  there :
      (b : ℕ)
      → get_elem? s.bytes s.offset ≡ some b
      → b < 0x80
      → (is_char_boundary s.bytes (s.offset + 1) ≡ true) × Character s.bytes (s.offset + 1)
  there b e a =
      let next : is_char_boundary s.bytes (s.offset + 1) ≡ true = ground (arith, here) in
      (next, boundary-Character s.bytes str (s.offset + 1) next)

  pub consume_invalid_byte-Scanned :
      (b : ℕ) → get_elem? s.bytes s.offset ≡ some b → Scanned s (consume_invalid_byte s)
  unfolding consume_invalid_byte role
  consume_invalid_byte-Scanned b e = ground (arith, here)

  pub scan_number-Scanned :
      (b : ℕ) → get_elem? s.bytes s.offset ≡ some b → is_digit b ≡ true → Scanned s (scan_number s)
  unfolding scan_number role number_loop classify_number_at transition
  scan_number-Scanned b e d = ground (
    arith,
    here,
    number_loop-Reaches s.bytes str (length s.bytes) (s.offset + 1) DfaState.integer,
  )

  module _ (b : ℕ) (e : get_elem? s.bytes s.offset ≡ some b) (a : b < 0x80) where
    pub single_byte_token-Scanned :
        (kind : TokenKind)
        → role (single_byte_token s kind).0 ≡ inside
        → Scanned s (single_byte_token s kind)
    unfolding single_byte_token
    single_byte_token-Scanned kind i = ground (arith, there b e a)

    pub consume_newline-Scanned : Scanned s (consume_newline s b)
    unfolding consume_newline role
    consume_newline-Scanned = ground (arith, there b e a)

    pub consume_tab_error-Scanned : Scanned s (consume_tab_error s)
    unfolding consume_tab_error role
    consume_tab_error-Scanned = ground (arith, there b e a)

    pub scan_minus_or_arrow-Scanned : Scanned s (scan_minus_or_arrow s)
    unfolding scan_minus_or_arrow role
    scan_minus_or_arrow-Scanned = ground (arith, there b e a)

    pub scan_equal_family-Scanned : Scanned s (scan_equal_family s)
    unfolding scan_equal_family role
    scan_equal_family-Scanned = ground (arith, there b e a)

    pub scan_less_family-Scanned : Scanned s (scan_less_family s)
    unfolding scan_less_family role
    scan_less_family-Scanned = ground (arith, there b e a)

    pub scan_greater_family-Scanned : Scanned s (scan_greater_family s)
    unfolding scan_greater_family role
    scan_greater_family-Scanned = ground (arith, there b e a)

    pub scan_bang_family-Scanned : Scanned s (scan_bang_family s)
    unfolding scan_bang_family role
    scan_bang_family-Scanned = ground (arith, there b e a)

    pub scan_string-Scanned : Scanned s (scan_string s)
    unfolding scan_string role
    scan_string-Scanned =
        ground
          (arith, there b e a, string_loop-Reaches s.bytes str (fuel_of s.bytes) (s.offset + 1))

pub scan_identifier-Scanned :
    (u : Unicode) (s : Lexer)
    → IsStr s.bytes
    → is_char_boundary s.bytes s.offset ≡ true
    → Accepts u s.bytes s.offset
    → Scanned s (scan_identifier_or_keyword u s)
unfolding scan_identifier_or_keyword
scan_identifier-Scanned u s str h a =
    let end = identifier_loop u (fuel_of s.bytes) s.bytes s.offset in
    let span = span_of s.offset end in
    record {
      bytes = refl;
      pending = refl;
      levels = refl;
      reached = refl;
      forward = identifier_loop-lt s.bytes str u (length s.bytes) s.offset h a;
      boundary = (identifier_loop-Reaches s.bytes str u (fuel_of s.bytes) s.offset h).boundary;
      span = refl;
      role_inside = word_kind-role s.bytes (from_span span) span;
    }
