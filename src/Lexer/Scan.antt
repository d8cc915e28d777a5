-- ===== src/Lexer/Scan.antt =====
-- crates/lexer/src/lexer.rs: the state of the lexer and its token scanners. The interner and
-- `source` are views of `bytes`. A loop takes fuel above the number of bytes; Lexer/Scan/Loops
-- shows that each ends by its own test.
pub mod Loops
pub mod Tokens
pub mod Literals
pub mod Strings
pub mod Words
use Prim.Native.Nat.{max}
use thagore.Base.{
  ℕ, zero, suc, ◌+◌, ◌-◌, Bool, true, false, ◌||◌, List, [], ◌∷◌, none, some, ◌==◌, if◌then◌else◌,
  get_elem?, length, as_u32,
}
use thagore.Lexer.Keywords.{keyword}
use thagore.Lexer.Source.{
  Bytes, Unicode, current_width_at, classify_identifier_at, classify_number_at, classify_string_at,
  resolve,
}
use thagore.Lexer.Table.{DfaState, transition}
use thagore.Lexer.Token.{
  Span, SliceRef, from_span, TokenKind, Message, Token, plain, with_slice, with_error,
}

-- `indent_stack` has its top first.
pub record Lexer : Type 0 where
  pub bytes : Bytes
  pub offset : ℕ
  pub line_start : Bool
  pub pending : List Token
  pub indent_stack : List ℕ
  pub reached_eof : Bool
  pub emitted_eof : Bool

abbrev pub new : Bytes → Lexer
new bytes = record {
  bytes = bytes;
  offset = 0;
  line_start = true;
  pending = [];
  indent_stack = 0 ∷ [];
  reached_eof = false;
  emitted_eof = false;
}

-- `Span::new(start as u32, end as u32)`
abbrev pub span_of : ℕ → ℕ → Span
span_of start end = record { start = as_u32 start; end = as_u32 end }

abbrev pub fuel_of : Bytes → ℕ
fuel_of bytes = suc (length bytes)

-- The scanners move to `end` inside a line.
abbrev pub moved : Lexer → ℕ → Lexer
moved s end = record s { offset = end; line_start = false }

abbrev pub is_break : ℕ → Bool
is_break b = b == b'\n' || b == b'\r'

abbrev pub byte_is : Bytes → ℕ → ℕ → Bool
byte_is bytes i b = elim (get_elem? bytes i) [ none ↦ false | some c ↦ c == b ]

unfoldable pub skip_comment : ℕ → Bytes → ℕ → ℕ
skip_comment zero bytes i = i
skip_comment (suc fuel) bytes i = elim (get_elem? bytes i) [
  | none ↦ i
  | some b ↦ elim (is_break b) [
    | true ↦ i
    | false ↦ skip_comment fuel bytes (i + max (current_width_at bytes i) 1)
  ]
]

-- The end of a line break at `i`, whose first byte is `b`.
abbrev pub break_end : Bytes → ℕ → ℕ → ℕ
break_end bytes i b =
    if b == b'\r' then (if byte_is bytes (i + 1) b'\n' then i + 2 else i + 1) else i + 1

unfoldable pub consume_newline : Lexer → ℕ → Token × Lexer
consume_newline s b =
    let end = break_end s.bytes s.offset b in
    (plain TokenKind.newline (span_of s.offset end), record s { offset = end; line_start = true })

unfoldable pub consume_tab_error : Lexer → Token × Lexer
consume_tab_error s =
    let end = s.offset + 1 in
    (with_error (span_of s.offset end) Message.tab_indentation, moved s end)

unfoldable pub consume_invalid_byte : Lexer → Token × Lexer
consume_invalid_byte s =
    let end = s.offset + max (current_width_at s.bytes s.offset) 1 in
    (with_error (span_of s.offset end) Message.invalid_token, moved s end)

unfoldable pub single_byte_token : Lexer → TokenKind → Token × Lexer
single_byte_token s kind =
    let end = s.offset + 1 in (plain kind (span_of s.offset end), moved s end)

-- A token of two bytes if `second` follows, and of one byte else.
abbrev scan_pair : Lexer → ℕ → TokenKind → TokenKind → Token × Lexer
scan_pair s second two one =
    let long = byte_is s.bytes (s.offset + 1) second in
    let end = if long then s.offset + 2 else s.offset + 1 in
    (plain (if long then two else one) (span_of s.offset end), moved s end)

unfoldable pub scan_minus_or_arrow : Lexer → Token × Lexer
scan_minus_or_arrow s = scan_pair s b'>' TokenKind.arrow TokenKind.minus

unfoldable pub scan_equal_family : Lexer → Token × Lexer
scan_equal_family s = scan_pair s b'=' TokenKind.eq_eq TokenKind.assign

unfoldable pub scan_less_family : Lexer → Token × Lexer
scan_less_family s = scan_pair s b'=' TokenKind.lt_eq TokenKind.lt

unfoldable pub scan_greater_family : Lexer → Token × Lexer
scan_greater_family s = scan_pair s b'=' TokenKind.gt_eq TokenKind.gt

unfoldable pub scan_bang_family : Lexer → Token × Lexer
scan_bang_family s =
    let one = s.offset + 1 in
    let two = s.offset + 2 in
    if byte_is s.bytes one b'='
    then (plain TokenKind.bang_eq (span_of s.offset two), moved s two)
    else (with_error (span_of s.offset one) Message.invalid_bang, moved s one)

unfoldable pub number_loop : ℕ → Bytes → DfaState → ℕ → DfaState × ℕ
number_loop zero bytes state i = (state, i)
number_loop (suc fuel) bytes state i =
    let c = classify_number_at bytes i in
    let next = transition state c.class in
    elim next [ DfaState.reject ↦ (state, i) | other ↦ number_loop fuel bytes other (i + c.width) ]

abbrev pub number_kind : DfaState → TokenKind
number_kind state = elim state [ DfaState.float ↦ TokenKind.float | _ ↦ TokenKind.integer ]

unfoldable pub scan_number : Lexer → Token × Lexer
scan_number s =
    let (state, end) = number_loop (fuel_of s.bytes) s.bytes DfaState.integer s.offset in
    let span = span_of s.offset end in
    (with_slice (number_kind state) span (from_span span), moved s end)

-- One round of the loop of `scan_string`.
pub data StringStep : Type 0 where
  more : ℕ → StringStep
  closed : ℕ → StringStep
  unterminated : ℕ → StringStep

unfoldable pub string_step : Bytes → ℕ → StringStep
string_step bytes i = elim (get_elem? bytes i) [
  | none ↦ unterminated i
  | some b ↦
      let escaped = i + max (current_width_at bytes i) 1 in
      if b == b'\\'
      then elim (get_elem? bytes escaped) [
        | none ↦ unterminated escaped
        | some c ↦
            if is_break c
            then unterminated escaped
            else more (escaped + max (current_width_at bytes escaped) 1)
      ]
      else if b == b'"'
      then closed i
      else if is_break b
      then unterminated i
      else more (i + (classify_string_at bytes i).width)
]

unfoldable pub string_loop : ℕ → Bytes → ℕ → StringStep
string_loop zero bytes i = more i
string_loop (suc fuel) bytes i =
    let step = string_step bytes i in elim step [ more j ↦ string_loop fuel bytes j | stop ↦ stop ]

-- `more` is what the loop gives on too little fuel.
unfoldable pub string_token : Lexer → StringStep → Token × Lexer
string_token s (closed content_end) =
    let start = s.offset + 1 in
    let end = content_end + 1 in
    (
      with_slice TokenKind.string (span_of s.offset end)
          (record { offset = as_u32 start; len = as_u32 (content_end - start) }),
      moved s end,
    )
string_token s (unterminated end) =
    (with_error (span_of s.offset end) Message.unterminated_string, moved s end)
string_token s (more end) =
    (with_error (span_of s.offset end) Message.unterminated_string, moved s end)

unfoldable pub scan_string : Lexer → Token × Lexer
unfolding string_token
scan_string s = string_token s (string_loop (fuel_of s.bytes) s.bytes (s.offset + 1))

-- `KEYWORDS.get` on the resolved word
unfoldable pub word_kind : Bytes → SliceRef → TokenKind
word_kind bytes symbol = elim (resolve bytes symbol) [
  | none ↦ TokenKind.identifier
  | some text ↦ elim (keyword text) [ none ↦ TokenKind.identifier | some kind ↦ kind ]
]

module _ (u : Unicode) where
  unfoldable pub identifier_loop : ℕ → Bytes → ℕ → ℕ
  identifier_loop zero bytes i = i
  identifier_loop (suc fuel) bytes i =
      let c = classify_identifier_at u bytes i in
      elim (transition DfaState.identifier c.class) [
        | DfaState.reject ↦ i
        | _ ↦ identifier_loop fuel bytes (i + c.width)
      ]

  unfoldable pub scan_identifier_or_keyword : Lexer → Token × Lexer
  scan_identifier_or_keyword s =
      let end = identifier_loop (fuel_of s.bytes) s.bytes s.offset in
      let span = span_of s.offset end in
      let symbol = from_span span in
      (with_slice (word_kind s.bytes symbol) span symbol, moved s end)
