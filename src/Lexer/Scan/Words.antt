-- ===== src/Lexer/Scan/Words.antt =====
-- Identifiers and reserved words (crates/lexer/src/lexer.rs, `scan_identifier_or_keyword`).
use thagore.Base.{
  ℕ, ◌+◌, ◌<◌, ◌≡◌, ◌↔◌, ap, inl, inr, Bool, true, false, none, some, get_elem?, take, drop, ◌-◌,
  length, arith, Option-cases, ◌==◌, ◌&&◌, ◌||◌, leb, as_u32-eq, u32_limit,
}
use thagore.Lexer.Keywords.Laws.{Entry, keyword_iff}
use thagore.Lexer.Keywords.{keywords, keyword}
use thagore.Lexer.Scan.{
  Lexer, span_of, fuel_of, identifier_loop, word_kind, scan_identifier_or_keyword,
}
use thagore.Lexer.Scan.Loops.{identifier_loop-Reaches}
use thagore.Lexer.Source.Boundary.{IsStr, is_char_boundary-le}
use thagore.Lexer.Source.{
  Bytes, resolve, is_char_boundary, Unicode, is_alphanumeric, code_point, lead_width,
}
use thagore.Lexer.Table.{is_digit, is_ident_start}
use thagore.Lexer.Token.{TokenKind, SliceRef, is_keyword, from_span}

abbrev pub word_code : Unicode → ℕ → Bool
word_code u c = c == b'_' || is_alphanumeric u c

-- The character at `i` may stand in a word: an ASCII letter, digit or underscore, or a letter or
-- digit outside ASCII.
abbrev pub word_char : Unicode → Bytes → ℕ → Bool
word_char u bytes i = elim (get_elem? bytes i) [
  | none ↦ false
  | some b ↦
      is_ident_start b
      || is_digit b
      || leb 0x80 b && leb b 0xff && word_code u (code_point bytes i b)
]

-- The width of the character at `i`.
abbrev pub char_width : Bytes → ℕ → ℕ
char_width bytes i = elim (get_elem? bytes i) [ none ↦ 0 | some b ↦ lead_width b ]

-- The characters from `i` to `j` are those of a word, and the word does not go on.
pub data IsWord (u : Unicode) (bytes : Bytes) : ℕ → ℕ → Type 0 where
  ends : {i j : ℕ} → i ≡ j → word_char u bytes i ≡ false → IsWord u bytes i j
  goes :
      {i j : ℕ}
      → word_char u bytes i ≡ true
      → IsWord u bytes (i + char_width bytes i) j
      → IsWord u bytes i j

-- The bytes of the word at the offset.
abbrev pub word_text : Unicode → Lexer → Bytes
word_text u s =
    let end = (scan_identifier_or_keyword u s).1.offset in
    take (end - s.offset) (drop s.offset s.bytes)

word_kind_iff :
    (bytes : Bytes) (r : SliceRef) (text : Bytes) (kind : TokenKind)
    → is_keyword kind ≡ true
    → resolve bytes r ≡ some text
    → (word_kind bytes r ≡ kind) ↔ (keyword text ≡ some kind)
unfolding word_kind is_keyword
word_kind_iff bytes r text kind k e = elim (Option-cases (keyword text)) [
  | inl f ↦ rw (e, word_kind) (rw (f, word_kind) (λ p. absurd (ground arith), λ p. cc))
  | inr (found, f) ↦ rw (e, word_kind) (rw (f, word_kind) (λ p. ap some p, λ p. cc))
]

module _ (u : Unicode) (s : Lexer) (str : IsStr s.bytes)
    (h : is_char_boundary s.bytes s.offset ≡ true) (small : length s.bytes < u32_limit) where
  -- The interner finds the word.
  resolve-word :
      resolve s.bytes (from_span (span_of s.offset (scan_identifier_or_keyword u s).1.offset))
      ≡ some (word_text u s)
  unfolding resolve scan_identifier_or_keyword
  resolve-word =
      let end = identifier_loop u (fuel_of s.bytes) s.bytes s.offset in
      let reach = identifier_loop-Reaches s.bytes str u (fuel_of s.bytes) s.offset h in
      let within = is_char_boundary-le s.bytes end reach.boundary in
      ground (
        arith,
        reach,
        h,
        within,
        as_u32-eq s.offset (omega (arith, reach.after)),
        as_u32-eq end (omega arith),
      )

  -- At a character boundary of a UTF-8 text of fewer than 2^32 bytes, the token of a word is of a
  -- given reserved kind if and only if `KEYWORDS` has the text of the word with that kind.
  pub scan_identifier-kind_iff :
      (kind : TokenKind)
      → is_keyword kind ≡ true
      → ((scan_identifier_or_keyword u s).0.kind ≡ kind) ↔ Entry keywords (word_text u s) kind
  unfolding scan_identifier_or_keyword
  scan_identifier-kind_iff kind k =
      let entry = keyword_iff (word_text u s) kind in
      let found = word_kind_iff s.bytes _ (word_text u s) kind k resolve-word in
      (λ p. entry.0 (found.0 p), λ p. found.1 (entry.1 p))
