-- ===== src/Lexer/Stream/Stuck.antt =====
-- At a non-ASCII character that is neither a letter nor a digit `scan_identifier_or_keyword`
-- (crates/lexer/src/lexer.rs) consumes nothing, so `lex_all_in` does not return.
use thagore.Base.{ℕ, zero, suc, ◌≤◌, ◌≡◌, refl, false, none, some, [], ◌∷◌, get_elem?, arith}
use thagore.Lexer.Indentation.{
  indent_loop, apply_indentation, set_level, line_at, line_step, line_loop, prepare_logical_line,
}
use thagore.Lexer.Scan.Tokens.{word_kind-role}
use thagore.Lexer.Scan.{Lexer, new, span_of, fuel_of, identifier_loop, scan_identifier_or_keyword}
use thagore.Lexer.Source.{Bytes, Unicode, classify_identifier_at}
use thagore.Lexer.Stream.Total.{eof-role}
use thagore.Lexer.Stream.{
  yields, act, read_token, next_step, next_loop, next_token, lex_loop, lex_all_in, is_eof,
}
use thagore.Lexer.Table.{TokenAction, DfaState, dispatch, transition}
use thagore.Lexer.Token.{Token, from_span}

-- The lexer stands inside a line at a non-ASCII character that no identifier may hold.
pub record IsAtSymbol (u : Unicode) (s : Lexer) : Type 0 where
  pub idle : s.pending ≡ []
  pub inside_line : s.line_start ≡ false
  pub byte : ℕ
  pub here : get_elem? s.bytes s.offset ≡ some byte
  pub non_ascii : (0x80 ≤ byte) × (byte ≤ 0xff)
  pub refused :
      transition DfaState.identifier (classify_identifier_at u s.bytes s.offset).class
      ≡ DfaState.reject

dispatch-non_ascii : (b : ℕ) → 0x80 ≤ b → b ≤ 0xff → dispatch b ≡ TokenAction.unicode_identifier
unfolding dispatch
dispatch-non_ascii b lo hi = ground arith

module _ (u : Unicode) (s : Lexer) (at_symbol : IsAtSymbol u s) where
  abbrev token : Token
  token = (scan_identifier_or_keyword u s).0

  -- The scanner gives a token of no bytes and the state it was called in.
  scan-same : (scan_identifier_or_keyword u s).1 ≡ s
  unfolding scan_identifier_or_keyword identifier_loop
  scan-same = ground arith

  next_step-same : next_step u s ≡ yields (token, s)
  unfolding next_step read_token act
  next_step-same = ground (arith, dispatch-non_ascii at_symbol.byte, scan-same)

  next_token-same : next_token u s ≡ some (token, s)
  unfolding next_token next_loop
  next_token-same = ground (arith, next_step-same)

  token-is_eof : is_eof token ≡ false
  unfolding scan_identifier_or_keyword
  token-is_eof =
      let end = identifier_loop u (fuel_of s.bytes) s.bytes s.offset in
      let span = span_of s.offset end in
      ground (arith, eof-role token, word_kind-role s.bytes (from_span span) span)

  -- However long the loop of `lex_all_in` runs, it reads the same empty token.
  pub lex_loop-stuck : (fuel : ℕ) → lex_loop u fuel s ≡ none
  unfolding lex_loop
  lex_loop-stuck zero = refl
  lex_loop-stuck (suc fuel) = ground (arith, next_token-same, token-is_eof, lex_loop-stuck fuel)

-- The first line of a text that starts with neither blank nor comment.
prepare-new :
    (b : ℕ) (rest : Bytes)
    → 0x80 ≤ b
    → prepare_logical_line (new (b ∷ rest)) ≡ record (new (b ∷ rest)) { line_start = false }
unfolding prepare_logical_line line_loop line_step indent_loop line_at apply_indentation set_level
prepare-new b rest h = ground arith

module _ (u : Unicode) (b : ℕ) (rest : Bytes) (lo : 0x80 ≤ b) (hi : b ≤ 0xff)
    (refused : transition DfaState.identifier (classify_identifier_at u (b ∷ rest) 0).class
      ≡ DfaState.reject) where
  abbrev started : Lexer
  started = record (new (b ∷ rest)) { line_start = false }

  started-IsAtSymbol : IsAtSymbol u started
  started-IsAtSymbol = record {
    idle = refl;
    inside_line = refl;
    byte = b;
    here = refl;
    non_ascii = (lo, hi);
    refused = refused;
  }

  next_step-started : next_step u (new (b ∷ rest)) ≡ next_step u started
  unfolding next_step
  next_step-started = rw (prepare-new b rest lo)

  -- On a text that starts with a non-ASCII character which is neither a letter nor a digit,
  -- `lex_all_in` does not return, however many tokens it reads.
  pub lex_all_in-stuck : (fuel : ℕ) → lex_all_in u fuel (b ∷ rest) ≡ none
  unfolding lex_all_in lex_loop next_token next_loop
  lex_all_in-stuck zero = refl
  lex_all_in-stuck (suc fuel) = ground (
    arith,
    next_step-started,
    next_step-same u started started-IsAtSymbol,
    token-is_eof u started started-IsAtSymbol,
    lex_loop-stuck u started started-IsAtSymbol fuel,
  )
