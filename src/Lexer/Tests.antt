-- ===== src/Lexer/Tests.antt =====
-- Runs of the lexer on small texts.
use thagore.Base.{
  ℕ, false, List, [], ◌∷◌, ◌≡◌, refl, Option, none, some, true, arith, get_elem?, ◌↔◌, map, leb,
  as_u32,
}
use thagore.Lexer.Indentation.{
  indent_loop, unwind, dedent_to, set_level, apply_indentation, line_at, line_step, line_loop,
  prepare_logical_line,
}
use thagore.Lexer.Source.Ascii.{is_ascii, is_ascii-IsStr}
use thagore.Lexer.Source.Boundary.{IsStr}
use thagore.Lexer.Stream.Rounds.{IsLexable, is_ascii-IsLexable, IsWellFormed}
use thagore.Lexer.Stream.Total.{
  lex_fuel, EndsWithEof, Gives, lex_all_in_total, lex_all_in-balanced, next_token_total,
}
use thagore.Lexer.Indentation.Levels.{raised, lowered}
use thagore.Lexer.Indentation.Target.{Leveled, target_of, apply_indentation-Leveled}
use thagore.Lexer.Indentation.Lines.{Prepared, Passed, prepare_logical_line-Prepared}
use thagore.Lexer.Scan.Strings.{IsContent, quoted, scan_string_iff}
use thagore.Lexer.Scan.Literals.{IsNumber, numeral, scan_number-IsNumber}
use thagore.Lexer.Scan.Words.{word_text, scan_identifier-kind_iff}
use thagore.Lexer.Stream.Stuck.{lex_all_in-stuck}
use thagore.Lexer.Keywords.Laws.{Entry}
use thagore.Lexer.Keywords.{codes, keyword, keywords}
use thagore.Lexer.Scan.{
  Lexer, new, skip_comment, consume_newline, consume_tab_error, consume_invalid_byte,
  single_byte_token, scan_minus_or_arrow, scan_equal_family, scan_less_family, scan_greater_family,
  scan_bang_family, number_loop, scan_number, string_step, string_loop, scan_string,
  identifier_loop, word_kind, scan_identifier_or_keyword,
}
use thagore.Lexer.Source.{
  Bytes, Unicode, lead_width, code_point, is_char_boundary, current_width_at, resolve,
  classify_unicode_identifier, classify_identifier_at, classify_number_at, classify_string_at,
}
use thagore.Lexer.Stream.{
  finish_eof, act, read_token, next_step, next_loop, next_token, lex_loop, lex_all_in,
}
use thagore.Lexer.Table.{dispatch, transition}
use thagore.Lexer.Token.{is_keyword, TokenKind, Token}

-- U+00C0 to U+024F are the letters beyond ASCII that the tests use.
abbrev latin : Unicode
latin = record { is_alphabetic = λ c. leb 0xc0 c; is_numeric = λ c. false }

abbrev kinds : Option (List Token × Lexer) → List TokenKind
kinds none = []
kinds (some (tokens, s)) = map (λ t. t.kind) tokens

-- The token kinds of a text.
abbrev lex : ℕ → Bytes → List TokenKind
unfolding as_u32 lead_width code_point is_char_boundary current_width_at resolve
    classify_unicode_identifier classify_identifier_at classify_number_at classify_string_at
    dispatch transition keyword skip_comment consume_newline consume_tab_error consume_invalid_byte
    single_byte_token scan_minus_or_arrow scan_equal_family scan_less_family scan_greater_family
    scan_bang_family number_loop scan_number string_step string_loop scan_string identifier_loop
    word_kind scan_identifier_or_keyword indent_loop unwind dedent_to set_level apply_indentation
    line_at line_step line_loop prepare_logical_line finish_eof act read_token next_step next_loop
    next_token lex_loop lex_all_in
lex fuel text = kinds (lex_all_in latin fuel text)

lex_nested :
    lex 40 (codes "if a:\n  b = 1.5\n")
    ≡ TokenKind.kw_if ∷ TokenKind.identifier ∷ TokenKind.colon ∷ TokenKind.newline
      ∷ TokenKind.indent ∷ TokenKind.identifier ∷ TokenKind.assign ∷ TokenKind.float
      ∷ TokenKind.newline ∷ TokenKind.dedent ∷ TokenKind.eof ∷ []
unfolding lex
lex_nested = refl

abbrev nested : Bytes
nested = codes "if a:\n  b = 1.5\n"

nested-is_ascii : is_ascii nested ≡ true
unfolding is_ascii
nested-is_ascii = refl

nested-IsStr : IsStr nested
nested-IsStr = is_ascii-IsStr nested nested-is_ascii

nested-IsLexable : IsLexable latin nested
nested-IsLexable = is_ascii-IsLexable latin nested nested-is_ascii

-- The lexer in the middle of a line.
abbrev inside : Bytes → ℕ → Lexer
inside text offset = record (new text) { offset = offset; line_start = false }

nested-IsWellFormed : IsWellFormed (inside nested 3)
unfolding is_char_boundary
nested-IsWellFormed = record { boundary = refl; levels = refl; open_end = refl; ended = λ h. cc }

lex_all_in_total_example :
    (tokens : List Token) × (last : Lexer) × (lex_all_in latin (lex_fuel nested) nested
      ≡ some (tokens, last))
    × EndsWithEof tokens
lex_all_in_total_example =
    lex_all_in_total latin nested nested-IsStr nested-IsLexable (lex_fuel nested) (omega arith)

next_token_total_example : Gives (inside nested 3) (next_token latin (inside nested 3))
next_token_total_example =
    next_token_total latin (inside nested 3) nested-IsStr nested-IsLexable nested-IsWellFormed

abbrev tokens_of : Option (List Token × Lexer) → List Token
tokens_of none = []
tokens_of (some (tokens, s)) = tokens

abbrev last_of : Option (List Token × Lexer) → Lexer
last_of none = new []
last_of (some (tokens, s)) = s

abbrev nested_run : Option (List Token × Lexer)
nested_run = lex_all_in latin (lex_fuel nested) nested

nested-returns : nested_run ≡ some (tokens_of nested_run, last_of nested_run)
unfolding as_u32 lead_width code_point is_char_boundary current_width_at resolve
    classify_unicode_identifier classify_identifier_at classify_number_at classify_string_at
    dispatch transition keyword skip_comment consume_newline consume_tab_error consume_invalid_byte
    single_byte_token scan_minus_or_arrow scan_equal_family scan_less_family scan_greater_family
    scan_bang_family number_loop scan_number string_step string_loop scan_string identifier_loop
    word_kind scan_identifier_or_keyword indent_loop unwind dedent_to set_level apply_indentation
    line_at line_step line_loop prepare_logical_line finish_eof act read_token next_step next_loop
    next_token lex_loop lex_all_in
nested-returns = refl

lex_all_in-balanced_example : lowered (tokens_of nested_run) ≡ raised (tokens_of nested_run)
lex_all_in-balanced_example =
    lex_all_in-balanced latin nested nested-IsStr nested-IsLexable (lex_fuel nested)
      (tokens_of nested_run) (last_of nested_run) (omega arith) nested-returns

scan_string_iff_example :
    (scan_string (inside (codes "\"a\"") 0)
      ≡ (quoted 0 2, record (inside (codes "\"a\"") 0) { offset = 3; line_start = false }))
    ↔ (IsContent (codes "\"a\"") 1 2 × (get_elem? (codes "\"a\"") 2 ≡ some b'"'))
unfolding is_ascii is_char_boundary
scan_string_iff_example =
    scan_string_iff (inside (codes "\"a\"") 0) 2 (is_ascii-IsStr (codes "\"a\"") refl) refl refl

scan_number-IsNumber_example :
    (kind : TokenKind) × (j : ℕ) × IsNumber nested 13 kind j
    × (scan_number (inside nested 13)
        ≡ (numeral kind 13 j, record (inside nested 13) { offset = j; line_start = false }))
scan_number-IsNumber_example = scan_number-IsNumber (inside nested 13)

scan_identifier-kind_iff_example :
    ((scan_identifier_or_keyword latin (inside nested 0)).0.kind ≡ TokenKind.kw_if)
    ↔ Entry keywords (word_text latin (inside nested 0)) TokenKind.kw_if
unfolding is_char_boundary is_keyword
scan_identifier-kind_iff_example =
    scan_identifier-kind_iff latin (inside nested 0) nested-IsStr refl (omega arith) TokenKind.kw_if
      refl

apply_indentation-Leveled_example :
    Leveled (target_of 3) (inside nested 9) (apply_indentation (inside nested 9) 6 3 9)
apply_indentation-Leveled_example = apply_indentation-Leveled (inside nested 9) 6 3 9 refl

-- The lexer at the second line.
abbrev second_line : Lexer
second_line = record (new nested) { offset = 6 }

prepare_logical_line-Prepared_example :
    Prepared second_line (prepare_logical_line second_line)
    × Passed second_line (prepare_logical_line second_line)
unfolding is_char_boundary
prepare_logical_line-Prepared_example =
    prepare_logical_line-Prepared second_line nested-IsStr refl refl refl

-- U+20AC, the euro sign.
abbrev euro : Bytes
euro = 0xe2 ∷ 0x82 ∷ 0xac ∷ []

-- No character beyond ASCII is a letter.
abbrev ascii_only : Unicode
ascii_only = record { is_alphabetic = λ c. false; is_numeric = λ c. false }

lex_all_in-stuck_example : lex_all_in ascii_only 40 euro ≡ none
unfolding transition classify_identifier_at classify_unicode_identifier current_width_at lead_width
    code_point
lex_all_in-stuck_example =
    lex_all_in-stuck ascii_only 0xe2 (0x82 ∷ 0xac ∷ []) (omega arith) (omega arith) refl 40
