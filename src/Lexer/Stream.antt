-- ===== src/Lexer/Stream.antt =====
-- crates/lexer/src/lexer.rs: `finish_eof`, `next_token` and `lex_all_in`. A round of the loop of
-- `next_token` either yields a token or goes on; `none` says that the fuel ran out.
pub mod Rounds
pub mod Total
pub mod Stuck
use thagore.Base.{
  ℕ, zero, suc, ◌+◌, Bool, true, false, not, ◌&&◌, List, [], ◌∷◌, Option, none, some, if◌then◌else◌,
  get_elem?,
}
use thagore.Lexer.Indentation.{prepare_logical_line}
use thagore.Lexer.Scan.{
  Lexer, new, span_of, fuel_of, skip_comment, consume_newline, consume_tab_error,
  consume_invalid_byte, single_byte_token, scan_minus_or_arrow, scan_equal_family, scan_less_family,
  scan_greater_family, scan_bang_family, scan_number, scan_string, scan_identifier_or_keyword,
}
use thagore.Lexer.Source.{Bytes, Unicode}
use thagore.Lexer.Table.{TokenAction, dispatch}
use thagore.Lexer.Token.{TokenKind, Token, plain}

-- The part of `finish_eof` behind the pending tokens.
close_levels : Lexer → List ℕ → Token × Lexer
close_levels s (top ∷ below ∷ rest) =
    (plain TokenKind.dedent (span_of s.offset s.offset), record s { indent_stack = below ∷ rest })
close_levels s _ =
    (plain TokenKind.eof (span_of s.offset s.offset), record s { emitted_eof = true })

unfoldable pub finish_eof : Lexer → Token × Lexer
unfolding close_levels
finish_eof s =
    let t = record s { reached_eof = true } in
    elim s.pending [
      | token ∷ rest ↦ (token, record t { pending = rest })
      | [] ↦ close_levels t s.indent_stack
    ]

pub data Step : Type 0 where
  yields : Token × Lexer → Step
  continues : Lexer → Step

abbrev pub is_eof : Token → Bool
is_eof t = elim t.kind [ TokenKind.eof ↦ true | _ ↦ false ]

-- `self.pending.pop_front()`, and what follows where nothing is pending.
abbrev pop_or : Lexer → List Token → Step → Step
pop_or s (token ∷ rest) other = yields (token, record s { pending = rest })
pop_or s [] other = other

abbrev pub prepared : Lexer → Lexer
prepared s = if s.line_start && not s.reached_eof then prepare_logical_line s else s

module _ (u : Unicode) where
  -- The `match` on the action of the byte at the offset.
  unfoldable pub act : TokenAction → Lexer → ℕ → Step
  act TokenAction.skip_space s b = continues (record s { offset = s.offset + 1 })
  act TokenAction.tab_error s b = yields (consume_tab_error s)
  act TokenAction.newline s b = yields (consume_newline s b)
  act TokenAction.comment s b =
      continues (record s { offset = skip_comment (fuel_of s.bytes) s.bytes s.offset })
  act TokenAction.identifier s b = yields (scan_identifier_or_keyword u s)
  act TokenAction.unicode_identifier s b = yields (scan_identifier_or_keyword u s)
  act TokenAction.number s b = yields (scan_number s)
  act TokenAction.string s b = yields (scan_string s)
  act TokenAction.plus s b = yields (single_byte_token s TokenKind.plus)
  act TokenAction.minus s b = yields (scan_minus_or_arrow s)
  act TokenAction.star s b = yields (single_byte_token s TokenKind.star)
  act TokenAction.slash s b = yields (single_byte_token s TokenKind.slash)
  act TokenAction.percent s b = yields (single_byte_token s TokenKind.percent)
  act TokenAction.equal s b = yields (scan_equal_family s)
  act TokenAction.bang s b = yields (scan_bang_family s)
  act TokenAction.less s b = yields (scan_less_family s)
  act TokenAction.greater s b = yields (scan_greater_family s)
  act TokenAction.colon s b = yields (single_byte_token s TokenKind.colon)
  act TokenAction.comma s b = yields (single_byte_token s TokenKind.comma)
  act TokenAction.dot s b = yields (single_byte_token s TokenKind.dot)
  act TokenAction.l_paren s b = yields (single_byte_token s TokenKind.l_paren)
  act TokenAction.r_paren s b = yields (single_byte_token s TokenKind.r_paren)
  act TokenAction.l_bracket s b = yields (single_byte_token s TokenKind.l_bracket)
  act TokenAction.r_bracket s b = yields (single_byte_token s TokenKind.r_bracket)
  act TokenAction.invalid s b = yields (consume_invalid_byte s)

  unfoldable pub read_token : Lexer → Step
  read_token s = elim (get_elem? s.bytes s.offset) [
    | none ↦ yields (finish_eof s)
    | some b ↦ act (dispatch b) s b
  ]

  -- One round of the loop of `next_token`.
  unfoldable pub next_step : Lexer → Step
  next_step s = let t = prepared s in pop_or s s.pending (pop_or t t.pending (read_token t))

  unfoldable pub next_loop : ℕ → Lexer → Option (Token × Lexer)
  next_loop zero s = none
  next_loop (suc fuel) s = elim (next_step s) [ yields r ↦ some r | continues t ↦ next_loop fuel t ]

  unfoldable pub next_token : Lexer → Option (Token × Lexer)
  next_token s = next_loop (suc (fuel_of s.bytes)) s

  unfoldable pub lex_loop : ℕ → Lexer → Option (List Token × Lexer)
  lex_loop zero s = none
  lex_loop (suc fuel) s = elim (next_token s) [
    | none ↦ none
    | some (token, t) ↦ elim (is_eof token) [
      | true ↦ some (token ∷ [], t)
      | false ↦ elim (lex_loop fuel t) [
        | none ↦ none
        | some (tokens, last) ↦ some (token ∷ tokens, last)
      ]
    ]
  ]

  -- `Lexer::new(source).lex_all_in(arena)`
  unfoldable pub lex_all_in : ℕ → Bytes → Option (List Token × Lexer)
  lex_all_in fuel source = lex_loop fuel (new source)
