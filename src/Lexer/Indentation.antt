-- ===== src/Lexer/Indentation.antt =====
-- crates/lexer/src/lexer.rs: `prepare_logical_line` and `apply_indentation`, which skip blank lines
-- and turn the indentation of a line into pending tokens.
pub mod Levels
pub mod Target
pub mod Content
pub mod Lines
use thagore.Base.{
  ℕ, zero, suc, ◌+◌, ◌-◌, ◌%◌, Bool, true, false, List, [], ◌∷◌, ◌++◌, none, some, ltb, leb, ◌==◌,
  if◌then◌else◌, get_elem?, as_u32,
}
use thagore.Lexer.Scan.{Lexer, span_of, fuel_of, is_break, break_end, skip_comment}
use thagore.Lexer.Source.{Bytes}
use thagore.Lexer.Token.{TokenKind, Message, Token, plain, with_error}

-- The loop over the leading spaces: the cursor behind them, their number, and `saw_tab`.
unfoldable pub indent_loop : ℕ → Bytes → ℕ → ℕ → ℕ × ℕ × Bool
indent_loop zero bytes cursor spaces = (cursor, spaces, false)
indent_loop (suc fuel) bytes cursor spaces = elim (get_elem? bytes cursor) [
  | none ↦ (cursor, spaces, false)
  | some b ↦ elim (b == b' ') [
    | true ↦ indent_loop fuel bytes (cursor + 1) (as_u32 (spaces + 1))
    | false ↦ if b == b'\t' then (cursor + 1, spaces, true) else (cursor, spaces, false)
  ]
]

-- `*self.indent_stack.last().unwrap_or(&0)`
abbrev pub top_or_zero : List ℕ → ℕ
top_or_zero [] = 0
top_or_zero (top ∷ rest) = top

-- The `while let` of `apply_indentation`: a `Dedent` for every level that is popped.
unfoldable pub unwind : ℕ → Token → List ℕ → List Token → List ℕ × List Token
unwind target dedent [] out = ([], out)
unwind target dedent (top ∷ rest) out =
    if leb top target then (top ∷ rest, out) else unwind target dedent rest (out ++ dedent ∷ [])

-- The branch `effective_spaces < current`.
unfoldable pub dedent_to : Lexer → ℕ → ℕ → ℕ → Lexer
dedent_to s line_offset target cursor =
    let dedent = plain TokenKind.dedent (span_of cursor cursor) in
    let (stack, out) = unwind target dedent s.indent_stack s.pending in
    if top_or_zero stack == target
    then record s { indent_stack = stack; pending = out }
    else record s {
      indent_stack = target ∷ stack;
      pending = out ++ with_error (span_of line_offset cursor) Message.inconsistent_dedent ∷ [];
    }

-- The comparison with the current level.
unfoldable pub set_level : Lexer → ℕ → ℕ → ℕ → Lexer
set_level s line_offset target cursor =
    let current = top_or_zero s.indent_stack in
    if ltb current target
    then record s {
      indent_stack = target ∷ s.indent_stack;
      pending = s.pending ++ plain TokenKind.indent (span_of cursor cursor) ∷ [];
    }
    else if ltb target current
    then dedent_to s line_offset target cursor
    else s

unfoldable pub apply_indentation : Lexer → ℕ → ℕ → ℕ → Lexer
apply_indentation s line_offset spaces cursor =
    if spaces % 2 == 0
    then set_level s line_offset spaces cursor
    else set_level
        (record s {
          pending =
              s.pending ++ with_error (span_of line_offset cursor) Message.invalid_indentation ∷ [];
        })
        line_offset (spaces - 1) cursor

-- One round of the loop of `prepare_logical_line`: it goes on behind a blank line.
pub data LineStep : Type 0 where
  again : Lexer → LineStep
  done : Lexer → LineStep

-- The line break behind a comment, if the text goes on.
abbrev pub comment_end : Bytes → ℕ → ℕ
comment_end bytes stop = elim (get_elem? bytes stop) [
  | none ↦ stop
  | some b ↦ if is_break b then break_end bytes stop b else stop
]

-- The `match` on the byte behind the spaces.
unfoldable pub line_at : Lexer → ℕ → ℕ → LineStep
line_at s cursor spaces = elim (get_elem? s.bytes cursor) [
  | none ↦ done (record s { reached_eof = true; offset = cursor })
  | some b ↦
      if is_break b
      then again (record s { offset = break_end s.bytes cursor b; line_start = true })
      else if b == b'#'
      then again (record s {
        offset = comment_end s.bytes (skip_comment (fuel_of s.bytes) s.bytes cursor);
        line_start = true;
      })
      else done (record (apply_indentation (record s { offset = cursor }) s.offset spaces cursor) {
        line_start = false;
      })
]

-- What follows the loop over the spaces.
abbrev line_indented : Lexer → ℕ × ℕ × Bool → LineStep
line_indented s (cursor, spaces, saw_tab) =
    if saw_tab
    then done (record s {
      offset = cursor;
      line_start = false;
      pending = s.pending ++ with_error (span_of s.offset cursor) Message.tab_indentation ∷ [];
    })
    else line_at s cursor spaces

unfoldable pub line_step : Lexer → LineStep
line_step s = elim (get_elem? s.bytes s.offset) [
  | none ↦ done (record s { reached_eof = true })
  | some b ↦ line_indented s (indent_loop (fuel_of s.bytes) s.bytes s.offset 0)
]

unfoldable pub line_loop : ℕ → Lexer → Lexer
line_loop zero s = s
line_loop (suc fuel) s = elim (line_step s) [ again t ↦ line_loop fuel t | done t ↦ t ]

unfoldable pub prepare_logical_line : Lexer → Lexer
prepare_logical_line s = line_loop (fuel_of s.bytes) s
