-- ===== src/Lexer/Indentation/Lines.antt =====
-- `prepare_logical_line` (crates/lexer/src/lexer.rs) from state to state.
use Prim.Native.Nat.{max}
use thagore.Base.{
  ℕ, zero, suc, ◌+◌, ◌≤◌, ◌<◌, ◌≡◌, refl, ◌⊎◌, inl, inr, Bool, true, false, none, some, [], ◌∷◌,
  length, length-append, get_elem?, arith, as_u32, if◌then◌else◌,
}
use thagore.Lexer.Indentation.Content.{
  IsBlankLine, IsBlankLines, nil, line, Ending, Ends, line_step-Ends,
}
use thagore.Lexer.Indentation.Levels.{
  IsLevels, raised-append, lowered-append, endings-append, Balanced, apply_indentation-Indented,
}
use thagore.Lexer.Indentation.{
  indent_loop, LineStep, again, done, comment_end, line_at, line_step, line_loop,
  prepare_logical_line,
}
use thagore.Lexer.Scan.Loops.{skip_comment-Reaches, at_break}
use thagore.Lexer.Scan.Tokens.{role}
use thagore.Lexer.Scan.{Lexer, span_of, fuel_of, is_break, break_end, skip_comment}
use thagore.Lexer.Source.Boundary.{
  IsStr, Reaches, Reaches-refl, boundary-Character, is_char_boundary-le,
}
use thagore.Lexer.Source.{Bytes, byte_or, is_char_boundary, current_width_at}
use thagore.Lexer.Token.{Message, with_error}

module _ (bytes : Bytes) (str : IsStr bytes) where
  pub indent_loop-Reaches :
      (fuel cursor spaces : ℕ)
      → is_char_boundary bytes cursor ≡ true
      → Reaches bytes cursor (indent_loop fuel bytes cursor spaces).0
  unfolding indent_loop
  indent_loop-Reaches zero cursor spaces h = Reaches-refl bytes cursor h
  indent_loop-Reaches (suc fuel) cursor spaces h = ground (
    arith,
    boundary-Character bytes str cursor h,
    indent_loop-Reaches fuel (cursor + 1) (as_u32 (spaces + 1)),
  )

  -- Behind a line break stands a boundary.
  break_end-Reaches :
      (i b : ℕ)
      → is_char_boundary bytes i ≡ true
      → get_elem? bytes i ≡ some b
      → is_break b ≡ true
      → Reaches bytes (i + 1) (break_end bytes i b)
  break_end-Reaches i b h e k =
      ground (arith, boundary-Character bytes str i h, boundary-Character bytes str (i + 1))

  comment_end-Reaches :
      (i : ℕ) → is_char_boundary bytes i ≡ true → Reaches bytes i (comment_end bytes i)
  comment_end-Reaches i h =
      ground (arith, boundary-Character bytes str i h, boundary-Character bytes str (i + 1))

-- A comment is not empty.
pub skip_comment-lt :
    (bytes : Bytes)
    → IsStr bytes
    → (fuel i : ℕ) → is_char_boundary bytes i ≡ true
    → at_break bytes i ≡ false
    → i < skip_comment (suc fuel) bytes i
unfolding skip_comment
skip_comment-lt bytes str fuel i h k = ground (
  arith,
  boundary-Character bytes str i h,
  skip_comment-Reaches bytes str fuel (i + max (current_width_at bytes i) 1),
)

-- Only the offset moves.
pub record Skipped (s t : Lexer) : Type 0 where
  pub bytes : t.bytes ≡ s.bytes
  pub pending : t.pending ≡ s.pending
  pub levels : t.indent_stack ≡ s.indent_stack
  pub reached : t.reached_eof ≡ s.reached_eof
  pub started : t.line_start ≡ true
  pub forward : s.offset < t.offset
  pub boundary : is_char_boundary s.bytes t.offset ≡ true

-- What a line that is to be prepared still weighs.
abbrev pub start_weight : Bool → ℕ
start_weight b = if b then 3 else 0

pub record Prepared (s t : Lexer) : Type 0 where
  pub bytes : t.bytes ≡ s.bytes
  pub forward : s.offset ≤ t.offset
  pub boundary : is_char_boundary s.bytes t.offset ≡ true
  pub levels : IsLevels t.indent_stack
  pub balanced : Balanced s t
  pub weight :
      start_weight t.line_start + length t.pending + length t.indent_stack
      ≤ length s.pending + length s.indent_stack + 3
  pub ready : (t.line_start ≡ false) ⊎ (t.reached_eof ≡ true)
  pub ended : t.reached_eof ≡ true → get_elem? s.bytes t.offset ≡ none

abbrev Stepped : Lexer → LineStep → Type 0
Stepped s (again t) = Skipped s t
Stepped s (done t) = Prepared s t

module _ (s : Lexer) (str : IsStr s.bytes) (h : is_char_boundary s.bytes s.offset ≡ true)
    (levels : IsLevels s.indent_stack) (fresh : s.reached_eof ≡ false) where
  line_at-Stepped :
      (cursor spaces : ℕ) → Reaches s.bytes s.offset cursor → Stepped s (line_at s cursor spaces)
  unfolding line_at
  line_at-Stepped cursor spaces r =
      let stop = skip_comment (fuel_of s.bytes) s.bytes cursor in
      let moved = record s { offset = cursor } in
      let b = byte_or s.bytes cursor in
      ground (
        arith,
        break_end-Reaches s.bytes str cursor b r.boundary,
        skip_comment-lt s.bytes str (length s.bytes) cursor r.boundary,
        skip_comment-Reaches s.bytes str (fuel_of s.bytes) cursor r.boundary,
        comment_end-Reaches s.bytes str stop,
        apply_indentation-Indented moved s.offset spaces cursor levels,
      )

  line_step-Stepped : Stepped s (line_step s)
  unfolding line_step role
  line_step-Stepped =
      let r = indent_loop (fuel_of s.bytes) s.bytes s.offset 0 in
      let mark = with_error (span_of s.offset r.0) Message.tab_indentation in
      let reach = indent_loop-Reaches s.bytes str (fuel_of s.bytes) s.offset 0 h in
      ground (
        arith,
        reach,
        line_at-Stepped r.0 r.1 reach,
        raised-append s.pending (mark ∷ []),
        lowered-append s.pending (mark ∷ []),
        endings-append s.pending (mark ∷ []),
        length-append s.pending (mark ∷ []),
      )

LineStep-cases : (r : LineStep) → ((t : Lexer) × (r ≡ again t)) ⊎ ((t : Lexer) × (r ≡ done t))
LineStep-cases (again t) = inl (t, refl)
LineStep-cases (done t) = inr (t, refl)

Skipped-Prepared : {s t u : Lexer} → Skipped s t → Prepared t u → Prepared s u
Skipped-Prepared k p = ground arith

-- The blank lines that the preparation passes, and where it ends on the line behind them.
pub record Passed (s t : Lexer) : Type 0 where
  pub start : ℕ
  pub blank_lines : IsBlankLines s.bytes s.offset start
  pub ending : Ending s.bytes start t

Passed-later :
    {s t u : Lexer}
    → t.bytes ≡ s.bytes
    → IsBlankLine s.bytes s.offset t.offset
    → Passed t u
    → Passed s u
Passed-later {s} {t} {u} e l p = record {
  start = p.start;
  blank_lines = line l (rw e at p.blank_lines);
  ending = rw e at p.ending;
}

line_loop-Prepared :
    (fuel : ℕ) (s : Lexer)
    → IsStr s.bytes
    → is_char_boundary s.bytes s.offset ≡ true
    → IsLevels s.indent_stack
    → s.reached_eof ≡ false
    → length s.bytes < s.offset + fuel
    → Prepared s (line_loop fuel s) × Passed s (line_loop fuel s)
unfolding line_loop
line_loop-Prepared zero s str h levels fresh lt =
    absurd (omega (arith, is_char_boundary-le s.bytes s.offset h))
line_loop-Prepared (suc fuel) s str h levels fresh lt = elim (LineStep-cases (line_step s)) [
  | inl (t, e) ↦
      let k : Skipped s t = rw e at (line_step-Stepped s str h levels fresh) in
      let l : Ends s (again t) = rw e at (line_step-Ends s levels) in
      let (p, q) =
        line_loop-Prepared fuel t (rw k.bytes str) (ground arith) (ground arith) (ground arith)
          (ground arith) in
      rw (e, line_loop) (Skipped-Prepared k p, Passed-later k.bytes l q)
  | inr (t, e) ↦
      let l : Ends s (done t) = rw e at (line_step-Ends s levels) in
      rw (e, line_loop)
        (
          rw e at (line_step-Stepped s str h levels fresh),
          record { start = s.offset; blank_lines = nil; ending = l },
        )
]

-- From a character boundary of a UTF-8 text whose end has not been reached, and a stack of even
-- levels that grow from 0, `prepare_logical_line` passes lines that are blank but for a comment, and ends on the line
-- behind them: behind its spaces and before a byte that is no space, tab, line break or `#`, behind its spaces and a
-- tab, or behind its spaces at the end of the text. The text is the same, the offset is a character boundary no
-- earlier, the levels are even and grow from 0, and the pending tokens account for every change of the level stack.
pub prepare_logical_line-Prepared :
    (s : Lexer)
    → IsStr s.bytes
    → is_char_boundary s.bytes s.offset ≡ true
    → IsLevels s.indent_stack
    → s.reached_eof ≡ false
    → Prepared s (prepare_logical_line s) × Passed s (prepare_logical_line s)
unfolding prepare_logical_line
prepare_logical_line-Prepared s str h levels fresh =
    line_loop-Prepared (fuel_of s.bytes) s str h levels fresh (omega arith)
