-- ===== src/Lexer/Indentation/Content.antt =====
-- What `prepare_logical_line` (crates/lexer/src/lexer.rs) passes and where it ends, by the bytes of the text.
use thagore.Base.{
  ℕ, zero, suc, ◌+◌, ◌<◌, ◌≡◌, refl, inl, inr, Bool, true, false, none, some, length, get_elem?,
  get_elem?-Found, arith, as_u32, not, ◌||◌, ◌==◌, Bool-cases, Option-cases,
}
use thagore.Lexer.Indentation.Levels.{IsLevels, apply_indentation-Indented}
use thagore.Lexer.Indentation.{
  indent_loop, LineStep, again, done, comment_end, line_indented, line_at, line_step,
  apply_indentation,
}
use thagore.Lexer.Scan.{Lexer, fuel_of, is_break, byte_is, break_end, skip_comment}
use thagore.Lexer.Source.Boundary.{max-current_width_at, lead_width_pos}
use thagore.Lexer.Source.{Bytes, lead_width}

-- A space or a tab
abbrev pub is_blank : ℕ → Bool
is_blank b = b == b' ' || b == b'\t'

-- A byte that starts the content of a line: no space, no tab, no line break and no comment.
abbrev pub is_content : ℕ → Bool
is_content b = not (is_blank b || is_break b || b == b'#')

-- Spaces from `i` to `j`
pub data IsSpaces (bytes : Bytes) : ℕ → ℕ → Type 0 where
  nil : {i : ℕ} → IsSpaces bytes i i
  space : {i j : ℕ} → get_elem? bytes i ≡ some b' ' → IsSpaces bytes (i + 1) j → IsSpaces bytes i j

-- A line break from `i` to `j`
pub data IsLineBreak (bytes : Bytes) : ℕ → ℕ → Type 0 where
  lf : {i : ℕ} → get_elem? bytes i ≡ some b'\n' → IsLineBreak bytes i (i + 1)
  cr :
      {i : ℕ}
      → get_elem? bytes i ≡ some b'\r'
      → byte_is bytes (i + 1) b'\n' ≡ false
      → IsLineBreak bytes i (i + 1)
  crlf :
      {i : ℕ}
      → get_elem? bytes i ≡ some b'\r'
      → get_elem? bytes (i + 1) ≡ some b'\n'
      → IsLineBreak bytes i (i + 2)

-- Characters from `i` to the next line break or the end of the text, and behind it at `j`.
pub data IsRest (bytes : Bytes) : ℕ → ℕ → Type 0 where
  last : {i : ℕ} → get_elem? bytes i ≡ none → IsRest bytes i i
  ends : {i j : ℕ} → IsLineBreak bytes i j → IsRest bytes i j
  char :
      {i j : ℕ} (b : ℕ)
      → get_elem? bytes i ≡ some b
      → is_break b ≡ false
      → IsRest bytes (i + lead_width b) j
      → IsRest bytes i j

-- A line that is blank but for a comment, from `i` to `j`
pub data IsBlankLine (bytes : Bytes) (i j : ℕ) : Type 0 where
  blank : {k : ℕ} → IsSpaces bytes i k → IsLineBreak bytes k j → IsBlankLine bytes i j
  comment :
      {k : ℕ}
      → IsSpaces bytes i k
      → get_elem? bytes k ≡ some b'#'
      → IsRest bytes k j
      → IsBlankLine bytes i j

pub data IsBlankLines (bytes : Bytes) : ℕ → ℕ → Type 0 where
  nil : {i : ℕ} → IsBlankLines bytes i i
  line : {i j k : ℕ} → IsBlankLine bytes i j → IsBlankLines bytes j k → IsBlankLines bytes i k

-- Where the preparation ends on the line that starts at `start`: behind its spaces before the content, behind its
-- spaces and a tab, or behind its spaces at the end of the text.
pub data Ending (bytes : Bytes) (start : ℕ) (t : Lexer) : Type 0 where
  content :
      (b : ℕ)
      → IsSpaces bytes start t.offset
      → t.line_start ≡ false
      → get_elem? bytes t.offset ≡ some b
      → is_content b ≡ true
      → Ending bytes start t
  behind_tab :
      (i : ℕ)
      → IsSpaces bytes start i
      → t.line_start ≡ false
      → t.offset ≡ i + 1
      → get_elem? bytes i ≡ some b'\t'
      → Ending bytes start t
  at_end :
      IsSpaces bytes start t.offset
      → t.reached_eof ≡ true
      → get_elem? bytes t.offset ≡ none
      → Ending bytes start t

-- What the loop over the spaces leaves: a tab that it has passed, or a byte that is neither a space nor a tab.
abbrev Stops : Bytes → ℕ → ℕ × ℕ × Bool → Type 0
Stops bytes start (cursor, spaces, true) =
    (i : ℕ) × IsSpaces bytes start i × (cursor ≡ i + 1) × (get_elem? bytes i ≡ some b'\t')
Stops bytes start (cursor, spaces, false) =
    IsSpaces bytes start cursor × ((b : ℕ) → get_elem? bytes cursor ≡ some b → is_blank b ≡ false)

Stops-space :
    (bytes : Bytes) (start : ℕ) (r : ℕ × ℕ × Bool)
    → get_elem? bytes start ≡ some b' '
    → Stops bytes (start + 1) r
    → Stops bytes start r
Stops-space bytes start (cursor, spaces, true) e (i, s, behind, h) = (i, space e s, behind, h)
Stops-space bytes start (cursor, spaces, false) e (s, h) = (space e s, h)

indent_loop-Stops :
    (bytes : Bytes) (fuel cursor spaces : ℕ)
    → length bytes < cursor + fuel
    → Stops bytes cursor (indent_loop fuel bytes cursor spaces)
unfolding indent_loop
indent_loop-Stops bytes zero cursor spaces lt =
    (nil, λ b e. absurd (ground (arith, get_elem?-Found bytes cursor)))
indent_loop-Stops bytes (suc fuel) cursor spaces lt = elim (Option-cases (get_elem? bytes cursor)) [
  | inl e ↦ rw (e, indent_loop) (nil, λ b h. absurd (cc (e, h)))
  | inr (b, e) ↦ elim (Bool-cases (b == b' ')) [
    | inl t ↦
        let next = indent_loop fuel bytes (cursor + 1) (as_u32 (spaces + 1)) in
        rw (e, t, indent_loop)
          (Stops-space bytes cursor next (ground (arith, e, t))
            (indent_loop-Stops bytes fuel (cursor + 1) (as_u32 (spaces + 1)) (omega arith)))
    | inr f ↦ elim (Bool-cases (b == b'\t')) [
      | inl t ↦ rw (e, f, t, indent_loop) (cursor, nil, refl, ground (arith, e, t))
      | inr g ↦ rw (e, f, g, indent_loop) (nil, λ c h. ground (arith, e, h, f, g))
    ]
  ]
]

break_end-IsLineBreak :
    (bytes : Bytes) (i b : ℕ)
    → get_elem? bytes i ≡ some b
    → is_break b ≡ true
    → IsLineBreak bytes i (break_end bytes i b)
break_end-IsLineBreak bytes i b e h = elim (Bool-cases (b == b'\r')) [
  | inr f ↦ rw f (lf (ground (arith, e, f, h)))
  | inl t ↦ elim (Bool-cases (byte_is bytes (i + 1) b'\n')) [
    | inl two ↦ rw (t, two) (crlf (ground (arith, e, t)) (ground (arith, two)))
    | inr one ↦ rw (t, one) (cr (ground (arith, e, t)) one)
  ]
]

comment_end-none : (bytes : Bytes) (i : ℕ) → get_elem? bytes i ≡ none → comment_end bytes i ≡ i
comment_end-none bytes i e = rw (e, comment_end) refl

comment_end-break :
    (bytes : Bytes) (i b : ℕ)
    → get_elem? bytes i ≡ some b
    → is_break b ≡ true
    → comment_end bytes i ≡ break_end bytes i b
comment_end-break bytes i b e t = rw (e, t, comment_end) refl

skip_comment-IsRest :
    (bytes : Bytes) (fuel i : ℕ)
    → length bytes < i + fuel
    → IsRest bytes i (comment_end bytes (skip_comment fuel bytes i))
unfolding skip_comment
skip_comment-IsRest bytes zero i lt =
    let e : get_elem? bytes i ≡ none = ground (arith, get_elem?-Found bytes i) in
    rw (comment_end-none bytes i e) (last e)
skip_comment-IsRest bytes (suc fuel) i lt = elim (Option-cases (get_elem? bytes i)) [
  | inl e ↦ rw (e, skip_comment, comment_end-none bytes i e) (last e)
  | inr (b, e) ↦ elim (Bool-cases (is_break b)) [
    | inl t ↦
        rw (e, t, skip_comment, comment_end-break bytes i b e t)
          (ends (break_end-IsLineBreak bytes i b e t))
    | inr f ↦
        let width = max-current_width_at bytes i e in
        rw (e, f, width, skip_comment)
          (char b e f
            (skip_comment-IsRest bytes fuel (i + lead_width b) (omega (arith, lead_width_pos b))))
  ]
]

-- A round passes a blank line, or ends the preparation.
abbrev pub Ends : Lexer → LineStep → Type 0
Ends s (again t) = IsBlankLine s.bytes s.offset t.offset
Ends s (done t) = Ending s.bytes s.offset t

module _ (s : Lexer) (levels : IsLevels s.indent_stack) where
  line_at-Ends :
      (cursor spaces : ℕ)
      → IsSpaces s.bytes s.offset cursor
      → ((b : ℕ) → get_elem? s.bytes cursor ≡ some b → is_blank b ≡ false)
      → Ends s (line_at s cursor spaces)
  unfolding line_at
  line_at-Ends cursor spaces before h = elim (Option-cases (get_elem? s.bytes cursor)) [
    | inl e ↦ rw (e, line_at) (at_end before refl e)
    | inr (b, e) ↦ elim (Bool-cases (is_break b)) [
      | inl t ↦ rw (e, t, line_at) (blank before (break_end-IsLineBreak s.bytes cursor b e t))
      | inr f ↦ elim (Bool-cases (b == b'#')) [
        | inl t ↦
            rw (e, f, t, line_at)
              (comment before (ground (arith, e, t))
                (skip_comment-IsRest s.bytes (fuel_of s.bytes) cursor (omega arith)))
        | inr g ↦
            let moved = record s { offset = cursor } in
            let i = apply_indentation-Indented moved s.offset spaces cursor levels in
            let there : (apply_indentation moved s.offset spaces cursor).offset ≡ cursor =
              i.offset in
            rw (e, f, g, line_at)
              (content b (rw there before) refl (rw there e) (ground (arith, h b e, f, g)))
      ]
    ]
  ]

  line_indented-Ends : (r : ℕ × ℕ × Bool) → Stops s.bytes s.offset r → Ends s (line_indented s r)
  line_indented-Ends (cursor, spaces, true) (i, before, e, tab) = behind_tab i before refl e tab
  line_indented-Ends (cursor, spaces, false) (before, h) = line_at-Ends cursor spaces before h

  pub line_step-Ends : Ends s (line_step s)
  unfolding line_step
  line_step-Ends = elim (Option-cases (get_elem? s.bytes s.offset)) [
    | inl e ↦ rw (e, line_step) (at_end nil refl e)
    | inr (b, e) ↦
        rw (e, line_step)
          (line_indented-Ends (indent_loop (fuel_of s.bytes) s.bytes s.offset 0)
            (indent_loop-Stops s.bytes (fuel_of s.bytes) s.offset 0 (omega arith)))
  ]
