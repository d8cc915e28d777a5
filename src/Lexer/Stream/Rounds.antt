-- ===== src/Lexer/Stream/Rounds.antt =====
-- One round of `next_token` (crates/lexer/src/lexer.rs): what it keeps and what it uses up.
use thagore.Base.{
  ℕ, ◌+◌, ◌-◌, ◌*◌, ◌≤◌, ◌<◌, ◌≡◌, ◌≢◌, refl, inl, inr, true, none, some, List, [], ◌∷◌, length,
  get_elem?, arith, Option-cases, List-cases,
}
use thagore.Lexer.Indentation.Levels.{IsLevels, raised, lowered, endings}
use thagore.Lexer.Indentation.Lines.{start_weight, prepare_logical_line-Prepared, skip_comment-lt}
use thagore.Lexer.Scan.Loops.{Accepts, skip_comment-Reaches}
use thagore.Lexer.Scan.Tokens.{
  ends, role, Scanned, single_byte_token-Scanned, consume_newline-Scanned,
  consume_tab_error-Scanned, consume_invalid_byte-Scanned, scan_minus_or_arrow-Scanned,
  scan_equal_family-Scanned, scan_less_family-Scanned, scan_greater_family-Scanned,
  scan_bang_family-Scanned, scan_number-Scanned, scan_string-Scanned, scan_identifier-Scanned,
}
use thagore.Lexer.Scan.{Lexer, fuel_of, single_byte_token}
use thagore.Lexer.Source.Ascii.{is_ascii, is_ascii-lt}
use thagore.Lexer.Source.Boundary.{IsStr, boundary-Character, is_char_boundary-le}
use thagore.Lexer.Source.{Bytes, Unicode, is_char_boundary, classify_identifier_at}
use thagore.Lexer.Stream.{
  Step, yields, continues, act, read_token, finish_eof, pop_or, prepared, next_step,
}
use thagore.Lexer.Table.Laws.{Starts, dispatch-Starts}
use thagore.Lexer.Table.{TokenAction, transition, dispatch}
use thagore.Lexer.Token.{Token}

-- Every character that can start a non-ASCII identifier may: there is no symbol, emoji or the like
-- at a character boundary of the text.
pub record IsLexable (u : Unicode) (bytes : Bytes) : Type 0 where
  pub accepts :
      (i b : ℕ)
      → get_elem? bytes i ≡ some b
      → is_char_boundary bytes i ≡ true
      → 0x80 ≤ b
      → Accepts u bytes i

pub is_ascii-IsLexable : (u : Unicode) (bytes : Bytes) → is_ascii bytes ≡ true → IsLexable u bytes
is_ascii-IsLexable u bytes h = record {
  accepts = λ i b e k lo. absurd (omega (arith, is_ascii-lt bytes i b h e));
}

-- The invariant of the lexer between two rounds.
pub record IsWellFormed (s : Lexer) : Type 0 where
  pub boundary : is_char_boundary s.bytes s.offset ≡ true
  pub levels : IsLevels s.indent_stack
  pub open_end : endings s.pending ≡ 0
  pub ended : s.reached_eof ≡ true → get_elem? s.bytes s.offset ≡ none

module _ (u : Unicode) (s : Lexer) (str : IsStr s.bytes) (text : IsLexable u s.bytes)
    (h : is_char_boundary s.bytes s.offset ≡ true) where
  -- An identifier starts where the dispatch says so.
  dispatch-Accepts :
      (b : ℕ)
      → get_elem? s.bytes s.offset ≡ some b
      → Starts TokenAction.identifier b
      → Accepts u s.bytes s.offset
  unfolding classify_identifier_at transition
  dispatch-Accepts b e i = ground arith

  -- A round at a byte either scans a token or goes over blanks and comments.
  abbrev Acted : Step → Type 0
  Acted (yields r) = Scanned s r
  Acted (continues t) =
      (t.bytes ≡ s.bytes)
      × (t.pending ≡ s.pending)
      × (t.indent_stack ≡ s.indent_stack)
      × (t.reached_eof ≡ s.reached_eof)
      × (t.line_start ≡ s.line_start)
      × (s.offset < t.offset)
      × (is_char_boundary s.bytes t.offset ≡ true)

  act-Acted :
      (a : TokenAction) (b : ℕ)
      → get_elem? s.bytes s.offset ≡ some b
      → Starts a b
      → Acted (act u a s b)
  unfolding act role single_byte_token
  act-Acted TokenAction.skip_space b e a = ground (arith, boundary-Character s.bytes str s.offset h)
  act-Acted TokenAction.tab_error b e a = consume_tab_error-Scanned s str h b e a
  act-Acted TokenAction.newline b e a = consume_newline-Scanned s str h b e (omega arith)
  act-Acted TokenAction.comment b e a = ground (
    arith,
    skip_comment-Reaches s.bytes str (fuel_of s.bytes) s.offset h,
    skip_comment-lt s.bytes str (length s.bytes) s.offset h (ground arith),
  )
  act-Acted TokenAction.identifier b e a =
      scan_identifier-Scanned u s str h (dispatch-Accepts b e a)
  act-Acted TokenAction.unicode_identifier b e a =
      scan_identifier-Scanned u s str h (text.accepts s.offset b e h a.0)
  act-Acted TokenAction.number b e a = scan_number-Scanned s str h b e a
  act-Acted TokenAction.string b e a = scan_string-Scanned s str h b e a
  act-Acted TokenAction.minus b e a = scan_minus_or_arrow-Scanned s str h b e a
  act-Acted TokenAction.equal b e a = scan_equal_family-Scanned s str h b e a
  act-Acted TokenAction.bang b e a = scan_bang_family-Scanned s str h b e a
  act-Acted TokenAction.less b e a = scan_less_family-Scanned s str h b e a
  act-Acted TokenAction.greater b e a = scan_greater_family-Scanned s str h b e a
  act-Acted TokenAction.invalid b e a = consume_invalid_byte-Scanned s str h b e
  act-Acted _ b e a = single_byte_token-Scanned s str h b e a _ refl

-- What is left to be turned into tokens.
abbrev pub weight : Lexer → ℕ
weight s =
    4 * (length s.bytes - s.offset)
    + start_weight s.line_start
    + length s.pending
    + length s.indent_stack

-- A token came out, and the state is `t`.
pub record Yielded (s : Lexer) (token : Token) (t : Lexer) : Type 0 where
  pub bytes : t.bytes ≡ s.bytes
  pub well : IsWellFormed t
  pub depth :
      length t.indent_stack + (lowered (token ∷ t.pending) + raised s.pending)
      ≡ length s.indent_stack + (raised (token ∷ t.pending) + lowered s.pending)
  pub lighter : role token ≢ ends → weight t < weight s
  pub finished : role token ≡ ends → (t.pending ≡ []) × (length t.indent_stack ≡ 1)

-- The round used up some of the text, and the state is `t`.
pub record Continued (s t : Lexer) : Type 0 where
  pub bytes : t.bytes ≡ s.bytes
  pub well : IsWellFormed t
  pub depth :
      length t.indent_stack + (lowered t.pending + raised s.pending)
      ≡ length s.indent_stack + (raised t.pending + lowered s.pending)
  pub no_heavier : weight t ≤ weight s
  pub forward : s.offset < t.offset

abbrev pub Round : Lexer → Step → Type 0
Round s (yields (token, t)) = Yielded s token t
Round s (continues t) = Continued s t

pop-Yielded :
    (s : Lexer) (token : Token) (rest : List Token)
    → IsWellFormed s
    → s.pending ≡ token ∷ rest
    → Yielded s token (record s { pending = rest })
pop-Yielded s token rest w e = ground arith

close_levels-Yielded :
    (s : Lexer)
    → IsWellFormed s
    → get_elem? s.bytes s.offset ≡ none
    → s.pending ≡ []
    → Yielded s (finish_eof s).0 (finish_eof s).1
unfolding finish_eof role
close_levels-Yielded s w e p = elim (List-cases s.indent_stack) [
  | inl none_left ↦ ground arith
  | inr (top, rest, q) ↦ elim (List-cases rest) [
    | inl bottom ↦ ground arith
    | inr (below, more, q') ↦ ground arith
  ]
]

module _ (u : Unicode) where
  Acted-Round :
      (s : Lexer) (str : IsStr s.bytes) (text : IsLexable u s.bytes) (w : IsWellFormed s) (b : ℕ)
      → get_elem? s.bytes s.offset ≡ some b
      → s.pending ≡ []
      → (r : Step) → Acted u s str text w.boundary r
      → Round s r
  Acted-Round s str text w b e p (yields (token, t)) a =
      ground (arith, is_char_boundary-le s.bytes t.offset a.boundary)
  Acted-Round s str text w b e p (continues t) a =
      ground (arith, is_char_boundary-le s.bytes t.offset a.6)

  read_token-Round :
      (s : Lexer)
      → IsStr s.bytes
      → IsLexable u s.bytes
      → IsWellFormed s
      → s.pending ≡ []
      → Round s (read_token u s)
  unfolding read_token
  read_token-Round s str text w p = elim (Option-cases (get_elem? s.bytes s.offset)) [
    | inl e ↦ rw (e, read_token) (close_levels-Yielded s w e p)
    | inr (b, e) ↦
        rw (e, read_token)
          (Acted-Round s str text w b e p _
            (act-Acted u s str text w.boundary (dispatch b) b e (dispatch-Starts b)))
  ]

  -- The state that the round reads from.
  record Ready (s t : Lexer) : Type 0 where
    bytes : t.bytes ≡ s.bytes
    well : IsWellFormed t
    depth :
        length t.indent_stack + (lowered t.pending + raised s.pending)
        ≡ length s.indent_stack + (raised t.pending + lowered s.pending)
    no_heavier : weight t ≤ weight s
    forward : s.offset ≤ t.offset

  prepared-Ready : (s : Lexer) → IsStr s.bytes → IsWellFormed s → Ready s (prepared s)
  prepared-Ready s str w = ground (arith, prepare_logical_line-Prepared s str w.boundary w.levels)

  Ready-Round : (s t : Lexer) (r : Step) → Ready s t → Round t r → Round s r
  Ready-Round s t (yields (token, v)) k r = ground arith
  Ready-Round s t (continues v) k r = ground arith

  pop_or-Round :
      (s : Lexer) (queue : List Token) (r : Step)
      → IsWellFormed s
      → s.pending ≡ queue
      → (queue ≡ [] → Round s r)
      → Round s (pop_or s queue r)
  pop_or-Round s [] r w e k = k refl
  pop_or-Round s (token ∷ rest) r w e k = pop-Yielded s token rest w e

  pub next_step-Round :
      (s : Lexer) → IsStr s.bytes → IsLexable u s.bytes → IsWellFormed s → Round s (next_step u s)
  unfolding next_step
  next_step-Round s str text w =
      let t = prepared s in
      let k = prepared-Ready s str w in
      let read =
        λ (q : t.pending ≡ []). read_token-Round t (rw k.bytes str) (rw k.bytes text) k.well q in
      pop_or-Round s s.pending _ w refl
        (λ e. Ready-Round s t _ k (pop_or-Round t t.pending _ k.well refl read))
