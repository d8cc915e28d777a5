-- ===== src/Lexer/Indentation/Levels.antt =====
-- The stack of indentation levels (crates/lexer/src/lexer.rs, `apply_indentation`): it stays
-- strictly increasing from 0, and the pending tokens account for every change of its depth.
use thagore.Base.{
  ℕ, suc, ◌+◌, ◌-◌, ◌%◌, ◌≤◌, ◌<◌, ◌≡◌, refl, List, [], ◌∷◌, ◌++◌, length, length-append, arith,
}
use thagore.Lexer.Indentation.{top_or_zero, unwind, dedent_to, set_level, apply_indentation}
use thagore.Lexer.Scan.Tokens.{Role, opens, closes, reopens, ends, role}
use thagore.Lexer.Scan.{Lexer, span_of}
use thagore.Lexer.Token.{TokenKind, Token, Message, plain, with_error}

-- Strictly increasing towards the top, even, with 0 at the bottom.
abbrev pub IsLevels : List ℕ → Type 0
IsLevels [] = ⊥
IsLevels (level ∷ []) = level ≡ 0
IsLevels (level ∷ below ∷ rest) = (below < level) × (level % 2 ≡ 0) × IsLevels (below ∷ rest)

IsLevels-cons :
    (level : ℕ) (stack : List ℕ)
    → IsLevels stack
    → top_or_zero stack < level
    → level % 2 ≡ 0
    → IsLevels (level ∷ stack)
IsLevels-cons level [] h lt even = absurd h
IsLevels-cons level (top ∷ rest) h lt even = (lt, even, h)

-- How a token of a role moves the depth.
abbrev pub raises : Role → ℕ
raises r = elim r [ opens ↦ 1 | reopens ↦ 1 | _ ↦ 0 ]

abbrev pub lowers : Role → ℕ
lowers r = elim r [ closes ↦ 1 | _ ↦ 0 ]

abbrev pub raised : List Token → ℕ
raised [] = 0
raised (t ∷ ts) = raises (role t) + raised ts

abbrev pub lowered : List Token → ℕ
lowered [] = 0
lowered (t ∷ ts) = lowers (role t) + lowered ts

pub raised-append : (xs ys : List Token) → raised (xs ++ ys) ≡ raised xs + raised ys
raised-append [] ys = omega arith
raised-append (x ∷ xs) ys = omega (arith, raised-append xs ys)

pub lowered-append : (xs ys : List Token) → lowered (xs ++ ys) ≡ lowered xs + lowered ys
lowered-append [] ys = omega arith
lowered-append (x ∷ xs) ys = omega (arith, lowered-append xs ys)

abbrev pub endings : List Token → ℕ
endings [] = 0
endings (t ∷ ts) = elim (role t) [ ends ↦ suc (endings ts) | _ ↦ endings ts ]

pub endings-append : (xs ys : List Token) → endings (xs ++ ys) ≡ endings xs + endings ys
endings-append [] ys = omega arith
endings-append (x ∷ xs) ys = ground (arith, endings-append xs ys)

-- The depth and the pending tokens of `t` against those of `s`: what was raised and lowered.
pub record Balanced (s t : Lexer) : Type 0 where
  pub ending : endings t.pending ≡ endings s.pending
  pub depth :
      length t.indent_stack + lowered t.pending + raised s.pending
      ≡ length s.indent_stack + raised t.pending + lowered s.pending

-- One pop of the loop: a level that is left gives a `Dedent`.
record Unwound (target : ℕ) (stack : List ℕ) (out : List Token) (r : List ℕ × List Token)
    : Type 0 where
  levels : IsLevels r.0
  top : top_or_zero r.0 ≤ target
  size : length r.0 + length r.1 ≡ length stack + length out
  ending_same : endings r.1 ≡ endings out
  raised_same : raised r.1 ≡ raised out
  lowered_by : lowered r.1 + length r.0 ≡ lowered out + length stack

unwind-Unwound :
    (target : ℕ) (dedent : Token) (stack : List ℕ) (out : List Token)
    → role dedent ≡ closes
    → IsLevels stack
    → Unwound target stack out (unwind target dedent stack out)
unfolding unwind
unwind-Unwound target dedent [] out c h = absurd h
unwind-Unwound target dedent (level ∷ []) out c h = ground arith
unwind-Unwound target dedent (level ∷ below ∷ rest) out c h = ground (
  arith,
  raised-append out (dedent ∷ []),
  lowered-append out (dedent ∷ []),
  endings-append out (dedent ∷ []),
  length-append out (dedent ∷ []),
  unwind-Unwound target dedent (below ∷ rest) (out ++ dedent ∷ []) c,
)

-- What `apply_indentation` keeps; it adds at most `extra` pending tokens and levels.
pub record Indented (extra : ℕ) (s t : Lexer) : Type 0 where
  pub bytes : t.bytes ≡ s.bytes
  pub offset : t.offset ≡ s.offset
  pub reached : t.reached_eof ≡ s.reached_eof
  pub levels : IsLevels t.indent_stack
  pub balanced : Balanced s t
  pub size :
      length t.pending + length t.indent_stack ≤ length s.pending + length s.indent_stack + extra

dedent_to-Indented :
    (s : Lexer) (line_offset target cursor : ℕ)
    → IsLevels s.indent_stack
    → target % 2 ≡ 0
    → Indented 2 s (dedent_to s line_offset target cursor)
unfolding dedent_to role
dedent_to-Indented s line_offset target cursor h even =
    let dedent = plain TokenKind.dedent (span_of cursor cursor) in
    let r = unwind target dedent s.indent_stack s.pending in
    let mark = with_error (span_of line_offset cursor) Message.inconsistent_dedent in
    ground (
      arith,
      unwind-Unwound target dedent s.indent_stack s.pending refl h,
      raised-append r.1 (mark ∷ []),
      lowered-append r.1 (mark ∷ []),
      endings-append r.1 (mark ∷ []),
      length-append r.1 (mark ∷ []),
      IsLevels-cons target r.0,
    )

set_level-Indented :
    (s : Lexer) (line_offset target cursor : ℕ)
    → IsLevels s.indent_stack
    → target % 2 ≡ 0
    → Indented 2 s (set_level s line_offset target cursor)
unfolding set_level role
set_level-Indented s line_offset target cursor h even =
    let indent = plain TokenKind.indent (span_of cursor cursor) in
    ground (
      arith,
      dedent_to-Indented s line_offset target cursor h even,
      raised-append s.pending (indent ∷ []),
      lowered-append s.pending (indent ∷ []),
      endings-append s.pending (indent ∷ []),
      length-append s.pending (indent ∷ []),
      IsLevels-cons target s.indent_stack h,
    )

pub apply_indentation-Indented :
    (s : Lexer) (line_offset spaces cursor : ℕ)
    → IsLevels s.indent_stack
    → Indented 3 s (apply_indentation s line_offset spaces cursor)
unfolding apply_indentation role
apply_indentation-Indented s line_offset spaces cursor h =
    let mark = with_error (span_of line_offset cursor) Message.invalid_indentation in
    let marked = record s { pending = s.pending ++ mark ∷ [] } in
    ground (
      arith,
      set_level-Indented s line_offset spaces cursor h,
      set_level-Indented marked line_offset (spaces - 1) cursor h,
      raised-append s.pending (mark ∷ []),
      lowered-append s.pending (mark ∷ []),
      endings-append s.pending (mark ∷ []),
      length-append s.pending (mark ∷ []),
    )
