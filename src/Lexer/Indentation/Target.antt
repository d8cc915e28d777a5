-- ===== src/Lexer/Indentation/Target.antt =====
-- What a line of a given indentation does to the levels (crates/lexer/src/lexer.rs,
-- `apply_indentation`).
use thagore.Base.{
  ℕ, ◌+◌, ◌-◌, ◌%◌, ◌≤◌, ◌≡◌, refl, Bool, false, List, [], ◌∷◌, ◌++◌, arith, ltb, ◌==◌, ◌||◌,
  if◌then◌else◌,
}
use thagore.Lexer.Indentation.Levels.{IsLevels, raised, lowered, raised-append, lowered-append}
use thagore.Lexer.Indentation.{top_or_zero, unwind, dedent_to, set_level, apply_indentation}
use thagore.Lexer.Scan.Tokens.{closes, role}
use thagore.Lexer.Scan.{Lexer, span_of}
use thagore.Lexer.Token.{TokenKind, Token, Message, plain, with_error}

-- The open levels above a target.
abbrev pub above : ℕ → List ℕ → ℕ
above target [] = 0
above target (level ∷ rest) = (if ltb target level then 1 else 0) + above target rest

-- Whether a target is an open level.
abbrev pub is_open : ℕ → List ℕ → Bool
is_open target [] = false
is_open target (level ∷ rest) = level == target || is_open target rest

-- The indentation of a line, rounded down to an even number.
abbrev pub target_of : ℕ → ℕ
target_of spaces = spaces - spaces % 2

none_above :
    (target level : ℕ) (rest : List ℕ)
    → IsLevels (level ∷ rest)
    → level ≤ target
    → (above target (level ∷ rest) ≡ 0) × (is_open target rest ≡ false)
none_above target level [] h le = ground arith
none_above target level (below ∷ rest) h le = ground (arith, none_above target below rest)

at_top :
    (target : ℕ) (stack : List ℕ)
    → IsLevels stack
    → top_or_zero stack ≤ target
    → (above target stack ≡ 0) × (is_open target stack ≡ (top_or_zero stack == target))
at_top target [] h le = absurd h
at_top target (level ∷ rest) h le = ground (arith, none_above target level rest h le)

record Unwinding (target : ℕ) (stack : List ℕ) (out : List Token) (r : List ℕ × List Token)
    : Type 0 where
  closed : lowered r.1 ≡ lowered out + above target stack
  raised_same : raised r.1 ≡ raised out
  top_is : (top_or_zero r.0 == target) ≡ is_open target stack

unwind-Unwinding :
    (target : ℕ) (dedent : Token) (stack : List ℕ) (out : List Token)
    → role dedent ≡ closes
    → IsLevels stack
    → Unwinding target stack out (unwind target dedent stack out)
unfolding unwind
unwind-Unwinding target dedent [] out c h = absurd h
unwind-Unwinding target dedent (level ∷ []) out c h =
    ground (arith, lowered-append out (dedent ∷ []))
unwind-Unwinding target dedent (level ∷ below ∷ rest) out c h = ground (
  arith,
  none_above target level (below ∷ rest) h,
  raised-append out (dedent ∷ []),
  lowered-append out (dedent ∷ []),
  unwind-Unwinding target dedent (below ∷ rest) (out ++ dedent ∷ []) c,
)

-- The state `t` that a line of indentation `target` leaves.
pub record Leveled (target : ℕ) (s t : Lexer) : Type 0 where
  pub top : top_or_zero t.indent_stack ≡ target
  pub closed : lowered t.pending ≡ lowered s.pending + above target s.indent_stack
  pub opened :
      raised t.pending ≡ raised s.pending + (if is_open target s.indent_stack then 0 else 1)

set_level-Leveled :
    (s : Lexer) (line_offset target cursor : ℕ)
    → IsLevels s.indent_stack
    → Leveled target s (set_level s line_offset target cursor)
unfolding set_level dedent_to role
set_level-Leveled s line_offset target cursor h =
    let dedent = plain TokenKind.dedent (span_of cursor cursor) in
    let indent = plain TokenKind.indent (span_of cursor cursor) in
    let r = unwind target dedent s.indent_stack s.pending in
    let mark = with_error (span_of line_offset cursor) Message.inconsistent_dedent in
    ground (
      arith,
      at_top target s.indent_stack h,
      unwind-Unwinding target dedent s.indent_stack s.pending refl h,
      raised-append s.pending (indent ∷ []),
      lowered-append s.pending (indent ∷ []),
      raised-append r.1 (mark ∷ []),
      lowered-append r.1 (mark ∷ []),
    )

-- After a line of content, from a stack of even levels that grow from 0, the innermost level is
-- the line's indentation, rounded down to an even number. The line closes every level above it,
-- and opens a level if and only if none was open there, by an `Indent` or with an inconsistent-
-- dedent error.
pub apply_indentation-Leveled :
    (s : Lexer) (line_offset spaces cursor : ℕ)
    → IsLevels s.indent_stack
    → Leveled (target_of spaces) s (apply_indentation s line_offset spaces cursor)
unfolding apply_indentation role
apply_indentation-Leveled s line_offset spaces cursor h =
    let mark = with_error (span_of line_offset cursor) Message.invalid_indentation in
    let marked = record s { pending = s.pending ++ mark ∷ [] } in
    let even : spaces % 2 ≡ 0 → target_of spaces ≡ spaces = λ z. omega arith in
    let odd : spaces % 2 ≡ 1 → target_of spaces ≡ spaces - 1 = λ z. omega arith in
    ground (
      arith,
      even,
      odd,
      set_level-Leveled s line_offset spaces cursor h,
      set_level-Leveled marked line_offset (spaces - 1) cursor h,
      raised-append s.pending (mark ∷ []),
      lowered-append s.pending (mark ∷ []),
    )
