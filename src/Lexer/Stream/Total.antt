-- ===== src/Lexer/Stream/Total.antt =====
-- `next_token` and `lex_all_in` (crates/lexer/src/lexer.rs) return on every text whose non-ASCII
-- characters are letters or digits, and their layout tokens are balanced.
use thagore.Base.{
  ℕ, zero, suc, ◌+◌, ◌-◌, ◌*◌, ◌≤◌, ◌<◌, ◌≡◌, ◌≢◌, refl, ◌⊎◌, inl, inr, true, false, Option, some,
  List, [], ◌∷◌, length, arith, Bool-cases,
}
use thagore.Lexer.Indentation.Levels.{raised, lowered}
use thagore.Lexer.Scan.Tokens.{ends, role}
use thagore.Lexer.Scan.{Lexer, new, fuel_of}
use thagore.Lexer.Source.Boundary.{IsStr, is_char_boundary-le}
use thagore.Lexer.Source.{Bytes, Unicode}
use thagore.Lexer.Stream.Rounds.{
  IsLexable, IsWellFormed, weight, Yielded, Continued, next_step-Round,
}
use thagore.Lexer.Stream.{
  Step, yields, continues, next_step, next_loop, next_token, is_eof, lex_loop, lex_all_in,
}
use thagore.Lexer.Token.{Token, TokenKind}

Step-cases :
    (r : Step)
    → ((token : Token) × (t : Lexer) × (r ≡ yields (token, t))) ⊎ ((t : Lexer) × (r ≡ continues t))
Step-cases (yields (token, t)) = inl (token, t, refl)
Step-cases (continues t) = inr (t, refl)

Continued-Yielded :
    {s t v : Lexer} {token : Token} → Continued s t → Yielded t token v → Yielded s token v
Continued-Yielded c y = ground arith

-- The token and the state that a call gives.
abbrev pub Gives : Lexer → Option (Token × Lexer) → Type 0
Gives s r = (token : Token) × (t : Lexer) × (r ≡ some (token, t)) × Yielded s token t

-- `Eof` stands at the end, and nowhere else.
abbrev pub EndsWithEof : List Token → Type 0
EndsWithEof [] = ⊥
EndsWithEof (token ∷ []) = token.kind ≡ TokenKind.eof
EndsWithEof (token ∷ next ∷ rest) = (token.kind ≢ TokenKind.eof) × EndsWithEof (next ∷ rest)

EndsWithEof-cons :
    (token : Token) (tokens : List Token)
    → token.kind ≢ TokenKind.eof
    → EndsWithEof tokens
    → EndsWithEof (token ∷ tokens)
EndsWithEof-cons token [] ne h = absurd h
EndsWithEof-cons token (next ∷ rest) ne h = (ne, h)

pub eof-role :
    (token : Token) → is_eof token ≡ true → (token.kind ≡ TokenKind.eof) × (role token ≡ ends)
unfolding role
eof-role token h = ground arith

other-role :
    (token : Token) → is_eof token ≡ false → (token.kind ≢ TokenKind.eof) × (role token ≢ ends)
unfolding role
other-role token h = ground arith

-- A finished run from `s`: the stream ends with `Eof`, and every level that was open or was
-- opened is closed.
pub record Finished (s : Lexer) (tokens : List Token) : Type 0 where
  pub ends_with : EndsWithEof tokens
  pub depth :
      1 + lowered tokens + raised s.pending
      ≡ length s.indent_stack + raised tokens + lowered s.pending

module _ (u : Unicode) where
  next_loop-Gives :
      (fuel : ℕ) (s : Lexer)
      → IsStr s.bytes
      → IsLexable u s.bytes
      → IsWellFormed s
      → length s.bytes - s.offset < fuel
      → Gives s (next_loop u fuel s)
  unfolding next_loop
  next_loop-Gives zero s str text w lt = absurd (omega arith)
  next_loop-Gives (suc fuel) s str text w lt = elim (Step-cases (next_step u s)) [
    | inl (token, t, e) ↦ (token, t, rw (e, next_loop), rw e at (next_step-Round u s str text w))
    | inr (t, e) ↦
        let c : Continued s t = rw e at (next_step-Round u s str text w) in
        let (token, v, q, y) =
          next_loop-Gives fuel t (rw c.bytes str) (rw c.bytes text) c.well
            (ground (arith, is_char_boundary-le t.bytes t.offset c.well.boundary)) in
        (token, v, rw (e, next_loop) q, Continued-Yielded c y)
  ]

  -- From a well-formed state of a UTF-8 text in which every character beyond ASCII may stand in an
  -- identifier, `next_token` returns a token. The new state is of the same text and well formed,
  -- the depth of the level stack has changed as the token and the pending ones say, and the state
  -- has less left to do unless the token is `Eof`.
  pub next_token_total :
      (s : Lexer) → IsStr s.bytes → IsLexable u s.bytes → IsWellFormed s → Gives s (next_token u s)
  unfolding next_token
  next_token_total s str text w = next_loop-Gives (suc (fuel_of s.bytes)) s str text w (omega arith)

  pub lex_loop-Finished :
      (fuel : ℕ) (s : Lexer)
      → IsStr s.bytes
      → IsLexable u s.bytes
      → IsWellFormed s
      → weight s < fuel
      → (tokens : List Token) × (last : Lexer) × (lex_loop u fuel s ≡ some (tokens, last))
        × Finished s tokens
  unfolding lex_loop
  lex_loop-Finished zero s str text w lt = absurd (omega arith)
  lex_loop-Finished (suc fuel) s str text w lt =
      let (token, t, e, y) = next_token_total s str text w in
      elim (Bool-cases (is_eof token)) [
        | inl k ↦
            let (kind, role_ends) = eof-role token k in
            (
              token ∷ [],
              t,
              rw (e, lex_loop) (rw (k, lex_loop)),
              record { ends_with = kind; depth = ground arith },
            )
        | inr k ↦
            let (kind, role_other) = other-role token k in
            let (tokens, last, q, f) =
              lex_loop-Finished fuel t (rw y.bytes str) (rw y.bytes text) y.well
                (omega (arith, y.lighter role_other)) in
            (
              token ∷ tokens,
              last,
              rw (e, lex_loop) (rw (k, lex_loop) (rw (q, lex_loop))),
              record {
                ends_with = EndsWithEof-cons token tokens kind f.ends_with;
                depth = omega (arith, f.depth, y.depth);
              },
            )
      ]

-- Enough rounds for every text.
abbrev pub lex_fuel : Bytes → ℕ
lex_fuel source = 4 * length source + 5

new-IsWellFormed : (source : Bytes) → IsStr source → IsWellFormed (new source)
new-IsWellFormed source str = record {
  boundary = str.starts;
  levels = refl;
  open_end = refl;
  ended = λ h. cc;
}

module _ (u : Unicode) (source : Bytes) (str : IsStr source) (text : IsLexable u source) where
  new-Finished :
      (fuel : ℕ)
      → lex_fuel source ≤ fuel
      → (tokens : List Token) × (last : Lexer) × (lex_all_in u fuel source ≡ some (tokens, last))
        × Finished (new source) tokens
  unfolding lex_all_in
  new-Finished fuel enough =
      lex_loop-Finished u fuel (new source) str text (new-IsWellFormed source str) (omega arith)

  -- On a UTF-8 text in which every character beyond ASCII may stand in an identifier, `lex_all_in`
  -- returns a stream within `lex_fuel source` tokens, and `Eof` stands at its end and nowhere
  -- else.
  pub lex_all_in_total :
      (fuel : ℕ)
      → lex_fuel source ≤ fuel
      → (tokens : List Token) × (last : Lexer) × (lex_all_in u fuel source ≡ some (tokens, last))
        × EndsWithEof tokens
  lex_all_in_total fuel enough =
      let (tokens, last, e, f) = new-Finished fuel enough in (tokens, last, e, f.ends_with)

  -- In the stream that `lex_all_in` returns on fuel of at least `lex_fuel source`, on a UTF-8 text
  -- in which every character beyond ASCII may stand in an identifier, there are as many `Dedent`
  -- tokens as there are `Indent` tokens and inconsistent-dedent errors together.
  pub lex_all_in-balanced :
      (fuel : ℕ) (tokens : List Token) (last : Lexer)
      → lex_fuel source ≤ fuel
      → lex_all_in u fuel source ≡ some (tokens, last)
      → lowered tokens ≡ raised tokens
  lex_all_in-balanced fuel tokens last enough h =
      let (found, last', e, f) = new-Finished fuel enough in
      let same : found ≡ tokens = cc in rw (← same) (omega (arith, f.depth))
