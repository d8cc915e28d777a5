-- ===== src/Parser/Moves.antt =====
-- What the operations on the cursor (crates/parser/src/parser.rs) do to the tokens ahead and to the errors.
use thagore.Base.{
  ◌<◌, ◌≤◌, ◌≡◌, refl, sym, ap, ◌∙◌, Bool, true, false, List, [], ◌∷◌, ◌++◌, length, arith,
  Bool-cases, inl, inr,
}
use thagore.Lexer.Source.{Bytes}
use thagore.Lexer.Token.{Token, TokenKind}
use thagore.Parser.Kinds.{kind_is, is_statement_boundary}
use thagore.Parser.{
  Parser, ParseError, Names, Expectation, peek, rest, first, advance, at, emit_statement_error,
  emit_unexpected, skip_token, drop_soft, drop_newlines, to_boundary, skip_soft_layout,
  past_boundary, past_line, past_newline, lexer_error_of, consume_lexer_error_at_cursor,
  synchronize_statement, parse_symbol,
}

-- The errors that are added in a statement: none, or one where the statement had none before.
pub data Reports (p q : Parser) : Type 0 where
  quiet : q.errors ≡ p.errors → q.statement_has_error ≡ p.statement_has_error → Reports p q
  first_error :
      (error : ParseError)
      → p.statement_has_error ≡ false
      → q.errors ≡ p.errors ++ error ∷ []
      → q.statement_has_error ≡ true
      → Reports p q

pub Reports-trans : {p q r : Parser} → Reports p q → Reports q r → Reports p r
Reports-trans (quiet e f) (quiet e' f') = quiet (e' ∙ e) (f' ∙ f)
Reports-trans (quiet e f) (first_error error h e' f') =
    first_error error (sym f ∙ h) (e' ∙ ap (λ es. es ++ error ∷ []) e) f'
Reports-trans (first_error error h e f) (quiet e' f') = first_error error h (e' ∙ e) (f' ∙ f)
Reports-trans (first_error error h e f) (first_error error' h' e' f') = ground arith

-- The cursor does not go back.
pub record Stays (p q : Parser) : Type 0 where
  pub no_longer : length q.ahead ≤ length p.ahead
  pub reports : Reports p q

-- The cursor goes forward unless it is at the end.
pub record Moves (p q : Parser) : Type 0 where
  pub stays : Stays p q
  pub shorter : at TokenKind.eof p ≡ false → length q.ahead < length p.ahead

pub Stays-refl : (p : Parser) → Stays p p
Stays-refl p = record { no_longer = omega arith; reports = quiet refl refl }

pub Stays-trans : {p q r : Parser} → Stays p q → Stays q r → Stays p r
Stays-trans s t = record {
  no_longer = omega (arith, s.no_longer, t.no_longer);
  reports = Reports-trans s.reports t.reports;
}

pub Moves-Stays : {p q r : Parser} → Moves p q → Stays q r → Moves p r
Moves-Stays m t = record {
  stays = Stays-trans m.stays t;
  shorter = λ h. let lt = m.shorter h in omega (arith, lt, t.no_longer);
}

pub ahead-shorter :
    (ts : List Token) → kind_is TokenKind.eof (first ts).kind ≡ false → length (rest ts) < length ts
unfolding kind_is
ahead-shorter [] h = absurd (ground arith)
ahead-shorter (t ∷ ts) h = omega arith

pub rest-no_longer : (ts : List Token) → length (rest ts) ≤ length ts
rest-no_longer [] = omega arith
rest-no_longer (t ∷ ts) = omega arith

pub advance-Moves : (p : Parser) → Moves p (advance p)
advance-Moves p = record {
  stays = record { no_longer = rest-no_longer p.ahead; reports = quiet refl refl };
  shorter = ahead-shorter p.ahead;
}

-- A parser with other names.
pub renamed-Stays : (p : Parser) (names : Names) → Stays p (record p { names = names })
renamed-Stays p names = record { no_longer = omega arith; reports = quiet refl refl }

pub emit_statement_error-Stays :
    (error : ParseError) (p : Parser) → Stays p (emit_statement_error error p)
unfolding emit_statement_error
emit_statement_error-Stays error p = record {
  no_longer = ground arith;
  reports = elim (Bool-cases p.statement_has_error) [
    | inl t ↦ quiet (ground arith) (ground arith)
    | inr f ↦ first_error error f (ground arith) (ground arith)
  ];
}

skip_token-Moves : (p : Parser) → Moves p (skip_token p)
skip_token-Moves p = elim (Bool-cases (at TokenKind.eof p)) [
  | inl t ↦ rw t (record { stays = Stays-refl p; shorter = λ h. ground arith })
  | inr f ↦ rw f (advance-Moves p)
]

pub emit_ahead : (error : ParseError) (p : Parser) → (emit_statement_error error p).ahead ≡ p.ahead
unfolding emit_statement_error
emit_ahead error p = ground arith

-- An error, and the token that it is about passed.
pub emit-skip_token :
    (error : ParseError) (p : Parser) → Moves p (skip_token (emit_statement_error error p))
emit-skip_token error p =
    let emitted = emit_statement_error-Stays error p in
    let skipped = skip_token-Moves (emit_statement_error error p) in
    let same = emit_ahead error p in
    record {
      stays = Stays-trans emitted skipped.stays;
      shorter = λ h. let lt = skipped.shorter (rw same h) in omega (arith, lt, emitted.no_longer);
    }

length-drop_soft : (ts : List Token) → length (drop_soft ts) ≤ length ts
length-drop_soft [] = omega arith
length-drop_soft (t ∷ ts) = ground (arith, length-drop_soft ts)

pub skip_soft_layout-Stays : (p : Parser) → Stays p (skip_soft_layout p)
skip_soft_layout-Stays p = record {
  no_longer = length-drop_soft p.ahead;
  reports = quiet refl refl;
}

length-to_boundary : (ts : List Token) → length (to_boundary ts) ≤ length ts
length-to_boundary [] = omega arith
length-to_boundary (t ∷ ts) = ground (arith, length-to_boundary ts)

pub past_line-Stays : (p : Parser) → Stays p (past_line p)
past_line-Stays p = record { no_longer = length-to_boundary p.ahead; reports = quiet refl refl }

past_newline-Stays : (p : Parser) → Stays p (past_newline p)
past_newline-Stays p = elim (Bool-cases (at TokenKind.newline p)) [
  | inl t ↦ rw t (advance-Moves p).stays
  | inr f ↦ rw f (Stays-refl p)
]

-- A lexer error is passed.
not_at_end : (k : TokenKind) → kind_is TokenKind.error k ≡ true → kind_is TokenKind.eof k ≡ false
unfolding kind_is
not_at_end k h = ground arith

pub consume_lexer_error-Moves :
    (p : Parser)
    → at TokenKind.error p ≡ true
    → (q : Parser) × (consume_lexer_error_at_cursor p ≡ (true, q)) × Moves p q
unfolding consume_lexer_error_at_cursor
consume_lexer_error-Moves p h =
    let error : ParseError = lexer_error_of p in
    let reported = emit_statement_error-Stays error p in
    let emitted = emit_statement_error error p in
    let moved = advance-Moves emitted in
    let line = past_line-Stays (advance emitted) in
    let newline = past_newline-Stays (past_line (advance emitted)) in
    let same = emit_ahead error p in
    let inside : at TokenKind.eof emitted ≡ false = rw same (not_at_end (peek p).kind h) in
    let lt = moved.shorter inside in
    let after = Stays-trans line newline in
    (
      past_newline (past_line (advance emitted)),
      rw h refl,
      record {
        stays = Stays-trans reported (Stays-trans moved.stays after);
        shorter = λ _. omega (arith, lt, after.no_longer, reported.no_longer);
      },
    )

pub consume_lexer_error-none :
    (p : Parser) → at TokenKind.error p ≡ false → consume_lexer_error_at_cursor p ≡ (false, p)
unfolding consume_lexer_error_at_cursor
consume_lexer_error-none p h = rw h refl

pub length-drop_newlines : (ts : List Token) → length (drop_newlines ts) ≤ length ts
length-drop_newlines [] = omega arith
length-drop_newlines (t ∷ ts) = ground (arith, length-drop_newlines ts)

pub past_boundary-Stays : (p : Parser) → Stays p (past_boundary p)
past_boundary-Stays p = elim (Bool-cases (at TokenKind.newline p)) [
  | inl t ↦ rw t (record { no_longer = length-drop_newlines p.ahead; reports = quiet refl refl })
  | inr f ↦ elim (Bool-cases (at TokenKind.dedent p)) [
    | inl t ↦ rw (f, t) (advance-Moves p).stays
    | inr f' ↦ rw (f, f') (Stays-refl p)
  ]
]

-- The recovery does not go back, and adds no error.
pub synchronize_statement-Stays : (p : Parser) → Stays p (synchronize_statement p)
unfolding synchronize_statement
synchronize_statement-Stays p = elim (Bool-cases (at TokenKind.eof p)) [
  | inl t ↦ rw t (Stays-refl p)
  | inr f ↦ elim (Bool-cases (is_statement_boundary (peek p).kind)) [
    | inl b ↦ rw (f, b) (Stays-trans (past_line-Stays p) (past_boundary-Stays (past_line p)))
    | inr b ↦
        let moved = (advance-Moves p).stays in
        let line = past_line-Stays (advance p) in
        rw (f, b)
          (Stays-trans moved (Stays-trans line (past_boundary-Stays (past_line (advance p)))))
  ]
]

module _ (source : Bytes) where
  -- A name that cannot stand there is an error, and the token is passed in either case.
  pub parse_symbol-Moves :
      (can_name : Bool) (expected : Expectation) (p : Parser)
      → Moves p (parse_symbol source can_name expected p).1
  unfolding parse_symbol
  parse_symbol-Moves true expected p = Moves-Stays (advance-Moves p) (renamed-Stays (advance p) _)
  parse_symbol-Moves false expected p =
      let q = skip_token (emit_unexpected expected p) in
      Moves-Stays (emit-skip_token _ p) (renamed-Stays q _)
