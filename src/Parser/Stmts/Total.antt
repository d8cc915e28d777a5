-- ===== src/Parser/Stmts/Total.antt =====
-- The parser of statements and blocks (crates/parser/src/stmt.rs) returns.
use thagore.Base.{
  ℕ, zero, suc, ◌+◌, ◌*◌, ◌<◌, ◌≡◌, refl, false, ◌||◌, length, Option, none, some, arith,
  Bool-cases, inl, inr, ◌>>=◌,
}
use thagore.Ast.Stmts.{LetDecl, Stmt, Stmts, Block}
use thagore.Lexer.Keywords.{codes}
use thagore.Lexer.Source.{Bytes}
use thagore.Lexer.Token.{Span, TokenKind}
use thagore.Parser.Kinds.{kind_is, is_statement_boundary, token_can_name_value}
use thagore.Parser.{
  Parser, Expectation, peek, advance, at, current_span, skip_newlines, begin_statement,
  synchronize_statement, emit_unexpected, token_is_contextual, parse_identifier_symbol,
}
use thagore.Parser.Moves.{
  Stays, Moves, Stays-refl, Stays-trans, advance-Moves, renamed-Stays, emit_statement_error-Stays,
  parse_symbol-Moves, synchronize_statement-Stays, consume_lexer_error-Moves,
  consume_lexer_error-none, emit_ahead,
}
use thagore.Parser.Pratt.Total.{Returns, returns, then-Returns, parse_expr-Returns}
use thagore.Parser.Types.Total.{parse_type_expr-Returns}
use thagore.Parser.Stmts.{
  BlockParser, parse_expression, parse_annotation, parse_let_decl, take_or_miss, expect_block_colon,
  parse_condition_expr, open_condition, parse_else, parse_if_stmt, parse_while_stmt, expect_in,
  parse_for_stmt, parse_return_stmt, parse_expr_stmt, some_stmt, let_stmt, parse_plain_stmt,
  stmt_of, parse_stmt, after_stmt, end_of, add_stmt, parse_stmts, close_section, finish_block,
  parse_block_with, parse_block_for, enter_indented_section_for, is_expression_start,
}
use thagore.Parser.Stmts.Goes.{
  Goes, Onward, Stays-Goes, Goes-trans, Onward-Goes, advance-Onward, Goes-Returns, Onward-Returns,
  begin_statement-Goes, skip_newlines-Stays, skip_newlines-done, terminator-Stays, taken-Stays,
  synchronize_statement-shorter, enter-Stays,
}

module _ (source : Bytes) where
  pub parse_expression-Returns : (p : Parser) → Returns (Moves p) (parse_expression source p)
  unfolding parse_expression
  parse_expression-Returns p = parse_expr-Returns source (2 * length p.ahead + 2) 0 p (omega arith)

  pub expression-Goes : (p : Parser) → Returns (Goes p) (parse_expression source p)
  expression-Goes p =
      let r = parse_expression-Returns p in
      record { value = r.value; after = r.after; ends = r.ends; holds = Stays-Goes r.holds.stays }

  pub parse_annotation-Returns :
      (kind : TokenKind) (p : Parser) → Returns (Goes p) (parse_annotation source kind p)
  unfolding parse_annotation
  parse_annotation-Returns kind p = elim (Bool-cases (at kind p)) [
    | inl t ↦
        rw (t, parse_annotation)
          (then-Returns _ (parse_type_expr-Returns source (advance p))
            (λ ty q still. returns _ (Stays-Goes (Stays-trans (advance-Moves p).stays still))))
    | inr f ↦ rw (f, parse_annotation) (returns _ (Stays-Goes (Stays-refl p)))
  ]

  pub identifier-Stays :
      (expected : Expectation) (p : Parser) → Stays p (parse_identifier_symbol source expected p).1
  identifier-Stays expected p =
      (parse_symbol-Moves source (token_can_name_value (peek p).kind) expected p).stays

  pub parse_let_decl-Returns :
      (p : Parser) → at TokenKind.eof p ≡ false → Returns (Onward p) (parse_let_decl source p)
  unfolding parse_let_decl
  parse_let_decl-Returns p inside =
      let q = parse_identifier_symbol source Expectation.identifier (advance p) in
      let named =
        Onward-Goes (advance-Onward p inside)
          (Stays-Goes (identifier-Stays Expectation.identifier (advance p))) in
      then-Returns _ (Onward-Returns named (parse_annotation-Returns TokenKind.colon q.1))
        (λ ty r on.
          let on' = Onward-Goes on (Stays-Goes (taken-Stays TokenKind.assign _ r)) in
          then-Returns _ (Onward-Returns on' (expression-Goes (take_or_miss TokenKind.assign r)))
            (λ e t on''. returns _ (Onward-Goes on'' (Stays-Goes (renamed-Stays t _)))))

  condition-Returns : (p : Parser) → Returns (Goes p) (parse_condition_expr source p)
  unfolding parse_condition_expr
  condition-Returns p =
      then-Returns _
        (Goes-Returns (Stays-Goes (taken-Stays TokenKind.l_paren _ p))
          (expression-Goes (open_condition source p)))
        (λ e q g. returns _ (Goes-trans g (Stays-Goes (taken-Stays TokenKind.r_paren _ q))))

  -- Nested blocks return on fewer tokens than `p` has ahead.
  abbrev pub BlocksBelow : BlockParser → Parser → Type 0
  BlocksBelow block p =
      (x : Expectation) (q : Parser)
      → length q.ahead < length p.ahead
      → Returns (Goes q) (block x q)

  -- A block behind its colon.
  colon-block :
      (block : BlockParser) (x : Expectation) {p q : Parser}
      → BlocksBelow block p
      → Onward p q
      → Returns (Onward p) (block x (expect_block_colon q))
  colon-block block x {p} {q} below on =
      let colon = Onward-Goes on (Stays-Goes (taken-Stays TokenKind.colon _ q)) in
      Onward-Returns colon (below x (expect_block_colon q) colon.shorter)

  parse_else-Returns :
      (block : BlockParser) (b : Block) {p q : Parser}
      → BlocksBelow block p
      → Onward p q
      → Returns (Onward p) (parse_else source block b q)
  unfolding parse_else
  parse_else-Returns block b {p} {q} below on = elim (Bool-cases (at TokenKind.kw_else q)) [
    | inl t ↦
        let moved = Onward-Goes on (Stays-Goes (advance-Moves q).stays) in
        rw (t, parse_else)
          (then-Returns _ (colon-block block Expectation.else_body below moved)
            (λ e r on'. returns _ on'))
    | inr f ↦ rw (f, parse_else) (returns _ on)
  ]

  parse_if-Returns :
      (block : BlockParser) (p : Parser)
      → BlocksBelow block p
      → at TokenKind.eof p ≡ false
      → Returns (Onward p) (parse_if_stmt source block p)
  unfolding parse_if_stmt
  parse_if-Returns block p below inside =
      then-Returns _ (Onward-Returns (advance-Onward p inside) (condition-Returns (advance p)))
        (λ e q on. then-Returns _ (colon-block block Expectation.if_body below on) (λ b r on'.
          then-Returns _ (parse_else-Returns block b below on')
            (λ x t on''. returns _ (Onward-Goes on'' (Stays-Goes (renamed-Stays t _))))))

  parse_while-Returns :
      (block : BlockParser) (p : Parser)
      → BlocksBelow block p
      → at TokenKind.eof p ≡ false
      → Returns (Onward p) (parse_while_stmt source block p)
  unfolding parse_while_stmt
  parse_while-Returns block p below inside =
      then-Returns _ (Onward-Returns (advance-Onward p inside) (condition-Returns (advance p)))
        (λ e q on.
          then-Returns _ (colon-block block Expectation.while_body below on)
            (λ b r on'. returns _ (Onward-Goes on' (Stays-Goes (renamed-Stays r _)))))

  expect_in-Stays : (p : Parser) → Stays p (expect_in source p)
  expect_in-Stays p = elim (Bool-cases (token_is_contextual source (peek p) (codes "in"))) [
    | inl t ↦ rw t (advance-Moves p).stays
    | inr f ↦ rw f (emit_statement_error-Stays _ p)
  ]

  parse_for-Returns :
      (block : BlockParser) (p : Parser)
      → BlocksBelow block p
      → at TokenKind.eof p ≡ false
      → Returns (Onward p) (parse_for_stmt source block p)
  unfolding parse_for_stmt
  parse_for-Returns block p below inside =
      let q = (parse_identifier_symbol source Expectation.identifier (advance p)).1 in
      let named =
        Stays-Goes
          (Stays-trans (identifier-Stays Expectation.identifier (advance p)) (expect_in-Stays q)) in
      then-Returns _
        (Onward-Returns (Onward-Goes (advance-Onward p inside) named)
          (expression-Goes (expect_in source q)))
        (λ e r on.
          then-Returns _ (colon-block block Expectation.for_body below on)
            (λ b t on'. returns _ (Onward-Goes on' (Stays-Goes (renamed-Stays t _)))))

  parse_return-Returns :
      (p : Parser) → at TokenKind.eof p ≡ false → Returns (Onward p) (parse_return_stmt source p)
  unfolding parse_return_stmt
  parse_return-Returns p inside =
      let q = advance p in
      let on = advance-Onward p inside in
      elim (Bool-cases (at TokenKind.newline q || at TokenKind.dedent q || at TokenKind.eof q)) [
        | inl t ↦
            rw (t, parse_return_stmt) (returns _ (Onward-Goes on (Stays-Goes (renamed-Stays q _))))
        | inr f ↦
            rw (f, parse_return_stmt)
              (then-Returns _ (Onward-Returns on (expression-Goes q))
                (λ e r on'. returns _ (Onward-Goes on' (Stays-Goes (renamed-Stays r _)))))
      ]

  -- A statement, or none, behind which the loop of a block has gone on from `p`.
  record Steps (p : Parser) (result : Option (Option Stmt × Parser)) : Type 0 where
    stmt : Option Stmt
    after : Parser
    ends : result ≡ some (stmt, after)
    onward : Onward p (after_stmt source stmt after)

  some-Steps :
      {p : Parser} {o : Option (Stmt × Parser)}
      → Returns (Onward p) o
      → Steps p (o >>= some_stmt source)
  some-Steps r = record {
    stmt = some r.value;
    after = r.after;
    ends = rw r.ends refl;
    onward = Onward-Goes r.holds (
        Goes-trans (begin_statement-Goes r.after)
          (Stays-Goes (terminator-Stays (begin_statement r.after))));
  }

  let-Steps :
      {p : Parser} {o : Option (LetDecl × Parser)}
      → Returns (Onward p) o
      → Steps p (o >>= let_stmt source)
  let-Steps r = record {
    stmt = some (Stmt.let_decl r.value);
    after = r.after;
    ends = rw r.ends refl;
    onward = Onward-Goes r.holds (
        Goes-trans (begin_statement-Goes r.after)
          (Stays-Goes (terminator-Stays (begin_statement r.after))));
  }

  -- No statement: the recovery.
  none-Steps :
      {p : Parser} (q : Parser) → Onward p (synchronize_statement q) → Steps p (some (none, q))
  none-Steps q on =
      let s = synchronize_statement q in
      record {
        stmt = none;
        after = q;
        ends = refl;
        onward = Onward-Goes on (
            Goes-trans (begin_statement-Goes s)
              (Stays-Goes (terminator-Stays (begin_statement s))));
      }

  pub expression-Onward :
      (p : Parser) → at TokenKind.eof p ≡ false → Returns (Onward p) (parse_expression source p)
  expression-Onward p inside =
      let r = parse_expression-Returns p in
      record {
        value = r.value;
        after = r.after;
        ends = r.ends;
        holds = record { goes = Stays-Goes r.holds.stays; shorter = r.holds.shorter inside };
      }

  expr_stmt-Returns :
      (p : Parser) → at TokenKind.eof p ≡ false → Returns (Onward p) (parse_expr_stmt source p)
  unfolding parse_expr_stmt
  expr_stmt-Returns p inside =
      then-Returns _ (expression-Onward p inside)
        (λ e q on'. returns _ (Onward-Goes on' (Stays-Goes (renamed-Stays q _))))

  pub not_end :
      (p : Parser) → is_statement_boundary (peek p).kind ≡ false → at TokenKind.eof p ≡ false
  unfolding kind_is
  not_end p h = ground arith

  pub recovered :
      (p : Parser) (x : Expectation)
      → is_statement_boundary (peek p).kind ≡ false
      → Onward p (synchronize_statement (emit_unexpected x p))
  recovered p x h =
      let q = emit_unexpected x p in
      let emitted = emit_statement_error-Stays _ p in
      let same : is_statement_boundary (peek q).kind ≡ false = rw (emit_ahead _ p) h in
      let lt = synchronize_statement-shorter q same in
      record {
        goes = Stays-Goes (Stays-trans emitted (synchronize_statement-Stays q));
        shorter = omega (arith, lt, emitted.no_longer);
      }

  plain-Steps :
      (p : Parser)
      → is_statement_boundary (peek p).kind ≡ false
      → Steps p (parse_plain_stmt source p)
  unfolding parse_plain_stmt
  plain-Steps p h =
      let inside = not_end p h in
      let on = Onward-Goes (advance-Onward p inside) (Stays-Goes (renamed-Stays (advance p) _)) in
      elim (Bool-cases (token_is_contextual source (peek p) (codes "break"))) [
        | inl t ↦ rw (t, parse_plain_stmt) (some-Steps {o = some _} (returns _ on))
        | inr f ↦ elim (Bool-cases (token_is_contextual source (peek p) (codes "continue"))) [
          | inl t ↦ rw (f, t, parse_plain_stmt) (some-Steps {o = some _} (returns _ on))
          | inr f' ↦ elim (Bool-cases (is_expression_start (peek p).kind)) [
            | inl t ↦ rw (f, f', t, parse_plain_stmt) (some-Steps (expr_stmt-Returns p inside))
            | inr f'' ↦ rw (f, f', f'', parse_plain_stmt) (none-Steps _ (recovered p _ h))
          ]
        ]
      ]

  -- `kind` is the kind of the token of `p`.
  stmt_of-Steps :
      (block : BlockParser) (kind : TokenKind) (p : Parser)
      → (peek p).kind ≡ kind
      → BlocksBelow block p
      → is_statement_boundary (peek p).kind ≡ false
      → Steps p (stmt_of source block kind p)
  unfolding stmt_of
  stmt_of-Steps block TokenKind.kw_let p e below h =
      let-Steps (parse_let_decl-Returns p (not_end p h))
  stmt_of-Steps block TokenKind.kw_if p e below h =
      some-Steps (parse_if-Returns block p below (not_end p h))
  stmt_of-Steps block TokenKind.kw_while p e below h =
      some-Steps (parse_while-Returns block p below (not_end p h))
  stmt_of-Steps block TokenKind.kw_for p e below h =
      some-Steps (parse_for-Returns block p below (not_end p h))
  stmt_of-Steps block TokenKind.kw_return p e below h =
      some-Steps (parse_return-Returns p (not_end p h))
  stmt_of-Steps block kind p e below h = plain-Steps p h

  parse_stmt-Steps :
      (block : BlockParser) (p : Parser)
      → BlocksBelow block p
      → is_statement_boundary (peek p).kind ≡ false
      → Steps p (parse_stmt source block p)
  unfolding parse_stmt
  parse_stmt-Steps block p below h = elim (Bool-cases (at TokenKind.error p)) [
    | inl t ↦
        let (q, e, m) = consume_lexer_error-Moves p t in
        let on : Onward p q = record {
          goes = Stays-Goes m.stays;
          shorter = m.shorter (not_end p h);
        } in
        rw (e, parse_stmt, e)
          (none-Steps q (Onward-Goes on (Stays-Goes (synchronize_statement-Stays q))))
    | inr f ↦
        rw (consume_lexer_error-none p f, parse_stmt)
          (stmt_of-Steps block (peek p).kind p refl below h)
  ]

  pub no_boundary :
      (p : Parser)
      → at TokenKind.newline p ≡ false
      → (at TokenKind.dedent p || at TokenKind.eof p) ≡ false
      → is_statement_boundary (peek p).kind ≡ false
  unfolding kind_is
  no_boundary p h h' = ground arith

  added-Returns :
      {p : Parser} (s : Option Stmt) (r : (Stmts × Span) × Parser)
      → Goes p r.1
      → Returns (Goes p) (some (add_stmt source s r))
  added-Returns none r g = returns _ g
  added-Returns (some s) r g = returns _ g

  pub close_section-Stays : (end : Span) (p : Parser) → Stays p (close_section source end p).1
  close_section-Stays end p = elim (Bool-cases (at TokenKind.dedent p)) [
    | inl t ↦ rw t (advance-Moves p).stays
    | inr f ↦ elim (Bool-cases (at TokenKind.eof p)) [
      | inl t ↦ rw (f, t) (Stays-refl p)
      | inr f' ↦ rw (f, f') (emit_statement_error-Stays _ p)
    ]
  ]

  parse_stmts-Returns :
      (block : BlockParser) (count : ℕ) (end : Span) (p : Parser)
      → ((x : Expectation) (q : Parser)
          → length q.ahead < length p.ahead
          → Returns (Goes q) (block x q))
      → length p.ahead < count
      → Returns (Goes p) (parse_stmts source block count end p)
  unfolding parse_stmts
  parse_stmts-Returns block zero end p below small = absurd (omega arith)
  parse_stmts-Returns block (suc count) end p below small =
      let q = skip_newlines p in
      let g = Stays-Goes (skip_newlines-Stays p) in
      let le = g.no_longer in
      elim (Bool-cases (at TokenKind.dedent q || at TokenKind.eof q)) [
        | inl t ↦ rw (t, parse_stmts) (returns _ g)
        | inr f ↦
            let b = begin_statement q in
            let s =
              parse_stmt-Steps block b (λ x r lt. below x r (omega arith))
                (no_boundary q (skip_newlines-done p) f) in
            let next = after_stmt source s.stmt s.after in
            let lt = s.onward.shorter in
            let all = Goes-trans g (Goes-trans (begin_statement-Goes q) s.onward.goes) in
            rw (f, s.ends, parse_stmts)
              (then-Returns _
                (Goes-Returns all (
                  parse_stmts-Returns block count (end_of source s.stmt end) next
                    (λ x r lt'. below x r (omega arith)) (omega arith)))
                (λ statements r g'. added-Returns s.stmt (statements, r) g'))
      ]

  finish_block-Goes :
      (start : Span) (r : (Stmts × Span) × Parser) → Stays r.1 (finish_block source start r).1
  finish_block-Goes start ((statements, end), p) =
      Stays-trans (close_section-Stays end p) (renamed-Stays _ _)

  parse_block_with-Returns :
      (fuel : ℕ) (x : Expectation) (p : Parser)
      → length p.ahead < fuel
      → Returns (Goes p) (parse_block_with source fuel x p)
  unfolding parse_block_with
  parse_block_with-Returns zero x p small = absurd (omega arith)
  parse_block_with-Returns (suc fuel) x p small =
      let entered = enter_indented_section_for x p in
      let s = enter-Stays x p in
      elim (Bool-cases entered.0) [
        | inl t ↦
            let le = s.no_longer in
            rw (t, parse_block_with)
              (then-Returns _
                (Goes-Returns (Stays-Goes s) (
                  parse_stmts-Returns (parse_block_with source fuel) (suc (length entered.1.ahead))
                    (current_span p) entered.1
                    (λ x' q lt. parse_block_with-Returns fuel x' q (omega arith)) (omega arith)))
                (λ statements q g.
                  returns _ (
                    Goes-trans g
                      (Stays-Goes (finish_block-Goes (current_span p) (statements, q))))))
        | inr f ↦
            rw (f, parse_block_with)
              (returns _ (Stays-Goes (Stays-trans s (renamed-Stays entered.1 _))))
      ]

-- `parse_block_for` returns. It does not go back and loses no error.
pub parse_block_for-Returns :
    (source : Bytes) (x : Expectation) (p : Parser) → Returns (Goes p) (parse_block_for source x p)
unfolding parse_block_for
parse_block_for-Returns source x p =
    parse_block_with-Returns source (suc (length p.ahead)) x p (omega arith)
