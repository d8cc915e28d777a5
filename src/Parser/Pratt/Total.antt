-- ===== src/Parser/Pratt/Total.antt =====
-- The parser of expressions (crates/parser/src/expr.rs) returns, and what it does to its state.
use thagore.Base.{
  ℕ, zero, suc, ◌+◌, ◌*◌, ◌<◌, ◌≤◌, ◌≡◌, refl, true, false, ◌||◌, ◌&&◌, length, Option, some, arith,
  Bool-cases, Option-cases, inl, inr, if◌then◌else◌, ◌>>=◌, leb, ltb,
}
use thagore.Ast.{Expr, Exprs}
use thagore.Lexer.Keywords.{codes}
use thagore.Lexer.Source.{Bytes}
use thagore.Lexer.Token.{Token, TokenKind}
use thagore.Parser.Kinds.{kind_is, is_expr_terminator, token_can_name_value, is_builtin_type}
use thagore.Parser.{
  Parser, Expectation, peek, advance, at, emit_missing, skip_soft_layout, has_text,
}
use thagore.Parser.Moves.{
  Stays, Moves, Stays-refl, Stays-trans, Moves-Stays, advance-Moves, renamed-Stays,
  emit_statement_error-Stays, emit-skip_token, skip_soft_layout-Stays, consume_lexer_error-Moves,
  consume_lexer_error-none, parse_symbol-Moves,
}
use thagore.Parser.Pratt.{
  Again, close_paren, finish_call, finish_index, parse_identifier_like_prefix, prefix_of,
  parse_prefix, parse_args, parse_field, parse_postfix, combine, parse_loop, parse_expr,
  current_infix_operator, InfixOperator, is_postfix_start, postfix_bp, prefix_not_bp, prefix_neg_bp,
}

-- A call that returns, in a state of which `R` holds.
pub record Returns {A : Type 0} (R : Parser → Type 0) (result : Option (A × Parser)) : Type 0 where
  pub value : A
  pub after : Parser
  pub ends : result ≡ some (value, after)
  pub holds : R after

pub returns : {A : Type 0} {R : Parser → Type 0} (r : A × Parser) → R r.1 → Returns R (some r)
returns (a, q) h = record { value = a; after = q; ends = refl; holds = h }

-- A call, and what is done with its result.
pub then-Returns :
    {A B : Type 0} {R S : Parser → Type 0} {o : Option (A × Parser)}
    (f : A × Parser → Option (B × Parser))
    → Returns R o
    → ((a : A) (q : Parser) → R q → Returns S (f (a, q)))
    → Returns S (o >>= f)
then-Returns f r next =
    let s = next r.value r.after r.holds in
    record { value = s.value; after = s.after; ends = rw r.ends s.ends; holds = s.holds }

pub close-Stays :
    (kind : TokenKind) (p : Parser) → Stays p (if at kind p then advance p else emit_missing kind p)
close-Stays kind p = elim (Bool-cases (at kind p)) [
  | inl t ↦ rw t (advance-Moves p).stays
  | inr f ↦ rw f (emit_statement_error-Stays _ p)
]

module _ (source : Bytes) where
  close_paren-Stays : (e : Expr) (p : Parser) → Stays p (close_paren source (e, p)).1
  close_paren-Stays e p = elim (Bool-cases (at TokenKind.r_paren p)) [
    | inl t ↦ rw t (advance-Moves p).stays
    | inr f ↦ rw f (emit_statement_error-Stays _ p)
  ]

  finish_call-Stays :
      (lhs : Expr) (args : Exprs) (p : Parser) → Stays p (finish_call source lhs (args, p)).1
  finish_call-Stays lhs args p = elim (Bool-cases (at TokenKind.r_paren p)) [
    | inl t ↦ rw t (Stays-trans (advance-Moves p).stays (renamed-Stays (advance p) _))
    | inr f ↦ rw f (
        Stays-trans (emit_statement_error-Stays _ p)
          (renamed-Stays (emit_missing TokenKind.r_paren p) _))
  ]

  finish_index-Stays :
      (lhs place : Expr) (p : Parser) → Stays p (finish_index source lhs (place, p)).1
  finish_index-Stays lhs place p = elim (Bool-cases (at TokenKind.r_bracket p)) [
    | inl t ↦ rw t (Stays-trans (advance-Moves p).stays (renamed-Stays (advance p) _))
    | inr f ↦ rw f (
        Stays-trans (emit_statement_error-Stays _ p)
          (renamed-Stays (emit_missing TokenKind.r_bracket p) _))
  ]

  parse_field-Stays : (lhs : Expr) (p : Parser) → Stays (advance p) (parse_field source lhs p).1
  unfolding parse_field
  parse_field-Stays lhs p =
      let moved =
        parse_symbol-Moves source
          (token_can_name_value (peek (advance p)).kind || is_builtin_type (peek (advance p)).kind)
          Expectation.identifier (advance p) in
      Stays-trans moved.stays (renamed-Stays _ _)

  combine-Stays :
      (operator : InfixOperator) (token : Token) (lhs rhs : Expr) (p : Parser)
      → Stays p (combine source operator token lhs (rhs, p)).1
  unfolding combine
  combine-Stays InfixOperator.assign token lhs rhs p = renamed-Stays p _
  combine-Stays (InfixOperator.binary op) token lhs rhs p = renamed-Stays p _
  combine-Stays InfixOperator.postfix token lhs rhs p = emit_statement_error-Stays _ p

  -- A recursive call that returns on fewer tokens than `p` has ahead.
  abbrev ReturnsBelow : Again → Parser → Type 0
  ReturnsBelow again p =
      (m : ℕ) (q : Parser) → length q.ahead < length p.ahead → Returns (Moves q) (again m q)

  -- Behind a token that is not the end.
  again-Returns :
      (again : Again) (p : Parser) (m : ℕ)
      → ReturnsBelow again p
      → at TokenKind.eof p ≡ false
      → Returns (Moves p) (again m (advance p))
  again-Returns again p m below inside =
      let lt = (advance-Moves p).shorter inside in
      let r = below m (advance p) lt in
      let all = Moves-Stays (advance-Moves p) r.holds.stays in
      record { value = r.value; after = r.after; ends = r.ends; holds = all }

  identifier-Returns :
      (again : Again) (p : Parser)
      → ReturnsBelow again p
      → at TokenKind.eof p ≡ false
      → Returns (Moves p) (parse_identifier_like_prefix source again p)
  unfolding parse_identifier_like_prefix
  identifier-Returns again p below inside =
      elim (Bool-cases
        (has_text source (peek p) (codes "true") || has_text source (peek p) (codes "false"))) [
          | inl t ↦
              rw (t, parse_identifier_like_prefix)
                (returns _ (Moves-Stays (advance-Moves p) (renamed-Stays (advance p) _)))
          | inr f ↦ elim (Bool-cases (has_text source (peek p) (codes "not"))) [
            | inl t ↦
                rw (f, t, parse_identifier_like_prefix)
                  (then-Returns _ (again-Returns again p prefix_not_bp below inside)
                    (λ e q m. returns _ (Moves-Stays m (renamed-Stays q _))))
            | inr f' ↦
                rw (f, f', parse_identifier_like_prefix)
                  (returns _ (Moves-Stays (advance-Moves p) (renamed-Stays (advance p) _)))
          ]
        ]

  -- The kinds at which `prefix_of` reads a part; the rest are an error.
  prefix-Returns :
      (again : Again) (kind : TokenKind) (p : Parser)
      → ReturnsBelow again p
      → kind_is TokenKind.eof (peek p).kind ≡ kind_is TokenKind.eof kind
      → Returns (Moves p) (prefix_of source again kind p)
  unfolding prefix_of kind_is
  prefix-Returns again TokenKind.identifier p below e = identifier-Returns again p below e
  prefix-Returns again TokenKind.kw_from p below e = identifier-Returns again p below e
  prefix-Returns again TokenKind.kw_include p below e = identifier-Returns again p below e
  prefix-Returns again TokenKind.kw_i32 p below e = identifier-Returns again p below e
  prefix-Returns again TokenKind.kw_f32 p below e = identifier-Returns again p below e
  prefix-Returns again TokenKind.kw_bool p below e = identifier-Returns again p below e
  prefix-Returns again TokenKind.kw_str p below e = identifier-Returns again p below e
  prefix-Returns again TokenKind.integer p below e =
      returns _ (Moves-Stays (advance-Moves p) (renamed-Stays (advance p) _))
  prefix-Returns again TokenKind.float p below e =
      returns _ (Moves-Stays (advance-Moves p) (renamed-Stays (advance p) _))
  prefix-Returns again TokenKind.string p below e =
      returns _ (Moves-Stays (advance-Moves p) (renamed-Stays (advance p) _))
  prefix-Returns again TokenKind.minus p below e =
      then-Returns _ (again-Returns again p prefix_neg_bp below e)
        (λ x q m. returns _ (Moves-Stays m (renamed-Stays q _)))
  prefix-Returns again TokenKind.l_paren p below e =
      then-Returns _ (again-Returns again p 0 below e)
        (λ x q m. returns _ (Moves-Stays m (close_paren-Stays x q)))
  prefix-Returns again kind p below e =
      returns _ (Moves-Stays (emit-skip_token _ p) (renamed-Stays _ _))

  parse_prefix-Returns :
      (again : Again) (p : Parser)
      → ReturnsBelow again p
      → Returns (Moves p) (parse_prefix source again p)
  unfolding parse_prefix
  parse_prefix-Returns again p below = elim (Bool-cases (at TokenKind.error p)) [
    | inl t ↦
        let (q, e, m) = consume_lexer_error-Moves p t in
        rw e (returns _ (Moves-Stays m (renamed-Stays q _)))
    | inr f ↦ rw (consume_lexer_error-none p f) (prefix-Returns again (peek p).kind p below refl)
  ]

  -- A recursive call that returns on no more tokens than `n`.
  abbrev ReturnsUpTo : Again → ℕ → Type 0
  ReturnsUpTo again n = (m : ℕ) (q : Parser) → length q.ahead ≤ n → Returns (Moves q) (again m q)

  parse_args-Returns :
      (again : Again) (count : ℕ) (p : Parser)
      → ReturnsUpTo again (length p.ahead)
      → length p.ahead < count
      → Returns (Stays p) (parse_args source again count p)
  unfolding parse_args
  parse_args-Returns again zero p below small = absurd (omega arith)
  parse_args-Returns again (suc count) p below small =
      elim (Bool-cases (at TokenKind.r_paren p || at TokenKind.eof p)) [
        | inl t ↦ rw (t, parse_args) (returns _ (Stays-refl p))
        | inr f ↦
            let inside : at TokenKind.eof p ≡ false = ground arith in
            rw (f, parse_args)
              (then-Returns _ (below 0 p (omega arith)) (λ arg q m.
                let lt = m.shorter inside in
                let soft = skip_soft_layout-Stays q in
                let passed = Stays-trans m.stays soft in
                let comma = (advance-Moves (skip_soft_layout q)).stays in
                let next = skip_soft_layout-Stays (advance (skip_soft_layout q)) in
                let to_next = Stays-trans passed (Stays-trans comma next) in
                elim (Bool-cases (at TokenKind.comma (skip_soft_layout q))) [
                  | inl t ↦ rw t (
                      then-Returns _
                        (parse_args-Returns again count
                          (skip_soft_layout (advance (skip_soft_layout q)))
                          (λ m' q' le. below m' q' (omega (arith, to_next.no_longer)))
                          (omega (arith, lt, soft.no_longer, comma.no_longer, next.no_longer)))
                        (λ args r still. returns _ (Stays-trans to_next still)))
                  | inr f' ↦ rw f' (returns _ passed)
                ]))
      ]

  parse_postfix-Returns :
      (again : Again) (count : ℕ) (kind : TokenKind) (lhs : Expr) (p : Parser)
      → is_postfix_start kind ≡ true
      → at TokenKind.eof p ≡ false
      → ReturnsBelow again p
      → length p.ahead ≤ count
      → Returns (Moves p) (parse_postfix source again count kind lhs p)
  unfolding parse_postfix
  parse_postfix-Returns again count TokenKind.dot lhs p starts inside below small =
      returns _ (Moves-Stays (advance-Moves p) (parse_field-Stays lhs p))
  parse_postfix-Returns again count TokenKind.l_bracket lhs p starts inside below small =
      then-Returns _ (again-Returns again p 0 below inside)
        (λ x q m. returns _ (Moves-Stays m (finish_index-Stays lhs x q)))
  parse_postfix-Returns again count TokenKind.l_paren lhs p starts inside below small =
      let lt = (advance-Moves p).shorter inside in
      let soft = skip_soft_layout-Stays (advance p) in
      let up_to : ReturnsUpTo again (length (skip_soft_layout (advance p)).ahead) =
        λ m q le. below m q (omega (arith, lt, soft.no_longer)) in
      then-Returns _
        (parse_args-Returns again count (skip_soft_layout (advance p)) up_to
          (omega (arith, lt, soft.no_longer)))
        (λ args q still. returns _ (
          Moves-Stays (Moves-Stays (Moves-Stays (advance-Moves p) soft) still)
            (finish_call-Stays lhs args q)))
  parse_postfix-Returns again count kind lhs p starts inside below small = absurd (ground arith)

  not_terminator :
      (kind : TokenKind) → is_expr_terminator kind ≡ false → kind_is TokenKind.eof kind ≡ false
  unfolding kind_is
  not_terminator kind h = ground arith

  from-Stays :
      {A : Type 0} {p q : Parser} {o : Option (A × Parser)}
      → Stays p q
      → Returns (Stays q) o
      → Returns (Stays p) o
  from-Stays s r = record {
    value = r.value;
    after = r.after;
    ends = r.ends;
    holds = Stays-trans s r.holds;
  }

  below-Moves :
      (again : Again) {p q : Parser} → Stays p q → ReturnsBelow again p → ReturnsBelow again q
  below-Moves again s below = λ m r lt. below m r (omega (arith, lt, s.no_longer))

  parse_loop-Returns :
      (again : Again) (count m : ℕ) (lhs : Expr) (p : Parser)
      → ReturnsBelow again p
      → length p.ahead < count
      → Returns (Stays p) (parse_loop source again count m lhs p)
  unfolding parse_loop
  parse_loop-Returns again zero m lhs p below small = absurd (omega arith)
  parse_loop-Returns again (suc count) m lhs p below small =
      elim (Bool-cases (is_expr_terminator (peek p).kind)) [
        | inl t ↦ rw (t, parse_loop) (returns _ (Stays-refl p))
        | inr f ↦
            let inside = not_terminator (peek p).kind f in
            elim (Bool-cases (leb m postfix_bp && is_postfix_start (peek p).kind)) [
              | inl t ↦
                  rw (f, t, parse_loop)
                    (then-Returns _
                      (parse_postfix-Returns again count (peek p).kind lhs p (ground arith) inside
                        below (omega arith))
                      (λ e q moved.
                        let lt = moved.shorter inside in
                        from-Stays moved.stays (
                          parse_loop-Returns again count m e q (below-Moves again moved.stays below)
                            (omega (arith, lt)))))
              | inr f' ↦ elim (Option-cases (current_infix_operator source (peek p))) [
                | inl e ↦ rw (f, f', e, parse_loop) (returns _ (Stays-refl p))
                | inr ((binding, operator), e) ↦ elim (Bool-cases (ltb binding.left m)) [
                  | inl t ↦ rw (f, f', e, t, parse_loop) (returns _ (Stays-refl p))
                  | inr g ↦
                      rw (f, f', e, g, parse_loop)
                        (then-Returns _ (again-Returns again p binding.right below inside)
                          (λ rhs q moved.
                            let r = combine source operator (peek p) lhs (rhs, q) in
                            let both =
                              Moves-Stays moved (combine-Stays operator (peek p) lhs rhs q) in
                            let lt = both.shorter inside in
                            from-Stays both.stays (
                              parse_loop-Returns again count m r.0 r.1
                                (below-Moves again both.stays below) (omega (arith, lt)))))
                ]
              ]
            ]
      ]

-- With two steps of fuel for each token ahead, and two more, `parse_expr` returns. It consumes a token unless
-- it stands at the end, does not go back, and adds at most one error in a statement, none where the
-- statement has one.
pub parse_expr-Returns :
    (source : Bytes) (fuel min_bp : ℕ) (p : Parser)
    → 2 * length p.ahead + 2 ≤ fuel
    → Returns (Moves p) (parse_expr source fuel min_bp p)
unfolding parse_expr
parse_expr-Returns source zero m p enough = absurd (omega arith)
parse_expr-Returns source (suc fuel) m p enough =
    let again = parse_expr source fuel in
    let below : ReturnsBelow source again p =
      λ m' q lt. parse_expr-Returns source fuel m' q (omega arith) in
    then-Returns _ (parse_prefix-Returns source again p below) (λ e q moved.
      let all = below-Moves source again moved.stays below in
      let looped =
        parse_loop-Returns source again fuel m e q all (omega (arith, moved.stays.no_longer)) in
      record {
        value = looped.value;
        after = looped.after;
        ends = looped.ends;
        holds = Moves-Stays moved looped.holds;
      })
