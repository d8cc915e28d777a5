-- ===== src/Parser/Lists/Total.antt =====
-- The lists and sections of declarations (crates/parser/src/decl.rs) end.
use Prim.Native.Nat.{min}
use thagore.Base.{
  ℕ, zero, suc, ◌+◌, ◌<◌, ◌≤◌, ◌≡◌, refl, Bool, false, ◌||◌, List, [], ◌∷◌, length, Option, arith,
  Bool-cases, Option-cases, inl, inr, ◌>>=◌,
}
use thagore.Lexer.Keywords.{codes}
use thagore.Lexer.Source.{Bytes}
use thagore.Lexer.Token.{Token, TokenKind}
use thagore.Parser.Kinds.{kind_is}
use thagore.Parser.{
  Parser, Expectation, peek, advance, at, skip_newlines, has_text, token_is_contextual,
  parse_identifier_symbol,
}
use thagore.Parser.Moves.{
  quiet, Stays, Stays-refl, Stays-trans, advance-Moves, renamed-Stays, emit_statement_error-Stays,
  emit-skip_token,
}
use thagore.Parser.Pratt.Total.{Returns, returns, then-Returns}
use thagore.Parser.Types.Total.{parse_type_expr-Returns, consumed}
use thagore.Parser.Stmts.Goes.{
  Goes, Onward, Stays-Goes, Goes-trans, Goes-Onward, Goes-Returns, Stays-Returns,
  skip_newlines-Stays, skip_newlines-done, taken-Stays,
}
use thagore.Parser.Stmts.Total.{identifier-Stays}
use thagore.Parser.Lists.{
  separated, followed, section_loop, parse_param_type, parse_param, parse_param_list,
  constraint_kind, parse_constraint, parse_constraints, parse_type_param, parse_type_param_list,
  count_dots, segment, parse_segments, parse_import_path, parse_alias, parse_import_symbol_entry,
}

-- Items that return on no more tokens than `n`.
abbrev pub ItemsUpTo : {A : Type 0} → (Parser → Option (A × Parser)) → ℕ → Type 0
ItemsUpTo item n = (q : Parser) → length q.ahead ≤ n → Returns (Goes q) (item q)

pub no_end-comma : kind_is TokenKind.eof TokenKind.comma ≡ false
unfolding kind_is
no_end-comma = refl

pub separated-Returns :
    {A : Type 0} (item : Parser → Option (A × Parser)) (count : ℕ) (closing : TokenKind)
    (p : Parser)
    → ((q : Parser) → Returns (Goes q) (item q))
    → length p.ahead < count
    → Returns (Goes p) (separated item count closing p)
unfolding separated
separated-Returns item zero closing p all small = absurd (omega arith)
separated-Returns item (suc count) closing p all small =
    elim (Bool-cases (at closing p || at TokenKind.eof p)) [
      | inl t ↦ rw (t, separated) (returns _ (Stays-Goes (Stays-refl p)))
      | inr f ↦
          rw (f, separated)
            (then-Returns _ (all p) (λ x q g.
              let le = g.no_longer in
              elim (Bool-cases (at TokenKind.comma q)) [
                | inl t ↦
                    let lt = consumed TokenKind.comma q no_end-comma t in
                    rw t (
                      then-Returns _
                        (Goes-Returns (Goes-trans g (Stays-Goes (advance-Moves q).stays))
                          (separated-Returns item count closing (advance q) all (omega arith)))
                        (λ xs r g'. returns _ g'))
                | inr f' ↦ rw f' (returns _ g)
              ]))
    ]

pub followed-Returns :
    {A : Type 0} (item : Parser → A × Parser) (count : ℕ) (separator : TokenKind) (p : Parser)
    → ((q : Parser) → Stays q (item q).1)
    → kind_is TokenKind.eof separator ≡ false
    → length p.ahead < count
    → Returns (Stays p) (followed item count separator p)
unfolding followed
followed-Returns item zero separator p all no_end small = absurd (omega arith)
followed-Returns item (suc count) separator p all no_end small =
    elim (Bool-cases (at separator p)) [
      | inl t ↦
          let lt = consumed separator p no_end t in
          let x = all (advance p) in
          let le = x.no_longer in
          let rest =
            followed-Returns item count separator (item (advance p)).1 all no_end (omega arith) in
          rw (t, followed)
            (then-Returns _ rest
              (λ xs q s. returns _ (Stays-trans (advance-Moves p).stays (Stays-trans x s))))
      | inr f ↦ rw (f, followed) (returns _ (Stays-refl p))
    ]

-- A step that goes on, or breaks off, at a token that is not the end of the section.
abbrev pub StepsOnward : {S : Type 0} → (S → Parser → Option ((Bool × S) × Parser)) → Type 0
StepsOnward {S} step =
    (s : S) (q : Parser)
    → at TokenKind.newline q ≡ false
    → (at TokenKind.dedent q || at TokenKind.eof q) ≡ false
    → Returns (Onward q) (step s q)

pub section_loop-Returns :
    {S : Type 0} (step : S → Parser → Option ((Bool × S) × Parser)) (count : ℕ) (s : S) (p : Parser)
    → StepsOnward step
    → length p.ahead < count
    → Returns (Goes p) (section_loop step count s p)
unfolding section_loop
section_loop-Returns step zero s p all small = absurd (omega arith)
section_loop-Returns step (suc count) s p all small =
    elim (Bool-cases (at TokenKind.dedent p || at TokenKind.eof p)) [
      | inl t ↦ rw (t, section_loop) (returns _ (Stays-Goes (Stays-refl p)))
      | inr f ↦
          let q = skip_newlines p in
          let g = Stays-Goes (skip_newlines-Stays p) in
          let le = g.no_longer in
          elim (Bool-cases (at TokenKind.dedent q || at TokenKind.eof q)) [
            | inl t ↦ rw (f, t, section_loop) (returns _ g)
            | inr f' ↦
                let r = all s q (skip_newlines-done p) f' in
                let all_on = Goes-Onward g r.holds in
                let lt = all_on.shorter in
                let next = section_loop-Returns step count r.value.1 r.after all (omega arith) in
                elim (Bool-cases r.value.0) [
                  | inl b ↦ rw (f, f', r.ends, ◌>>=◌, b, section_loop) (returns _ all_on.goes)
                  | inr b ↦
                      rw (f, f', r.ends, ◌>>=◌, b, section_loop) (Goes-Returns all_on.goes next)
                ]
          ]
    ]

module _ (source : Bytes) where
  param_type-Returns : (t : Token) (p : Parser) → Returns (Goes p) (parse_param_type source t p)
  unfolding parse_param_type
  param_type-Returns t p = elim (Bool-cases (at TokenKind.colon p)) [
    | inl e ↦
        rw (e, parse_param_type)
          (Goes-Returns (Stays-Goes (advance-Moves p).stays)
            (Stays-Returns (parse_type_expr-Returns source (advance p))))
    | inr f ↦ elim (Bool-cases (has_text source t (codes "self"))) [
      | inl e ↦ rw (f, e, parse_param_type) (returns _ (Stays-Goes (renamed-Stays p _)))
      | inr f' ↦
          rw (f, f', parse_param_type)
            (returns _
              (Stays-Goes (Stays-trans (emit_statement_error-Stays _ p) (renamed-Stays _ _))))
    ]
  ]

  parse_param-Returns : (p : Parser) → Returns (Goes p) (parse_param source p)
  unfolding parse_param
  parse_param-Returns p =
      let named = Stays-Goes (identifier-Stays source Expectation.parameter p) in
      then-Returns _ (Goes-Returns named (param_type-Returns (peek p) _))
        (λ ty q g. returns _ (Goes-trans g (Stays-Goes (renamed-Stays q _))))

  pub parse_param_list-Returns : (p : Parser) → Returns (Goes p) (parse_param_list source p)
  unfolding parse_param_list
  parse_param_list-Returns p = elim (Bool-cases (at TokenKind.l_paren p)) [
    | inl t ↦
        rw (t, parse_param_list)
          (then-Returns _
            (Goes-Returns (Stays-Goes (advance-Moves p).stays) (
              separated-Returns (parse_param source) (suc (length (advance p).ahead))
                TokenKind.r_paren (advance p) parse_param-Returns (omega arith)))
            (λ xs q g. returns _ (Goes-trans g (Stays-Goes (taken-Stays TokenKind.r_paren _ q)))))
    | inr f ↦ rw (f, parse_param_list) (returns _ (Stays-Goes (emit_statement_error-Stays _ p)))
  ]

  constraint-Stays : (p : Parser) → Stays p (parse_constraint source p).1
  unfolding parse_constraint
  constraint-Stays p = elim (Option-cases (constraint_kind source (peek p))) [
    | inr (k, e) ↦
        rw (e, parse_constraint) (Stays-trans (advance-Moves p).stays (renamed-Stays (advance p) _))
    | inl e ↦ rw (e, parse_constraint) (Stays-trans (emit-skip_token _ p).stays (renamed-Stays _ _))
  ]

  no_end-plus : kind_is TokenKind.eof TokenKind.plus ≡ false
  unfolding kind_is
  no_end-plus = refl

  no_end-dot : kind_is TokenKind.eof TokenKind.dot ≡ false
  unfolding kind_is
  no_end-dot = refl

  constraints-Returns : (p : Parser) → Returns (Stays p) (parse_constraints source p)
  unfolding parse_constraints
  constraints-Returns p = elim (Bool-cases (at TokenKind.colon p)) [
    | inl t ↦
        let first = Stays-trans (advance-Moves p).stays (constraint-Stays (advance p)) in
        rw (t, parse_constraints)
          (then-Returns _
            (followed-Returns (parse_constraint source) _ TokenKind.plus _ constraint-Stays
              no_end-plus (omega arith))
            (λ cs q s. returns _ (Stays-trans first s)))
    | inr f ↦ rw (f, parse_constraints) (returns _ (Stays-refl p))
  ]

  type_param-Returns : (p : Parser) → Returns (Goes p) (parse_type_param source p)
  unfolding parse_type_param
  type_param-Returns p =
      let named = identifier-Stays source Expectation.identifier p in
      then-Returns _
        (constraints-Returns (parse_identifier_symbol source Expectation.identifier p).1)
        (λ cs q s. returns _ (Stays-Goes (Stays-trans named (Stays-trans s (renamed-Stays q _)))))

  pub parse_type_param_list-Returns :
      (p : Parser) → Returns (Goes p) (parse_type_param_list source p)
  unfolding parse_type_param_list
  parse_type_param_list-Returns p = elim (Bool-cases (at TokenKind.lt p)) [
    | inl t ↦
        rw (t, parse_type_param_list)
          (then-Returns _
            (Goes-Returns (Stays-Goes (advance-Moves p).stays) (
              separated-Returns (parse_type_param source) (suc (length (advance p).ahead))
                TokenKind.gt (advance p) type_param-Returns (omega arith)))
            (λ xs q g. returns _ (Goes-trans g (Stays-Goes (taken-Stays TokenKind.gt _ q)))))
    | inr f ↦ rw (f, parse_type_param_list) (returns _ (Stays-Goes (Stays-refl p)))
  ]

  length-count_dots :
      (level : ℕ) (ts : List Token) → length (count_dots source level ts).1 ≤ length ts
  length-count_dots level [] = omega arith
  length-count_dots level (t ∷ ts) = elim (Bool-cases (kind_is TokenKind.dot t.kind)) [
    | inl e ↦ let le = length-count_dots (min (level + 1) 255) ts in rw e (omega (arith, le))
    | inr e ↦ rw e (omega arith)
  ]

  segments-Returns : (p : Parser) → Returns (Stays p) (parse_segments source p)
  unfolding parse_segments
  segments-Returns p = elim (Bool-cases (at TokenKind.identifier p)) [
    | inl t ↦
        let one = identifier-Stays source Expectation.import_path_segment p in
        rw (t, parse_segments)
          (then-Returns _
            (followed-Returns (segment source) _ TokenKind.dot _
              (λ q. identifier-Stays source Expectation.import_path_segment q) no_end-dot
              (omega arith))
            (λ xs q s. returns _ (Stays-trans one s)))
    | inr f ↦ rw (f, parse_segments) (returns _ (Stays-refl p))
  ]

  pub parse_import_path-Returns : (p : Parser) → Returns (Stays p) (parse_import_path source p)
  unfolding parse_import_path
  parse_import_path-Returns p =
      let q : Parser = record p { ahead = (count_dots source 0 p.ahead).1 } in
      let dots : Stays p q = record {
        no_longer = length-count_dots 0 p.ahead;
        reports = quiet refl refl;
      } in
      then-Returns _ (segments-Returns q) (λ xs r s. returns _ (Stays-trans dots s))

  alias-Stays : (p : Parser) → Stays p (parse_alias source p).1
  alias-Stays p = elim (Bool-cases (token_is_contextual source (peek p) (codes "as"))) [
    | inl t ↦ rw t (
        Stays-trans (advance-Moves p).stays
          (identifier-Stays source Expectation.identifier (advance p)))
    | inr f ↦ rw f (Stays-refl p)
  ]

  pub import_entry-Stays : (p : Parser) → Stays p (parse_import_symbol_entry source p).1
  unfolding parse_import_symbol_entry
  import_entry-Stays p =
      let q = (parse_identifier_symbol source Expectation.identifier p).1 in
      Stays-trans (identifier-Stays source Expectation.identifier p)
        (Stays-trans (alias-Stays q) (renamed-Stays _ _))
