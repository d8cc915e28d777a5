-- ===== src/Parser/Stmts/Goes.antt =====
-- What the parsers of statements and declarations (crates/parser/src) do to the tokens ahead and to the errors.
use thagore.Base.{
  ◌<◌, ◌≤◌, ◌≡◌, refl, sym, ap, ◌∙◌, false, List, [], ◌∷◌, ◌++◌, append-nil, append_assoc, length,
  Option, arith, Bool-cases, inl, inr, if◌then◌else◌,
}
use thagore.Lexer.Token.{Token, TokenKind}
use thagore.Parser.Kinds.{kind_is, is_statement_boundary}
use thagore.Parser.{
  Parser, ParseError, Expectation, peek, first, advance, at, emit_statement_error, emit_unexpected,
  begin_statement, skip_newlines, drop_newlines, synchronize_statement, past_line,
}
use thagore.Parser.Moves.{
  Reports, quiet, first_error, Stays, Stays-refl, Stays-trans, advance-Moves,
  emit_statement_error-Stays, synchronize_statement-Stays, past_line-Stays, past_boundary-Stays,
  length-drop_newlines,
}
use thagore.Parser.Pratt.Total.{Returns}
use thagore.Parser.Stmts.{consume_statement_terminator, enter_indented_section_for, ends_section}

-- The cursor does not go back, and no error is lost.
pub record Goes (p q : Parser) : Type 0 where
  pub no_longer : length q.ahead ≤ length p.ahead
  pub added : List ParseError
  pub extends : q.errors ≡ p.errors ++ added

-- And a token is consumed.
pub record Onward (p q : Parser) : Type 0 where
  pub goes : Goes p q
  pub shorter : length q.ahead < length p.ahead

extends-Reports :
    {p q : Parser} → Reports p q → (added : List ParseError) × (q.errors ≡ p.errors ++ added)
extends-Reports {p} {q} (quiet e f) = ([], e ∙ sym (append-nil p.errors))
extends-Reports (first_error error h e f) = (error ∷ [], e)

pub Stays-Goes : {p q : Parser} → Stays p q → Goes p q
Stays-Goes s =
    let (added, e) = extends-Reports s.reports in
    record { no_longer = s.no_longer; added = added; extends = e }

pub Goes-trans : {p q r : Parser} → Goes p q → Goes q r → Goes p r
Goes-trans {p} {q} {r} g h = record {
  no_longer = omega (arith, g.no_longer, h.no_longer);
  added = g.added ++ h.added;
  extends = h.extends ∙ ap (λ es. es ++ h.added) g.extends ∙ append_assoc p.errors g.added h.added;
}

pub Onward-Goes : {p q r : Parser} → Onward p q → Goes q r → Onward p r
Onward-Goes o g = record {
  goes = Goes-trans o.goes g;
  shorter = omega (arith, o.shorter, g.no_longer);
}

pub Goes-Onward : {p q r : Parser} → Goes p q → Onward q r → Onward p r
Goes-Onward g o = record {
  goes = Goes-trans g o.goes;
  shorter = omega (arith, o.shorter, g.no_longer);
}

pub advance-Onward : (p : Parser) → at TokenKind.eof p ≡ false → Onward p (advance p)
advance-Onward p inside = record {
  goes = Stays-Goes (advance-Moves p).stays;
  shorter = (advance-Moves p).shorter inside;
}

-- A call whose state goes on from `q`.
pub Goes-Returns :
    {A : Type 0} {p q : Parser} {o : Option (A × Parser)}
    → Goes p q
    → Returns (Goes q) o
    → Returns (Goes p) o
Goes-Returns g r = record {
  value = r.value;
  after = r.after;
  ends = r.ends;
  holds = Goes-trans g r.holds;
}

pub Onward-Returns :
    {A : Type 0} {p q : Parser} {o : Option (A × Parser)}
    → Onward p q
    → Returns (Goes q) o
    → Returns (Onward p) o
Onward-Returns g r = record {
  value = r.value;
  after = r.after;
  ends = r.ends;
  holds = Onward-Goes g r.holds;
}

pub Stays-Returns :
    {A : Type 0} {p : Parser} {o : Option (A × Parser)} → Returns (Stays p) o → Returns (Goes p) o
Stays-Returns r = record {
  value = r.value;
  after = r.after;
  ends = r.ends;
  holds = Stays-Goes r.holds;
}

pub begin_statement-Goes : (p : Parser) → Goes p (begin_statement p)
begin_statement-Goes p = record {
  no_longer = omega arith;
  added = [];
  extends = sym (append-nil p.errors);
}

pub skip_newlines-Stays : (p : Parser) → Stays p (skip_newlines p)
skip_newlines-Stays p = record {
  no_longer = length-drop_newlines p.ahead;
  reports = quiet refl refl;
}

drop_newlines-done :
    (ts : List Token) → kind_is TokenKind.newline (first (drop_newlines ts)).kind ≡ false
unfolding kind_is
drop_newlines-done [] = refl
drop_newlines-done (t ∷ ts) = elim (Bool-cases (kind_is TokenKind.newline t.kind)) [
  | inl e ↦ rw e (drop_newlines-done ts)
  | inr e ↦ rw e e
]

pub skip_newlines-done : (p : Parser) → at TokenKind.newline (skip_newlines p) ≡ false
skip_newlines-done p = drop_newlines-done p.ahead

pub terminator-Stays : (p : Parser) → Stays p (consume_statement_terminator p)
terminator-Stays p = elim (Bool-cases (at TokenKind.newline p)) [
  | inl t ↦ rw t (skip_newlines-Stays p)
  | inr f ↦ rw f (Stays-refl p)
]

-- A token taken where it stands, or else an error.
pub taken-Stays :
    (kind : TokenKind) (error : ParseError) (p : Parser)
    → Stays p (if at kind p then advance p else emit_statement_error error p)
taken-Stays kind error p = elim (Bool-cases (at kind p)) [
  | inl t ↦ rw t (advance-Moves p).stays
  | inr f ↦ rw f (emit_statement_error-Stays error p)
]

-- The recovery consumes a token that is no boundary.
pub synchronize_statement-shorter :
    (p : Parser)
    → is_statement_boundary (peek p).kind ≡ false
    → length (synchronize_statement p).ahead < length p.ahead
unfolding synchronize_statement kind_is
synchronize_statement-shorter p h =
    let inside : at TokenKind.eof p ≡ false = ground arith in
    let lt = (advance-Moves p).shorter inside in
    let line = past_line-Stays (advance p) in
    let boundary = past_boundary-Stays (past_line (advance p)) in
    rw (inside, h, synchronize_statement) (omega (arith, lt, line.no_longer, boundary.no_longer))

-- Whether the section was entered, and where it stands then.
pub enter-Stays :
    (expectation : Expectation) (p : Parser) → Stays p (enter_indented_section_for expectation p).1
unfolding enter_indented_section_for
enter-Stays expectation p =
    let q = skip_newlines p in
    let newlines = skip_newlines-Stays p in
    let emitted = emit_statement_error-Stays _ q in
    elim (Bool-cases (at TokenKind.indent q)) [
      | inl t ↦ rw (t, enter_indented_section_for) (Stays-trans newlines (advance-Moves q).stays)
      | inr f ↦ elim (Bool-cases (ends_section (peek q).kind)) [
        | inl t ↦ rw (f, t, enter_indented_section_for) (Stays-trans newlines emitted)
        | inr f' ↦
            rw (f, f', enter_indented_section_for)
              (Stays-trans newlines
                (Stays-trans emitted (synchronize_statement-Stays (emit_unexpected expectation q))))
      ]
    ]
