-- ===== src/Parser/Program/Total.antt =====
-- `parse_program` (crates/parser/src/parser.rs) reads every program to its end.
use thagore.Base.{
  ℕ, zero, suc, ◌<◌, ◌≡◌, refl, true, false, List, [], ◌∷◌, length, Option, none, some, arith,
  Bool-cases, inl, inr, ◌>>=◌,
}
use thagore.Ast.Decls.{Decl}
use thagore.Lexer.Source.{Bytes}
use thagore.Lexer.Token.{Token, TokenKind}
use thagore.Parser.Kinds.{kind_is, is_statement_boundary}
use thagore.Parser.{
  Parser, peek, at, begin_statement, skip_newlines, synchronize_statement, to_boundary, first,
}
use thagore.Parser.Moves.{
  Stays-refl, advance-Moves, synchronize_statement-Stays, consume_lexer_error-Moves,
  consume_lexer_error-none,
}
use thagore.Parser.Pratt.Total.{Returns, returns, then-Returns}
use thagore.Parser.Stmts.Goes.{
  Goes, Onward, Stays-Goes, Goes-trans, Onward-Goes, Goes-Onward, begin_statement-Goes,
  skip_newlines-Stays, skip_newlines-done, synchronize_statement-shorter,
}
use thagore.Parser.Decls.{parse_decl}
use thagore.Parser.Decls.Total.{Declares, parse_decl-Declares}
use thagore.Parser.Program.{after_decl, add_decl, parse_decls, parse_program}

-- The end of the file, behind which nothing is read.
pub record Finished (p q : Parser) : Type 0 where
  pub goes : Goes p q
  pub at_end : at TokenKind.eof q ≡ true

Finished-Goes : {p q r : Parser} → Goes p q → Finished q r → Finished p r
Finished-Goes g f = record { goes = Goes-trans g f.goes; at_end = f.at_end }

to_boundary-same :
    (ts : List Token) → is_statement_boundary (first ts).kind ≡ true → to_boundary ts ≡ ts
to_boundary-same [] h = refl
to_boundary-same (t ∷ ts) h = rw h refl

dedent_of :
    (k : TokenKind)
    → is_statement_boundary k ≡ true
    → kind_is TokenKind.newline k ≡ false
    → kind_is TokenKind.eof k ≡ false
    → kind_is TokenKind.dedent k ≡ true
unfolding kind_is
dedent_of k h line inside = ground arith

-- A stray dedent is passed.
synchronize_dedent-shorter :
    (p : Parser)
    → at TokenKind.newline p ≡ false
    → at TokenKind.eof p ≡ false
    → is_statement_boundary (peek p).kind ≡ true
    → length (synchronize_statement p).ahead < length p.ahead
unfolding synchronize_statement
synchronize_dedent-shorter p line inside h =
    let same = to_boundary-same p.ahead h in
    let dedent = dedent_of (peek p).kind h line inside in
    let lt = (advance-Moves p).shorter inside in
    rw (inside, h, synchronize_statement, same, line, dedent) lt

synchronize-shorter :
    (p : Parser)
    → at TokenKind.newline p ≡ false
    → at TokenKind.eof p ≡ false
    → length (synchronize_statement p).ahead < length p.ahead
synchronize-shorter p line inside = elim (Bool-cases (is_statement_boundary (peek p).kind)) [
  | inl t ↦ synchronize_dedent-shorter p line inside t
  | inr f ↦ synchronize_statement-shorter p f
]

skipped-Goes : (p : Parser) → Goes p (skip_newlines (begin_statement p))
skipped-Goes p =
    Goes-trans (begin_statement-Goes p) (Stays-Goes (skip_newlines-Stays (begin_statement p)))

after_decl-Goes : (d : Option Decl) (p : Parser) → Goes p (after_decl d p)
after_decl-Goes (some d) p = skipped-Goes p
after_decl-Goes none p =
    Goes-trans (Stays-Goes (synchronize_statement-Stays p)) (skipped-Goes (synchronize_statement p))

after_decl-line : (d : Option Decl) (p : Parser) → at TokenKind.newline (after_decl d p) ≡ false
after_decl-line (some d) p = skip_newlines-done (begin_statement p)
after_decl-line none p = skip_newlines-done (begin_statement (synchronize_statement p))

-- Whether a declaration was read or not, the round goes on.
round-Onward :
    {source : Bytes} {p : Parser}
    → at TokenKind.newline p ≡ false
    → at TokenKind.eof p ≡ false
    → (d : Declares source p (parse_decl source p)) → Onward p (after_decl d.decl d.after)
round-Onward {source} {p} line inside d = elim d.moved [
  | inl on ↦ Onward-Goes on (after_decl-Goes d.decl d.after)
  | inr (no_decl, same) ↦
      let lt = synchronize-shorter d.after (rw same line) (rw same inside) in
      let s = synchronize_statement d.after in
      let on : Onward p s = record {
        goes = Goes-trans d.goes (Stays-Goes (synchronize_statement-Stays d.after));
        shorter = omega (arith, lt, d.goes.no_longer);
      } in
      rw no_decl (Onward-Goes on (skipped-Goes s))
]

add_decl-Returns :
    {p : Parser} (d : Option Decl) (r : List Decl × Parser)
    → Finished p r.1
    → Returns (Finished p) (some (add_decl d r))
add_decl-Returns none r f = returns _ f
add_decl-Returns (some d) r f = returns _ f

from-Goes :
    {A : Type 0} {p q : Parser} {o : Option (A × Parser)}
    → Goes p q
    → Returns (Finished q) o
    → Returns (Finished p) o
from-Goes g r = record {
  value = r.value;
  after = r.after;
  ends = r.ends;
  holds = Finished-Goes g r.holds;
}

parse_decls-Returns :
    (source : Bytes) (count : ℕ) (p : Parser)
    → at TokenKind.newline p ≡ false
    → length p.ahead < count
    → Returns (Finished p) (parse_decls source count p)
unfolding parse_decls
parse_decls-Returns source zero p line small = absurd (omega arith)
parse_decls-Returns source (suc count) p line small = elim (Bool-cases (at TokenKind.eof p)) [
  | inl t ↦
      rw (t, parse_decls) (returns _ (record { goes = Stays-Goes (Stays-refl p); at_end = t }))
  | inr f ↦ elim (Bool-cases (at TokenKind.error p)) [
    | inl t ↦
        let (q, e, m) = consume_lexer_error-Moves p t in
        let newlines = skip_newlines-Stays q in
        let lt = m.shorter f in
        rw (f, e, parse_decls, e)
          (from-Goes (Goes-trans (Stays-Goes m.stays) (Stays-Goes newlines)) (
            parse_decls-Returns source count (skip_newlines q) (skip_newlines-done q)
              (omega (arith, newlines.no_longer))))
    | inr f' ↦
        let b = begin_statement p in
        let d = parse_decl-Declares source b f in
        let on = Goes-Onward (begin_statement-Goes p) (round-Onward line f d) in
        let lt = on.shorter in
        rw (f, consume_lexer_error-none p f', d.ends, ◌>>=◌, parse_decls)
          (then-Returns _
            (from-Goes on.goes (
              parse_decls-Returns source count (after_decl d.decl d.after)
                (after_decl-line d.decl d.after) (omega arith)))
            (λ ds q g. add_decl-Returns d.decl (ds, q) g))
  ]
]

-- `parse_program` returns on every list of tokens, and then stands at the end of the file. It loses no error that
-- was there.
pub parse_program-Finished :
    (source : Bytes) (p : Parser) → Returns (Finished p) (parse_program source p)
unfolding parse_program
parse_program-Finished source p =
    let newlines = skip_newlines-Stays p in
    from-Goes (Stays-Goes newlines) (
      parse_decls-Returns source (suc (length p.ahead)) (skip_newlines p) (skip_newlines-done p)
        (omega (arith, newlines.no_longer)))
