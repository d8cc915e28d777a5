-- ===== src/Parser/Types/Total.antt =====
-- The parser of type expressions (crates/parser/src/types.rs) returns.
use thagore.Base.{
  ℕ, zero, suc, ◌<◌, ◌≤◌, ◌≡◌, refl, true, false, ◌||◌, length, Option, arith, Bool-cases, inl, inr,
}
use thagore.Ast.{InternedStr}
use thagore.Lexer.Keywords.{codes}
use thagore.Lexer.Source.{Bytes}
use thagore.Lexer.Token.{Span, TokenKind}
use thagore.Parser.Kinds.{kind_is, is_expr_terminator, is_builtin_type}
use thagore.Parser.{Parser, peek, advance, at, token_is_contextual}
use thagore.Parser.Moves.{
  Stays, Stays-refl, Stays-trans, advance-Moves, renamed-Stays, emit_statement_error-Stays,
}
use thagore.Parser.Pratt.Total.{Returns, returns, then-Returns, close-Stays}
use thagore.Parser.Types.{
  Again, parse_type_args, parse_generic, parse_type_rest, parse_type_with, parse_type_expr,
}

pub then-Stays :
    {A : Type 0} {p q : Parser} {o : Option (A × Parser)}
    → Stays p q
    → Returns (Stays q) o
    → Returns (Stays p) o
then-Stays s r = record {
  value = r.value;
  after = r.after;
  ends = r.ends;
  holds = Stays-trans s r.holds;
}

no_end-comma : kind_is TokenKind.eof TokenKind.comma ≡ false
unfolding kind_is
no_end-comma = refl

-- A recursive call that returns on no more tokens than `n`.
abbrev ReturnsUpTo : Again → ℕ → Type 0
ReturnsUpTo again n = (q : Parser) → length q.ahead ≤ n → Returns (Stays q) (again q)

-- A token of a kind that is not the end.
pub consumed :
    (kind : TokenKind) (p : Parser)
    → kind_is TokenKind.eof kind ≡ false
    → at kind p ≡ true
    → length (advance p).ahead < length p.ahead
unfolding kind_is
consumed kind p no_end h = (advance-Moves p).shorter (ground arith)

parse_type_args-Returns :
    (again : Again) (count : ℕ) (closing : TokenKind) (p : Parser)
    → ReturnsUpTo again (length p.ahead)
    → length p.ahead < count
    → Returns (Stays p) (parse_type_args again count closing p)
unfolding parse_type_args
parse_type_args-Returns again zero closing p all small = absurd (omega arith)
parse_type_args-Returns again (suc count) closing p all small =
    elim (Bool-cases (at closing p || is_expr_terminator (peek p).kind)) [
      | inl t ↦ rw (t, parse_type_args) (returns _ (Stays-refl p))
      | inr f ↦
          rw (f, parse_type_args)
            (then-Returns _ (all p (omega arith)) (λ ty q still.
              let le = still.no_longer in
              elim (Bool-cases (at TokenKind.comma q)) [
                | inl t ↦
                    let lt = consumed TokenKind.comma q no_end-comma t in
                    rw t (
                      then-Returns _
                        (parse_type_args-Returns again count closing (advance q)
                          (λ r small_r. all r (omega arith)) (omega arith))
                        (λ args r after.
                          returns _
                            (Stays-trans still (Stays-trans (advance-Moves q).stays after))))
                | inr f' ↦ rw f' (returns _ still)
              ]))
    ]

parse_generic-Returns :
    (again : Again) (count : ℕ) (closing : TokenKind) (start : Span) (name : InternedStr)
    (p : Parser)
    → ReturnsUpTo again (length p.ahead)
    → length p.ahead < count
    → Returns (Stays p) (parse_generic again count closing start name p)
unfolding parse_generic
parse_generic-Returns again count closing start name p all small =
    then-Returns _ (parse_type_args-Returns again count closing p all small) (λ args q still.
      returns _ (Stays-trans still (Stays-trans (close-Stays closing q) (renamed-Stays _ _))))

parse_type_rest-Returns :
    (again : Again) (count : ℕ) (start : Span) (name : InternedStr) (p : Parser)
    → ReturnsUpTo again (length p.ahead)
    → length p.ahead < count
    → Returns (Stays p) (parse_type_rest again count start name p)
unfolding parse_type_rest
parse_type_rest-Returns again count start name p all small =
    let moved = (advance-Moves p).stays in
    let le = moved.no_longer in
    let inner = λ (closing : TokenKind). then-Stays moved (
      parse_generic-Returns again count closing start name (advance p) (λ q h. all q (omega arith))
        (omega arith)) in
    elim (Bool-cases (at TokenKind.lt p)) [
      | inl t ↦ rw (t, parse_type_rest) (inner TokenKind.gt)
      | inr f ↦ elim (Bool-cases (at TokenKind.l_bracket p)) [
        | inl t ↦ rw (f, t, parse_type_rest) (inner TokenKind.r_bracket)
        | inr f' ↦ rw (f, f', parse_type_rest) (returns _ (renamed-Stays p _))
      ]
    ]

name-shorter :
    (p : Parser)
    → (kind_is TokenKind.identifier (peek p).kind || is_builtin_type (peek p).kind) ≡ true
    → length (advance p).ahead < length p.ahead
unfolding kind_is
name-shorter p h = (advance-Moves p).shorter (ground arith)

parse_type_with-Returns :
    (source : Bytes) (fuel : ℕ) (p : Parser)
    → length p.ahead < fuel
    → Returns (Stays p) (parse_type_with source fuel p)
unfolding parse_type_with
parse_type_with-Returns source zero p small = absurd (omega arith)
parse_type_with-Returns source (suc fuel) p small =
    elim (Bool-cases (token_is_contextual source (peek p) (codes "_"))) [
      | inl t ↦
          rw (t, parse_type_with)
            (returns _ (Stays-trans (advance-Moves p).stays (renamed-Stays (advance p) _)))
      | inr f ↦
          elim (Bool-cases
            (kind_is TokenKind.identifier (peek p).kind || is_builtin_type (peek p).kind)) [
              | inl t ↦
                  let lt = name-shorter p t in
                  let moved = Stays-trans (advance-Moves p).stays (renamed-Stays (advance p) _) in
                  rw (f, t, parse_type_with)
                    (then-Stays moved (
                      parse_type_rest-Returns (parse_type_with source fuel) fuel _ _ _
                        (λ q h. parse_type_with-Returns source fuel q (omega arith)) (omega arith)))
              | inr f' ↦
                  rw (f, f', parse_type_with)
                    (returns _ (Stays-trans (emit_statement_error-Stays _ p) (renamed-Stays _ _)))
            ]
    ]

-- `parse_type_expr` returns. It does not go back, and adds at most one error, none where the statement had one.
pub parse_type_expr-Returns :
    (source : Bytes) (p : Parser) → Returns (Stays p) (parse_type_expr source p)
unfolding parse_type_expr
parse_type_expr-Returns source p =
    parse_type_with-Returns source (suc (length p.ahead)) p (omega arith)
