-- ===== src/Parser/Pratt/Rounds.antt =====
-- Where the loop of `parse_expr` (crates/parser/src/expr.rs) stands after an expression.
use thagore.Base.{ℕ, suc, ◌+◌, ◌-◌, ◌<◌, ◌≤◌, ◌≡◌, refl, ◌∙◌, List, some, arith, length}
use thagore.Ast.{Expr}
use thagore.Lexer.Source.{Bytes}
use thagore.Lexer.Token.{Token}
use thagore.Parser.{Parser, Names, first}
use thagore.Parser.Pratt.{parse_loop, parse_prefix, parse_expr}
use thagore.Parser.Pratt.Steps.{placed, Stops, loop-Stops}

-- The parser comes from `before` to the loop at `after` with the expression read, after fewer rounds than
-- there are tokens between.
pub record Reads (source : Bytes) (q : Parser) (m : ℕ) (before after : List Token) (n : Names)
    (e : Expr) (n' : Names) : Type 0 where
  pub rounds : ℕ
  pub few : suc rounds + length after ≤ length before
  pub reads :
      (f : ℕ)
      → length before ≤ rounds + f + length after
      → parse_expr source (suc (rounds + f)) m (placed q before n)
        ≡ parse_loop source (parse_expr source (rounds + f)) f m e (placed q after n')

-- A token or more that are read with no round of the loop.
pub at_once :
    {source : Bytes} {q : Parser} {m : ℕ} {before after : List Token} {n n' : Names} {e : Expr}
    → length after < length before
    → ((f : ℕ)
        → length before ≤ f + length after
        → parse_prefix source (parse_expr source f) (placed q before n)
          ≡ some (e, placed q after n'))
    → Reads source q m before after n e n'
unfolding parse_expr
at_once shorter step = record {
  rounds = 0;
  few = omega arith;
  reads = λ f enough.
      let no_round : 0 + f ≡ f = omega arith in
      rw (no_round, step f (omega arith), parse_expr) refl;
}

-- The expression is read, and the loop ends behind it.
pub finish :
    {source : Bytes} {q : Parser} {m : ℕ} {before after : List Token} {n n' : Names} {e : Expr}
    → Reads source q m before after n e n'
    → Stops source m (first after)
    → (fuel : ℕ) → length before < fuel + length after
    → parse_expr source fuel m (placed q before n) ≡ some (e, placed q after n')
finish {source} {q} {m} {before} {after} {n} {n'} {e} r stops fuel enough =
    let few = r.few in
    let left = fuel - (r.rounds + 2) in
    let total : fuel ≡ suc (r.rounds + suc left) = omega arith in
    let step = r.reads (suc left) (omega arith) in
    let again = parse_expr source (r.rounds + suc left) in
    rw total (step ∙ loop-Stops source again left m e (placed q after n') stops)

-- The token of a round of the loop, and what that round reads.
pub round :
    {source : Bytes} {q : Parser} {m : ℕ} {before middle after : List Token} {n n' n'' : Names}
    {e e' : Expr}
    → Reads source q m before middle n e n'
    → length after < length middle
    → ((fuel count : ℕ)
        → length middle ≤ fuel + length after
        → length middle ≤ count + length after + 1
        → parse_loop source (parse_expr source fuel) (suc count) m e (placed q middle n')
          ≡ parse_loop source (parse_expr source fuel) count m e' (placed q after n''))
    → Reads source q m before after n e' n''
round {source} {q} {m} {before} {middle} {after} {n} {n'} {n''} {e} {e'} r shorter step =
    let few = r.few in
    record {
      rounds = suc r.rounds;
      few = omega arith;
      reads = λ f enough.
          let more : suc r.rounds + f ≡ r.rounds + suc f = omega arith in
          rw more
            (r.reads (suc f) (omega arith) ∙ step (r.rounds + suc f) f (omega arith) (omega arith));
    }
