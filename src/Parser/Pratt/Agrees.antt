-- ===== src/Parser/Pratt/Agrees.antt =====
-- The parser of crates/parser/src/expr.rs reads what the grammar says.
use thagore.Base.{
  ℕ, zero, suc, ◌+◌, ◌<◌, ◌≤◌, ◌≡◌, refl, ap, ◌∙◌, true, false, List, ◌∷◌, some, arith, length, inl,
  inr, ◌>>=◌,
}
use thagore.Ast.{Expr, Exprs, Literal}
use thagore.Lexer.Source.{Bytes}
use thagore.Lexer.Token.{Token, TokenKind}
use thagore.Parser.Kinds.{kind_is, is_expr_terminator}
use thagore.Parser.{
  Parser, Names, next_id, advance, drop_soft, skip_soft_layout, first, rest, parse_symbol,
}
use thagore.Parser.Pratt.{
  InfixOperator, left_assoc, right_assoc, current_infix_operator, is_postfix_start, parse_args,
  parse_postfix, parse_field, combine, prefix_of, parse_identifier_like_prefix, parse_expr,
}
use thagore.Parser.Pratt.Grammar.{
  Written, truth, falsity, name, integer, float, string, negation, inversion, parenthesised, binary,
  assignment, field, index, call, Arguments, no_more, last, comma,
}
use thagore.Parser.Pratt.Steps.{
  placed, reach, Stops, loop-infix, loop-postfix, Operates-infix, prefix-step, name-step,
  drop_soft-Layout, Closes, reach-Closes, reach-postfix, Layout-Closes, length-Layout, kind_is-own,
}
use thagore.Parser.Pratt.Rounds.{Reads, at_once, finish, round}
use thagore.Parser.Pratt.Extent.{edge-positive, starts-Written, length-Written, length-Arguments}

module _ (source : Bytes) where
  mutual
    unfolding parse_identifier_like_prefix prefix_of combine current_infix_operator kind_is
        parse_postfix parse_field parse_symbol parse_args

    parse_prefix-Written :
        {low edge : ℕ} {before after : List Token} {n n' : Names} {e : Expr}
        → Written source low edge before after n e n'
        → (q : Parser) (m : ℕ) → m ≤ low
        → reach source (first after) < edge
        → Reads source q m before after n e n'
    parse_prefix-Written (truth t after n k h) q m le far = at_once (omega arith) (λ f enough.
        name-step source (parse_expr source f) (placed q (t ∷ after) n) k
        ∙ rw (h, parse_identifier_like_prefix)
            (ap
              (λ b.
                some
                  (Expr.literal n.next_node_id t.span (Literal.bool b), placed q after (next_id n)))
              h))
    parse_prefix-Written (falsity t after n k h h') q m le far = at_once (omega arith) (λ f enough.
        name-step source (parse_expr source f) (placed q (t ∷ after) n) k
        ∙ rw (h, h', parse_identifier_like_prefix)
            (ap
              (λ b.
                some
                  (Expr.literal n.next_node_id t.span (Literal.bool b), placed q after (next_id n)))
              h))
    parse_prefix-Written (name t after n k h h' h'') q m le far = at_once (omega arith) (λ f enough.
        name-step source (parse_expr source f) (placed q (t ∷ after) n) k
        ∙ rw (h, h', h'', parse_identifier_like_prefix) refl)
    parse_prefix-Written (integer t after n k) q m le far = at_once (omega arith) (λ f enough.
        prefix-step source (parse_expr source f) (placed q (t ∷ after) n) TokenKind.integer k refl)
    parse_prefix-Written (float t after n k) q m le far = at_once (omega arith) (λ f enough.
        prefix-step source (parse_expr source f) (placed q (t ∷ after) n) TokenKind.float k refl)
    parse_prefix-Written (string t after n k) q m le far = at_once (omega arith) (λ f enough.
        prefix-step source (parse_expr source f) (placed q (t ∷ after) n) TokenKind.string k refl)
    parse_prefix-Written (negation t low edge inner after n n' e k w h) q m le far =
        let r = parse_prefix-Written w q 9 h (omega arith) in
        let few = r.few in
        at_once (omega arith) (λ f enough.
          prefix-step source (parse_expr source f) (placed q (t ∷ inner) n) TokenKind.minus k refl
          ∙ rw (finish r (inr (omega arith)) f (omega arith)) refl)
    parse_prefix-Written (inversion t low edge inner after n n' e k h h' h'' w le') q m le far =
        let r = parse_prefix-Written w q 4 le' (omega arith) in
        let few = r.few in
        at_once (omega arith) (λ f enough.
          name-step source (parse_expr source f) (placed q (t ∷ inner) n) k
          ∙ rw
              (
                h,
                h',
                h'',
                finish r (inr (omega arith)) f (omega arith),
                parse_identifier_like_prefix,
              )
              refl)
    parse_prefix-Written (parenthesised l c low edge inner after n n' e k k' w) q m le far =
        let closes : Closes source c = inl (rw k' refl) in
        let r =
          parse_prefix-Written w q 0 (omega arith)
            (omega (arith, reach-Closes source c closes, edge-positive source w)) in
        let few = r.few in
        at_once (omega arith) (λ f enough.
          prefix-step source (parse_expr source f) (placed q (l ∷ inner) n) TokenKind.l_paren k refl
          ∙ rw (finish r (inl closes) f (omega arith), kind_is-own c TokenKind.r_paren k') refl)
    parse_prefix-Written
          (binary t power low edge low' edge' before right after n n' n'' e e' op o w h w' h') q m
          le far =
        let (inside, other, found) = Operates-infix source t power op o in
        let at_power : reach source t ≡ power = rw (inside, found) refl in
        let l = parse_prefix-Written w q m (omega arith) (omega (arith, at_power, h)) in
        let r = parse_prefix-Written w' q (power + 1) (omega arith) (omega arith) in
        let few = r.few in
        round l (omega arith) (λ fuel count enough small.
          loop-infix source (parse_expr source fuel) count m e e' (placed q (t ∷ right) n')
            (placed q after n'') (left_assoc power) (InfixOperator.binary op) inside other found
            (omega arith) (finish r (inr (omega arith)) fuel (omega arith)))
    parse_prefix-Written
          (assignment t low edge low' edge' before right after n n' n'' e e' k w h w' h') q m le
          far =
        let inside : is_expr_terminator t.kind ≡ false = rw k refl in
        let other : is_postfix_start t.kind ≡ false = rw k refl in
        let found : current_infix_operator source t ≡ some (right_assoc 1, InfixOperator.assign) =
          rw (k, current_infix_operator) refl in
        let at_power : reach source t ≡ 1 = rw (inside, found) refl in
        let l = parse_prefix-Written w q m (omega arith) (omega (arith, at_power, h)) in
        let r = parse_prefix-Written w' q 1 h' (omega arith) in
        let few = r.few in
        round l (omega arith) (λ fuel count enough small.
          loop-infix source (parse_expr source fuel) count m e e' (placed q (t ∷ right) n')
            (placed q after n'') (right_assoc 1) InfixOperator.assign inside other found
            (omega arith) (finish r (inr (omega arith)) fuel (omega arith)))
    parse_prefix-Written (field dot t low edge before after n n' e k k' w h) q m le far =
        let starts : is_postfix_start dot.kind ≡ true = rw k refl in
        let at_dot = reach-postfix source dot starts in
        let l = parse_prefix-Written w q m (omega arith) (omega (arith, at_dot, h)) in
        round l (omega arith) (λ fuel count enough small.
          loop-postfix source (parse_expr source fuel) count m e _ (placed q (dot ∷ t ∷ after) n') _
            starts (omega arith) (rw (k, k', parse_postfix, parse_field, parse_symbol) refl))
    parse_prefix-Written
          (index l c low edge low' edge' before inner after n n' n'' e e' k k' w h w') q m le far =
        let starts : is_postfix_start l.kind ≡ true = rw k refl in
        let at_l = reach-postfix source l starts in
        let closes : Closes source c = inl (rw k' refl) in
        let x = parse_prefix-Written w q m (omega arith) (omega (arith, at_l, h)) in
        let r =
          parse_prefix-Written w' q 0 (omega arith)
            (omega (arith, reach-Closes source c closes, edge-positive source w')) in
        let few = r.few in
        round x (omega arith) (λ fuel count enough small.
          loop-postfix source (parse_expr source fuel) count m e _ (placed q (l ∷ inner) n') _
            starts (omega arith)
            (rw
              (
                k,
                finish r (inl closes) fuel (omega arith),
                kind_is-own c TokenKind.r_bracket k',
                parse_postfix,
              )
              refl))
    parse_prefix-Written (call l c low edge before inner list after n n' n'' e args k k' w h lay ar)
          q m le far =
        let starts : is_postfix_start l.kind ≡ true = rw k refl in
        let at_l = reach-postfix source l starts in
        let x = parse_prefix-Written w q m (omega arith) (omega (arith, at_l, h)) in
        let shorter = length-Layout inner list lay in
        let soft = drop_soft-Layout inner list lay in
        let fewer = length-Arguments source ar in
        round x (omega arith) (λ fuel count enough small.
          loop-postfix source (parse_expr source fuel) count m e _ (placed q (l ∷ inner) n') _
            starts (omega arith)
            (rw
              (
                k,
                soft,
                reads-Arguments ar q fuel count (omega arith) (omega arith),
                kind_is-own c TokenKind.r_paren k',
                parse_postfix,
              )
              refl))

    reads-Arguments :
        {before after : List Token} {n n' : Names} {args : Exprs}
        → Arguments source before after n args n'
        → (q : Parser) (fuel count : ℕ) → length before < fuel + length after
        → length before < count + length after
        → parse_args source (parse_expr source fuel) count (placed q before n)
          ≡ some (args, placed q after n')
    reads-Arguments (no_more r after n k) q fuel zero enough small = absurd (omega arith)
    reads-Arguments (no_more r after n k) q fuel (suc count) enough small =
        rw (kind_is-own r TokenKind.r_paren k, parse_args) refl
    reads-Arguments (last r low edge before inner after n n' e k w lay) q fuel zero enough small =
        absurd (omega (arith, length-Written source w, length-Layout inner (r ∷ after) lay))
    reads-Arguments (last r low edge before inner after n n' e k w lay) q fuel (suc count) enough
          small =
        let closes = Layout-Closes source inner (r ∷ after) lay (inl (rw k refl)) in
        let x =
          parse_prefix-Written w q 0 (omega arith)
            (omega (arith, reach-Closes source (first inner) closes, edge-positive source w)) in
        let few = x.few in
        let shorter = length-Layout inner (r ∷ after) lay in
        let soft = drop_soft-Layout inner (r ∷ after) lay in
        let no_comma : kind_is TokenKind.comma r.kind ≡ false = rw k refl in
        rw
          (
            starts-Written source w,
            finish x (inl closes) fuel (omega arith),
            ◌>>=◌,
            soft,
            no_comma,
            parse_args,
          )
          (ap (λ ts. some (Exprs.more e Exprs.none, placed q ts n')) soft)
    reads-Arguments
          (comma c low edge before inner behind next after n n' n'' e args k w lay lay' ar) q fuel
          zero enough small =
        absurd (
          omega (
            arith,
            length-Written source w,
            length-Layout inner (c ∷ behind) lay,
            length-Layout behind next lay',
            length-Arguments source ar,
          ))
    reads-Arguments
          (comma c low edge before inner behind next after n n' n'' e args k w lay lay' ar) q fuel
          (suc count) enough small =
        let closes = Layout-Closes source inner (c ∷ behind) lay (inl (rw k refl)) in
        let x =
          parse_prefix-Written w q 0 (omega arith)
            (omega (arith, reach-Closes source (first inner) closes, edge-positive source w)) in
        let few = x.few in
        let shorter = length-Layout inner (c ∷ behind) lay in
        let soft = drop_soft-Layout inner (c ∷ behind) lay in
        let shorter' = length-Layout behind next lay' in
        let soft' = drop_soft-Layout behind next lay' in
        let fewer = length-Arguments source ar in
        let at_next : skip_soft_layout (advance (skip_soft_layout (placed q inner n')))
            ≡ placed q next n' =
          ap (λ ts. placed q (drop_soft (rest ts)) n') soft ∙ ap (λ ts. placed q ts n') soft' in
        let called =
          ap (parse_args source (parse_expr source fuel) count) at_next
          ∙ reads-Arguments ar q fuel count (omega arith) (omega arith) in
        rw
          (
            starts-Written source w,
            finish x (inl closes) fuel (omega arith),
            ◌>>=◌,
            soft,
            kind_is-own c TokenKind.comma k,
            called,
            parse_args,
          )
          refl

-- What the grammar derives is what `parse_expr` reads: an expression whose weakest operator binds at least as
-- tight as the least binding power, before a token that ends it and does not reach into it, is read with
-- its names, identifiers and spans and with no error, when the fuel is more than the tokens it has.
pub parse_expr-Written :
    (source : Bytes) (low edge : ℕ) (before after : List Token) (n n' : Names) (e : Expr)
    (q : Parser) (min_bp fuel : ℕ)
    → Written source low edge before after n e n'
    → min_bp ≤ low
    → Stops source min_bp (first after)
    → reach source (first after) < edge
    → length before < fuel + length after
    → parse_expr source fuel min_bp (placed q before n) ≡ some (e, placed q after n')
parse_expr-Written source low edge before after n n' e q m fuel w le stops far enough =
    finish (parse_prefix-Written source w q m le far) stops fuel enough
