-- ===== src/Parser/Pratt/Steps.antt =====
-- The rounds of the loop of `parse_expr` (crates/parser/src/expr.rs).
use thagore.Base.{
  ℕ, suc, ◌<◌, ◌≤◌, ◌≡◌, refl, ap, ◌∙◌, true, false, ◌&&◌, List, none, some, arith, Bool-cases,
  Option-cases, inl, inr, ◌⊎◌, ltb, leb, length, if◌then◌else◌,
}
use thagore.Ast.{Expr, BinOp}
use thagore.Lexer.Source.{Bytes}
use thagore.Lexer.Token.{Token, TokenKind}
use thagore.Parser.Kinds.{kind_is, is_expr_terminator}
use thagore.Parser.{Parser, Names, peek, advance, drop_soft, first}
use thagore.Parser.Moves.{consume_lexer_error-none}
use thagore.Parser.Pratt.{
  Again, BindingPower, InfixOperator, left_assoc, infix_binding, current_infix_operator,
  is_postfix_start, postfix_bp, parse_postfix, combine, parse_loop, parse_prefix, prefix_of,
  parse_identifier_like_prefix,
}
use thagore.Parser.Pratt.Grammar.{Symbol, Operates, names_value, Layout, no_layout, layout}

-- The parser at other tokens, with other names.
abbrev pub placed : Parser → List Token → Names → Parser
placed q ahead names = record q { ahead = ahead; names = names }

Symbol-binding :
    (kind : TokenKind) (power : ℕ) (op : BinOp)
    → Symbol kind power op
    → (infix_binding kind ≡ some (left_assoc power, InfixOperator.binary op))
      × (is_expr_terminator kind ≡ false)
      × (is_postfix_start kind ≡ false)
      × (kind_is TokenKind.identifier kind ≡ false)
unfolding kind_is
Symbol-binding _ _ _ Symbol.eq = (refl, refl, refl, refl)
Symbol-binding _ _ _ Symbol.not_eq = (refl, refl, refl, refl)
Symbol-binding _ _ _ Symbol.lt = (refl, refl, refl, refl)
Symbol-binding _ _ _ Symbol.gt = (refl, refl, refl, refl)
Symbol-binding _ _ _ Symbol.lt_eq = (refl, refl, refl, refl)
Symbol-binding _ _ _ Symbol.gt_eq = (refl, refl, refl, refl)
Symbol-binding _ _ _ Symbol.add = (refl, refl, refl, refl)
Symbol-binding _ _ _ Symbol.sub = (refl, refl, refl, refl)
Symbol-binding _ _ _ Symbol.mul = (refl, refl, refl, refl)
Symbol-binding _ _ _ Symbol.div = (refl, refl, refl, refl)
Symbol-binding _ _ _ Symbol.rem = (refl, refl, refl, refl)

module _ (source : Bytes) where
  -- How tight a token binds to the left of it; a token that ends the expression does not.
  abbrev pub reach : Token → ℕ
  reach t =
      if is_expr_terminator t.kind
      then 0
      else elim (current_infix_operator source t) [ none ↦ 0 | some (binding, op) ↦ binding.left ]

  -- The token ends every expression.
  abbrev pub Closes : Token → Type 0
  Closes t = (is_expr_terminator t.kind ≡ true) ⊎ (current_infix_operator source t ≡ none)

  -- The loop ends at the token.
  abbrev pub Stops : ℕ → Token → Type 0
  Stops m t = Closes t ⊎ (reach t < m)

  postfix-infix :
      (t : Token)
      → is_postfix_start t.kind ≡ true
      → current_infix_operator source t ≡ some (left_assoc 10, InfixOperator.postfix)
  unfolding current_infix_operator kind_is
  postfix-infix t h = ground arith

  bound_below :
      (m : ℕ) (binding : BindingPower) (op : InfixOperator) (t : Token)
      → Stops m t
      → is_expr_terminator t.kind ≡ false
      → current_infix_operator source t ≡ some (binding, op)
      → binding.left < m
  bound_below m binding op t (inl (inl h)) f e = absurd (ground arith)
  bound_below m binding op t (inl (inr h)) f e = absurd (ground arith)
  bound_below m binding op t (inr far) f e = rw e at (rw f at far)

  pub loop-Stops :
      (again : Again) (count m : ℕ) (lhs : Expr) (p : Parser)
      → Stops m (peek p)
      → parse_loop source again (suc count) m lhs p ≡ some (lhs, p)
  unfolding parse_loop
  loop-Stops again count m lhs p (inl (inl t)) = rw (t, parse_loop) refl
  loop-Stops again count m lhs p stops = elim (Bool-cases (is_expr_terminator (peek p).kind)) [
    | inl t ↦ rw (t, parse_loop) refl
    | inr f ↦ elim (Option-cases (current_infix_operator source (peek p))) [
      | inl e ↦
          let none_starts : is_postfix_start (peek p).kind ≡ false =
            ground (arith, postfix-infix (peek p)) in
          let off : (leb m postfix_bp && is_postfix_start (peek p).kind) ≡ false = ground arith in
          rw (f, off, e, parse_loop) refl
      | inr ((binding, op), e) ↦
          let low = bound_below m binding op (peek p) stops f e in
          let off : (leb m postfix_bp && is_postfix_start (peek p).kind) ≡ false =
            ground (arith, postfix-infix (peek p)) in
          let left : ltb binding.left m ≡ true = ground arith in
          rw (f, off, e, left, parse_loop) refl
    ]
  ]

  pub loop-infix :
      (again : Again) (count m : ℕ) (lhs rhs : Expr) (p q : Parser) (binding : BindingPower)
      (op : InfixOperator)
      → is_expr_terminator (peek p).kind ≡ false
      → is_postfix_start (peek p).kind ≡ false
      → current_infix_operator source (peek p) ≡ some (binding, op)
      → m ≤ binding.left
      → again binding.right (advance p) ≡ some (rhs, q)
      → parse_loop source again (suc count) m lhs p
        ≡ parse_loop source again count m
            (combine source op (peek p) lhs (rhs, q)).0
            (combine source op (peek p) lhs (rhs, q)).1
  unfolding parse_loop
  loop-infix again count m lhs rhs p q binding op inside other e le parsed =
      let off : (leb m postfix_bp && is_postfix_start (peek p).kind) ≡ false = ground arith in
      let high : ltb binding.left m ≡ false = ground arith in
      rw (inside, off, e, high, parsed, parse_loop) refl

  pub loop-postfix :
      (again : Again) (count m : ℕ) (lhs e : Expr) (p q : Parser)
      → is_postfix_start (peek p).kind ≡ true
      → m ≤ 10
      → parse_postfix source again count (peek p).kind lhs p ≡ some (e, q)
      → parse_loop source again (suc count) m lhs p ≡ parse_loop source again count m e q
  unfolding parse_loop
  loop-postfix again count m lhs e p q starts le parsed =
      let inside : is_expr_terminator (peek p).kind ≡ false = ground arith in
      let on : (leb m postfix_bp && is_postfix_start (peek p).kind) ≡ true = ground arith in
      rw (inside, on, parsed, parse_loop) refl

  -- An operator of the grammar is the operator of the parser.
  pub Operates-infix :
      (t : Token) (power : ℕ) (op : BinOp)
      → Operates source t power op
      → (is_expr_terminator t.kind ≡ false)
        × (is_postfix_start t.kind ≡ false)
        × (current_infix_operator source t ≡ some (left_assoc power, InfixOperator.binary op))
  unfolding current_infix_operator kind_is
  Operates-infix t _ _ (Operates.or_word k h) =
      (ground arith, ground arith, rw (k, h, current_infix_operator) refl)
  Operates-infix t _ _ (Operates.and_word k f h) =
      (ground arith, ground arith, rw (k, f, h, current_infix_operator) refl)
  Operates-infix t _ _ (Operates.symbol kind power op k s) =
      let (binding, inside, other, no_word) = Symbol-binding kind power op s in
      (rw k inside, rw k other, rw (k, no_word, current_infix_operator) binding)

  -- The first token of an expression or of a list of arguments.
  pub prefix-step :
      (again : Again) (p : Parser) (kind : TokenKind)
      → (peek p).kind ≡ kind
      → kind_is TokenKind.error kind ≡ false
      → parse_prefix source again p ≡ prefix_of source again kind p
  unfolding parse_prefix
  prefix-step again p kind e no_error =
      rw (consume_lexer_error-none p (rw e no_error)) (ap (λ k. prefix_of source again k p) e)

  names-prefix :
      (again : Again) (p : Parser) (kind : TokenKind)
      → names_value kind ≡ true
      → prefix_of source again kind p ≡ parse_identifier_like_prefix source again p
  unfolding prefix_of
  names-prefix again p TokenKind.identifier h = refl
  names-prefix again p TokenKind.kw_from h = refl
  names-prefix again p TokenKind.kw_include h = refl
  names-prefix again p TokenKind.kw_i32 h = refl
  names-prefix again p TokenKind.kw_f32 h = refl
  names-prefix again p TokenKind.kw_bool h = refl
  names-prefix again p TokenKind.kw_str h = refl
  names-prefix again p kind h = absurd (ground arith)

  pub name-step :
      (again : Again) (p : Parser)
      → names_value (peek p).kind ≡ true
      → parse_prefix source again p ≡ parse_identifier_like_prefix source again p
  unfolding kind_is
  name-step again p h =
      prefix-step again p (peek p).kind refl (ground arith) ∙ names-prefix again p (peek p).kind h

pub drop_soft-Layout : (before after : List Token) → Layout before after → drop_soft before ≡ after
drop_soft-Layout _ _ (no_layout t after h) = rw h refl
drop_soft-Layout _ _ (layout t before after h l) = rw h (drop_soft-Layout before after l)

pub length-Layout : (before after : List Token) → Layout before after → length after ≤ length before
length-Layout _ _ (no_layout t after h) = omega arith
length-Layout _ _ (layout t before after h l) = let le = length-Layout before after l in omega arith

pub kind_is-own : (t : Token) (k : TokenKind) → t.kind ≡ k → kind_is k t.kind ≡ true
unfolding kind_is
kind_is-own t k e = rw e (ground arith)

module _ (source : Bytes) where
  pub reach-postfix : (t : Token) → is_postfix_start t.kind ≡ true → reach source t ≡ 10
  reach-postfix t h =
      let inside : is_expr_terminator t.kind ≡ false = ground arith in
      rw (inside, postfix-infix source t h) refl

  pub reach-Closes : (t : Token) → Closes source t → reach source t ≡ 0
  reach-Closes t (inl h) = rw h refl
  reach-Closes t (inr h) = elim (Bool-cases (is_expr_terminator t.kind)) [
    | inl e ↦ rw e refl
    | inr e ↦ rw (e, h) refl
  ]

  pub Layout-Closes :
      (before after : List Token)
      → Layout before after
      → Closes source (first after)
      → Closes source (first before)
  unfolding current_infix_operator kind_is
  Layout-Closes _ _ (no_layout t after h) closes = closes
  Layout-Closes _ _ (layout t before after h l) closes =
      elim (Bool-cases (is_expr_terminator t.kind)) [ inl e ↦ inl e | inr e ↦ inr (ground arith) ]
