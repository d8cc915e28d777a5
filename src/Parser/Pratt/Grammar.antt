-- ===== src/Parser/Pratt/Grammar.antt =====
-- The expressions of the Thagore language as a grammar: what crates/parser/src/expr.rs is meant to read.
use thagore.Base.{ℕ, ◌+◌, ◌<◌, ◌≤◌, ◌≡◌, Bool, true, false, ◌||◌, List, ◌∷◌}
use Prim.Native.Nat.{min}
use thagore.Ast.{Expr, Exprs, Literal, BinOp, UnaryOp}
use thagore.Ast
use thagore.Lexer.Keywords.{codes}
use thagore.Lexer.Source.{Bytes}
use thagore.Lexer.Token.{Token, TokenKind, join}
use thagore.Parser.Kinds.{token_can_name_value, is_builtin_type}
use thagore.Parser.{Names, next_id, token_text, has_text, intern_token_symbol, is_soft}
use thagore.Parser.Pratt.{parse_i64, or_zero}
use thagore.Base.{◌>>=◌}

-- The symbols of the binary operators and how tight they bind.
pub data Symbol : TokenKind → ℕ → BinOp → Type 0 where
  eq : Symbol TokenKind.eq_eq 4 BinOp.eq
  not_eq : Symbol TokenKind.bang_eq 4 BinOp.not_eq
  lt : Symbol TokenKind.lt 5 BinOp.lt
  gt : Symbol TokenKind.gt 5 BinOp.gt
  lt_eq : Symbol TokenKind.lt_eq 5 BinOp.lt_eq
  gt_eq : Symbol TokenKind.gt_eq 5 BinOp.gt_eq
  add : Symbol TokenKind.plus 6 BinOp.add
  sub : Symbol TokenKind.minus 6 BinOp.sub
  mul : Symbol TokenKind.star 7 BinOp.mul
  div : Symbol TokenKind.slash 7 BinOp.div
  rem : Symbol TokenKind.percent 7 BinOp.rem

pub data Operates (source : Bytes) (t : Token) : ℕ → BinOp → Type 0 where
  or_word :
      t.kind ≡ TokenKind.identifier
      → has_text source t (codes "or") ≡ true
      → Operates source t 2 BinOp.or
  and_word :
      t.kind ≡ TokenKind.identifier
      → has_text source t (codes "or") ≡ false
      → has_text source t (codes "and") ≡ true
      → Operates source t 3 BinOp.and
  symbol :
      (kind : TokenKind) (power : ℕ) (op : BinOp)
      → t.kind ≡ kind
      → Symbol kind power op
      → Operates source t power op

-- The kinds of the tokens that can stand for a value or a field.
abbrev pub names_value : TokenKind → Bool
names_value kind = token_can_name_value kind || is_builtin_type kind

-- Newlines, indents and dedents, and a token that is none behind them.
pub data Layout : (before after : List Token) → Type 0 where
  no_layout :
      (t : Token) (after : List Token) → is_soft t.kind ≡ false → Layout (t ∷ after) (t ∷ after)
  layout :
      (t : Token) (before after : List Token)
      → is_soft t.kind ≡ true
      → Layout before after
      → Layout (t ∷ before) after

-- `Written source low edge before after names e names'`: `before` is the text of `e` with `after` behind it, where
-- the weakest operator of `e` outside parentheses and prefixes binds with `low`, and an operator of
-- `after` that binds less than `edge` does not reach into `e`. The names are those before and after.
mutual
  pub data Written (source : Bytes)
      : (low edge : ℕ) (before after : List Token) → Names → Expr → Names → Type 0 where
    truth :
        (t : Token) (after : List Token) (n : Names)
        → names_value t.kind ≡ true
        → has_text source t (codes "true") ≡ true
        → Written source 11 11
            (t ∷ after)
            after
            n
            (Expr.literal n.next_node_id t.span (Literal.bool true))
            (next_id n)
    falsity :
        (t : Token) (after : List Token) (n : Names)
        → names_value t.kind ≡ true
        → has_text source t (codes "true") ≡ false
        → has_text source t (codes "false") ≡ true
        → Written source 11 11
            (t ∷ after)
            after
            n
            (Expr.literal n.next_node_id t.span (Literal.bool false))
            (next_id n)
    name :
        (t : Token) (after : List Token) (n : Names)
        → names_value t.kind ≡ true
        → has_text source t (codes "true") ≡ false
        → has_text source t (codes "false") ≡ false
        → has_text source t (codes "not") ≡ false
        → Written source 11 11
            (t ∷ after)
            after
            n
            (Expr.ident
              (intern_token_symbol source t n).1.next_node_id
              t.span
              (intern_token_symbol source t n).0)
            (next_id (intern_token_symbol source t n).1)
    integer :
        (t : Token) (after : List Token) (n : Names)
        → t.kind ≡ TokenKind.integer
        → Written source 11 11
            (t ∷ after)
            after
            n
            (Expr.literal n.next_node_id t.span
              (Literal.int (or_zero (token_text source t >>= parse_i64))))
            (next_id n)
    float :
        (t : Token) (after : List Token) (n : Names)
        → t.kind ≡ TokenKind.float
        → Written source 11 11
            (t ∷ after)
            after
            n
            (Expr.literal n.next_node_id t.span (Literal.float (token_text source t)))
            (next_id n)
    string :
        (t : Token) (after : List Token) (n : Names)
        → t.kind ≡ TokenKind.string
        → Written source 11 11
            (t ∷ after)
            after
            n
            (Expr.literal
              (intern_token_symbol source t n).1.next_node_id
              t.span
              (Literal.str (intern_token_symbol source t n).0))
            (next_id (intern_token_symbol source t n).1)
    negation :
        (t : Token) (low edge : ℕ) (inner after : List Token) (n n' : Names) (e : Expr)
        → t.kind ≡ TokenKind.minus
        → Written source low edge inner after n e n'
        → 9 ≤ low
        → Written source 11
            (min 9 edge)
            (t ∷ inner)
            after
            n
            (Expr.unary n'.next_node_id (join t.span (Ast.span e)) UnaryOp.neg e)
            (next_id n')
    inversion :
        (t : Token) (low edge : ℕ) (inner after : List Token) (n n' : Names) (e : Expr)
        → names_value t.kind ≡ true
        → has_text source t (codes "true") ≡ false
        → has_text source t (codes "false") ≡ false
        → has_text source t (codes "not") ≡ true
        → Written source low edge inner after n e n'
        → 4 ≤ low
        → Written source 11
            (min 4 edge)
            (t ∷ inner)
            after
            n
            (Expr.unary n'.next_node_id (join t.span (Ast.span e)) UnaryOp.not e)
            (next_id n')
    parenthesised :
        (l r : Token) (low edge : ℕ) (inner after : List Token) (n n' : Names) (e : Expr)
        → l.kind ≡ TokenKind.l_paren
        → r.kind ≡ TokenKind.r_paren
        → Written source low edge inner (r ∷ after) n e n'
        → Written source 11 11 (l ∷ inner) after n e n'
    binary :
        (t : Token) (power low edge low' edge' : ℕ) (before right after : List Token)
        (n n' n'' : Names) (e e' : Expr) (op : BinOp)
        → Operates source t power op
        → Written source low edge before (t ∷ right) n e n'
        → power < edge
        → Written source low' edge' right after n' e' n''
        → power < low'
        → Written source
            (min low power)
            (min (power + 1) edge')
            before
            after
            n
            (Expr.binary n''.next_node_id (join (Ast.span e) (Ast.span e')) e op e')
            (next_id n'')
    assignment :
        (t : Token) (low edge low' edge' : ℕ) (before right after : List Token) (n n' n'' : Names)
        (e e' : Expr)
        → t.kind ≡ TokenKind.assign
        → Written source low edge before (t ∷ right) n e n'
        → 1 < edge
        → Written source low' edge' right after n' e' n''
        → 1 ≤ low'
        → Written source
            (min low 1)
            (min 1 edge')
            before
            after
            n
            (Expr.assign n''.next_node_id (join (Ast.span e) (Ast.span e')) e e')
            (next_id n'')
    field :
        (dot t : Token) (low edge : ℕ) (before after : List Token) (n n' : Names) (e : Expr)
        → dot.kind ≡ TokenKind.dot
        → names_value t.kind ≡ true
        → Written source low edge before (dot ∷ t ∷ after) n e n'
        → 10 < edge
        → Written source
            (min low 10)
            11
            before
            after
            n
            (Expr.field_access
              (intern_token_symbol source t n').1.next_node_id
              (join (join (Ast.span e) dot.span) t.span)
              e
              (intern_token_symbol source t n').0)
            (next_id (intern_token_symbol source t n').1)
    index :
        (l r : Token) (low edge low' edge' : ℕ) (before inner after : List Token) (n n' n'' : Names)
        (e e' : Expr)
        → l.kind ≡ TokenKind.l_bracket
        → r.kind ≡ TokenKind.r_bracket
        → Written source low edge before (l ∷ inner) n e n'
        → 10 < edge
        → Written source low' edge' inner (r ∷ after) n' e' n''
        → Written source
            (min low 10)
            11
            before
            after
            n
            (Expr.index n''.next_node_id (join (Ast.span e) r.span) e e')
            (next_id n'')
    call :
        (l r : Token) (low edge : ℕ) (before inner list after : List Token) (n n' n'' : Names)
        (e : Expr) (args : Exprs)
        → l.kind ≡ TokenKind.l_paren
        → r.kind ≡ TokenKind.r_paren
        → Written source low edge before (l ∷ inner) n e n'
        → 10 < edge
        → Layout inner list
        → Arguments source list (r ∷ after) n' args n''
        → Written source
            (min low 10)
            11
            before
            after
            n
            (Expr.call n''.next_node_id (join (Ast.span e) r.span) e args)
            (next_id n'')

  -- The arguments of a call up to its right parenthesis, a comma after the last one allowed.
  pub data Arguments (source : Bytes)
      : (before after : List Token) → Names → Exprs → Names → Type 0 where
    no_more :
        (r : Token) (after : List Token) (n : Names)
        → r.kind ≡ TokenKind.r_paren
        → Arguments source (r ∷ after) (r ∷ after) n Exprs.none n
    last :
        (r : Token) (low edge : ℕ) (before inner after : List Token) (n n' : Names) (e : Expr)
        → r.kind ≡ TokenKind.r_paren
        → Written source low edge before inner n e n'
        → Layout inner (r ∷ after)
        → Arguments source before (r ∷ after) n (Exprs.more e Exprs.none) n'
    comma :
        (c : Token) (low edge : ℕ) (before inner behind next after : List Token) (n n' n'' : Names)
        (e : Expr) (args : Exprs)
        → c.kind ≡ TokenKind.comma
        → Written source low edge before inner n e n'
        → Layout inner (c ∷ behind)
        → Layout behind next
        → Arguments source next after n' args n''
        → Arguments source before after n (Exprs.more e args) n''
