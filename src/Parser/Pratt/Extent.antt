-- ===== src/Parser/Pratt/Extent.antt =====
-- Where the expressions of the grammar of crates/parser/src/expr.rs start and end.
use thagore.Base.{ℕ, ◌<◌, ◌≤◌, ◌≡◌, refl, true, false, ◌||◌, List, ◌∷◌, arith, length}
use thagore.Ast.{Expr, Exprs}
use thagore.Lexer.Source.{Bytes}
use thagore.Lexer.Token.{Token, TokenKind}
use thagore.Parser.Kinds.{kind_is}
use thagore.Parser.{Names, first}
use thagore.Parser.Pratt.Grammar.{
  names_value, Written, truth, falsity, name, integer, float, string, negation, inversion,
  parenthesised, binary, assignment, field, index, call, Arguments, no_more, last, comma,
}
use thagore.Parser.Pratt.Steps.{length-Layout}

module _ (source : Bytes) where
  pub edge-positive :
      {low edge : ℕ} {before after : List Token} {n n' : Names} {e : Expr}
      → Written source low edge before after n e n'
      → 0 < edge
  edge-positive (negation t low edge inner after n n' e k w h) =
      let i = edge-positive w in omega arith
  edge-positive (inversion t low edge inner after n n' e k a b c w h) =
      let i = edge-positive w in omega arith
  edge-positive
        (binary t power low edge low' edge' before right after n n' n'' e e' op o w h w' h') =
      let i = edge-positive w' in omega arith
  edge-positive (assignment t low edge low' edge' before right after n n' n'' e e' k w h w' h') =
      let i = edge-positive w' in omega arith
  edge-positive _ = omega arith

  pub names-start :
      (k : TokenKind)
      → names_value k ≡ true
      → (kind_is TokenKind.r_paren k || kind_is TokenKind.eof k) ≡ false
  unfolding kind_is
  names-start k h = ground arith

  -- An expression does not start where a list of arguments ends.
  pub starts-Written :
      {low edge : ℕ} {before after : List Token} {n n' : Names} {e : Expr}
      → Written source low edge before after n e n'
      → (kind_is TokenKind.r_paren (first before).kind || kind_is TokenKind.eof (first before).kind)
        ≡ false
  unfolding kind_is
  starts-Written
        (binary t power low edge low' edge' before right after n n' n'' e e' op o w h w' h') =
      starts-Written w
  starts-Written (assignment t low edge low' edge' before right after n n' n'' e e' k w h w' h') =
      starts-Written w
  starts-Written (field dot t low edge before after n n' e k k' w h) = starts-Written w
  starts-Written (index l r low edge low' edge' before inner after n n' n'' e e' k k' w h w') =
      starts-Written w
  starts-Written (call l r low edge before inner list after n n' n'' e args k k' w h lay ar) =
      starts-Written w
  starts-Written (integer t after n k) = rw k refl
  starts-Written (float t after n k) = rw k refl
  starts-Written (string t after n k) = rw k refl
  starts-Written (negation t low edge inner after n n' e k w h) = rw k refl
  starts-Written (parenthesised l r low edge inner after n n' e k k' w) = rw k refl
  starts-Written (truth t after n k h) = names-start t.kind k
  starts-Written (falsity t after n k h h') = names-start t.kind k
  starts-Written (name t after n k h h' h'') = names-start t.kind k
  starts-Written (inversion t low edge inner after n n' e k h h' h'' w le) = names-start t.kind k

  mutual
    pub length-Written :
        {low edge : ℕ} {before after : List Token} {n n' : Names} {e : Expr}
        → Written source low edge before after n e n'
        → length after < length before
    length-Written (negation t low edge inner after n n' e k w h) = omega (arith, length-Written w)
    length-Written (inversion t low edge inner after n n' e k a b c w h) =
        omega (arith, length-Written w)
    length-Written (parenthesised l r low edge inner after n n' e k k' w) =
        omega (arith, length-Written w)
    length-Written
          (binary t p low edge low' edge' before right after n n' n'' e e' op o w h w' h') =
        omega (arith, length-Written w, length-Written w')
    length-Written (assignment t low edge low' edge' before right after n n' n'' e e' k w h w' h') =
        omega (arith, length-Written w, length-Written w')
    length-Written (field dot t low edge before after n n' e k k' w h) =
        omega (arith, length-Written w)
    length-Written (index l r low edge low' edge' before inner after n n' n'' e e' k k' w h w') =
        omega (arith, length-Written w, length-Written w')
    length-Written (call l r low edge before inner list after n n' n'' e args k k' w h lay ar) =
        omega (arith, length-Written w, length-Layout inner list lay, length-Arguments ar)
    length-Written _ = omega arith

    pub length-Arguments :
        {before after : List Token} {n n' : Names} {args : Exprs}
        → Arguments source before after n args n'
        → length after ≤ length before
    length-Arguments (no_more r after n k) = omega arith
    length-Arguments (last r low edge before inner after n n' e k w lay) =
        omega (arith, length-Written w, length-Layout inner (r ∷ after) lay)
    length-Arguments
          (comma c low edge before inner behind next after n n' n'' e args k w lay lay' ar) =
        omega (
          arith,
          length-Written w,
          length-Layout inner (c ∷ behind) lay,
          length-Layout behind next lay',
          length-Arguments ar,
        )
