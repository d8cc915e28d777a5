-- ===== src/Parser/Lists.antt =====
-- crates/parser/src/decl.rs: the lists of parameters, of type parameters and of imported names, and the loop that
-- its sections share.
pub mod Total
use Prim.Native.Nat.{min}
use thagore.Base.{
  ℕ, zero, suc, ◌+◌, Bool, true, false, ◌||◌, List, [], ◌∷◌, ◌++◌, Option, none, some,
  if◌then◌else◌, length, ◌>>=◌,
}
use thagore.Ast.{InternedStr}
use thagore.Ast.Types.{TypeExpr, type_span, ConstraintKind, Constraint, TypeParam}
use thagore.Ast.Decls.{Param, ImportSymbol}
use thagore.Lexer.Keywords.{codes}
use thagore.Lexer.Source.{Bytes}
use thagore.Lexer.Token.{Span, Token, TokenKind, join}
use thagore.Parser.Kinds.{kind_is}
use thagore.Parser.{
  Parser, Expectation, peek, advance, at, current_span, emit_unexpected, emit_missing, skip_token,
  skip_newlines, has_text, token_is_contextual, parse_identifier_symbol,
}
use thagore.Parser.Types.{alloc_node, parse_type_expr, synthetic_infer_type}
use thagore.Parser.Stmts.{take_or_miss}

-- A list in separators: `while !at(closing) && !at(Eof) { item; if no comma { break } }`
unfoldable pub separated {ℓ} :
    {A : Type ℓ}
    → (Parser → Option (A × Parser))
    → ℕ
    → TokenKind
    → Parser
    → Option (List A × Parser)
separated item zero closing p = none
separated item (suc count) closing p = elim (at closing p || at TokenKind.eof p) [
  | true ↦ some ([], p)
  | false ↦ do
    (x, p) ← item p
    elim (at TokenKind.comma p) [
      | true ↦ do (xs, p) ← separated item count closing (advance p); some (x ∷ xs, p)
      | false ↦ some (x ∷ [], p)
    ]
]

-- `while match_kind(separator) { item }`
unfoldable pub followed {ℓ} :
    {A : Type ℓ} → (Parser → A × Parser) → ℕ → TokenKind → Parser → Option (List A × Parser)
followed item zero separator p = none
followed item (suc count) separator p = elim (at separator p) [
  | true ↦ do
    (x, p) ← some (item (advance p))
    (xs, p) ← followed item count separator p
    some (x ∷ xs, p)
  | false ↦ some ([], p)
]

-- The loop of a section: a step says whether it breaks off, and passes the lists so far on.
unfoldable pub section_loop {ℓ} :
    {S : Type ℓ}
    → (S → Parser → Option ((Bool × S) × Parser))
    → ℕ
    → S
    → Parser
    → Option (S × Parser)
section_loop step zero s p = none
section_loop step (suc count) s p = elim (at TokenKind.dedent p || at TokenKind.eof p) [
  | true ↦ some (s, p)
  | false ↦ elim (at TokenKind.dedent (skip_newlines p) || at TokenKind.eof (skip_newlines p)) [
    | true ↦ some (s, skip_newlines p)
    | false ↦ do
      ((breaks, s), q) ← step s (skip_newlines p)
      elim breaks [ true ↦ some (s, q) | false ↦ section_loop step count s q ]
  ]
]

module _ (source : Bytes) where
  -- The type behind the name of a parameter.
  unfoldable pub parse_param_type : Token → Parser → Option (TypeExpr × Parser)
  parse_param_type name_token p = elim (at TokenKind.colon p) [
    | true ↦ parse_type_expr source (advance p)
    | false ↦ elim (has_text source name_token (codes "self")) [
      | true ↦ some (synthetic_infer_type name_token.span p)
      | false ↦ some (synthetic_infer_type (current_span p) (emit_missing TokenKind.colon p))
    ]
  ]

  unfoldable pub parse_param : Parser → Option (Param × Parser)
  parse_param p = do
    (name, q) ← some (parse_identifier_symbol source Expectation.parameter p)
    (ty, q) ← parse_param_type (peek p) q
    some (
        alloc_node
          (λ i. record {
            id = i;
            span = join (current_span p) (type_span ty);
            name = name;
            ty = ty;
          })
          q)

  unfoldable pub parse_param_list : Parser → Option (List Param × Parser)
  parse_param_list p = elim (at TokenKind.l_paren p) [
    | false ↦ some ([], emit_missing TokenKind.l_paren p)
    | true ↦ do
      (params, p) ←
          separated parse_param (suc (length (advance p).ahead)) TokenKind.r_paren (advance p)
      some (params, take_or_miss TokenKind.r_paren p)
  ]

  -- The word of a constraint; another token is an error.
  unfoldable pub constraint_kind : Token → Option ConstraintKind
  constraint_kind token =
      if has_text source token (codes "Ordered")
      then some ConstraintKind.ordered
      else if has_text source token (codes "Eq")
      then some ConstraintKind.eq
      else if has_text source token (codes "Numeric")
      then some ConstraintKind.numeric
      else none

  abbrev constraint_of : Span → ConstraintKind → Parser → Constraint × Parser
  constraint_of span kind p = alloc_node (λ i. record { id = i; span = span; kind = kind }) p

  unfoldable pub parse_constraint : Parser → Constraint × Parser
  parse_constraint p = elim (constraint_kind (peek p)) [
    | some kind ↦ constraint_of (current_span p) kind (advance p)
    | none ↦
        constraint_of (current_span p) ConstraintKind.ordered
          (skip_token (emit_unexpected Expectation.identifier p))
  ]

  abbrev last_span : Span → List Constraint → Span
  last_span end [] = end
  last_span end (c ∷ []) = c.span
  last_span end (c ∷ d ∷ cs) = last_span end (d ∷ cs)

  unfoldable pub parse_constraints : Parser → Option (List Constraint × Parser)
  parse_constraints p = elim (at TokenKind.colon p) [
    | false ↦ some ([], p)
    | true ↦ do
      (c, p) ← some (parse_constraint (advance p))
      (cs, p) ← followed parse_constraint (suc (length p.ahead)) TokenKind.plus p
      some (c ∷ cs, p)
  ]

  unfoldable pub parse_type_param : Parser → Option (TypeParam × Parser)
  parse_type_param p = do
    (name, q) ← some (parse_identifier_symbol source Expectation.identifier p)
    (constraints, r) ← parse_constraints q
    some (
        alloc_node
          (λ i. record {
            id = i;
            span = join (current_span p) (last_span (current_span q) constraints);
            name = name;
            constraints = constraints;
          })
          r)

  unfoldable pub parse_type_param_list : Parser → Option (List TypeParam × Parser)
  parse_type_param_list p = elim (at TokenKind.lt p) [
    | false ↦ some ([], p)
    | true ↦ do
      (params, p) ←
          separated parse_type_param (suc (length (advance p).ahead)) TokenKind.gt (advance p)
      some (params, take_or_miss TokenKind.gt p)
  ]

  -- `relative_level.saturating_add(1)` on `u8` for each dot
  abbrev count_dots : ℕ → List Token → ℕ × List Token
  count_dots level [] = (level, [])
  count_dots level (t ∷ ts) =
      if kind_is TokenKind.dot t.kind then count_dots (min (level + 1) 255) ts else (level, t ∷ ts)

  abbrev segment : Parser → InternedStr × Parser
  segment p = parse_identifier_symbol source Expectation.import_path_segment p

  unfoldable pub parse_segments : Parser → Option (List InternedStr × Parser)
  parse_segments p = elim (at TokenKind.identifier p) [
    | false ↦ some ([], p)
    | true ↦ do
      (x, p) ← some (segment p)
      (xs, p) ← followed segment (suc (length p.ahead)) TokenKind.dot p
      some (x ∷ xs, p)
  ]

  unfoldable pub parse_import_path : Parser → Option ((ℕ × List InternedStr) × Parser)
  parse_import_path p =
      let (level, ahead) = count_dots 0 p.ahead in
      do (segments, p) ← parse_segments (record p { ahead = ahead }); some ((level, segments), p)

  -- `as` and a name, or none
  abbrev pub parse_alias : Parser → Option InternedStr × Parser
  parse_alias p =
      if token_is_contextual source (peek p) (codes "as")
      then (let (name, q) = parse_identifier_symbol source Expectation.identifier (advance p) in
          (some name, q))
      else (none, p)

  unfoldable pub parse_import_symbol_entry : Parser → ImportSymbol × Parser
  parse_import_symbol_entry p =
      let (name, q) = parse_identifier_symbol source Expectation.identifier p in
      let (alias, r) = parse_alias q in
      alloc_node
        (λ i. record {
          id = i;
          span = join (current_span p) (current_span r);
          name = name;
          alias = alias;
        })
        r
