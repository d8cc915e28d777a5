-- ===== src/Parser/Decls/Total.antt =====
-- The parser of declarations (crates/parser/src/decl.rs) returns.
use thagore.Base.{
  suc, ◌≡◌, refl, Bool, true, false, ◌||◌, length, Option, none, some, arith, Bool-cases, inl, inr,
  ◌⊎◌, ◌>>=◌,
}
use thagore.Ast.{InternedStr}
use thagore.Ast.Stmts.{Block}
use thagore.Ast.Decls.{Decl}
use thagore.Lexer.Keywords.{codes}
use thagore.Lexer.Source.{Bytes}
use thagore.Lexer.Token.{Span, TokenKind}
use thagore.Parser.Kinds.{kind_is, token_can_name_value, is_builtin_type}
use thagore.Parser.{
  Parser, Expectation, peek, advance, at, token_is_contextual, parse_identifier_symbol,
  emit_unexpected,
}
use thagore.Parser.Moves.{
  Stays, Stays-refl, Stays-trans, advance-Moves, renamed-Stays, emit_statement_error-Stays,
  parse_symbol-Moves, consume_lexer_error-Moves, consume_lexer_error-none, emit_ahead,
}
use thagore.Parser.Pratt.Total.{Returns, returns, then-Returns}
use thagore.Parser.Types.Total.{parse_type_expr-Returns}
use thagore.Parser.Stmts.{
  take_or_miss, expect_block_colon, enter_indented_section_for, parse_expression, parse_block_for,
}
use thagore.Parser.Stmts.Goes.{
  Goes, Onward, Stays-Goes, Goes-trans, Onward-Goes, advance-Onward, Goes-Returns, Onward-Returns,
  Stays-Returns, taken-Stays, terminator-Stays, enter-Stays,
}
use thagore.Parser.Stmts.Total.{
  identifier-Stays, parse_annotation-Returns, parse_block_for-Returns, expression-Goes,
  parse_let_decl-Returns, recovered, no_boundary, close_section-Stays, expression-Onward,
}
use thagore.Parser.Lists.{followed, parse_import_symbol_entry}
use thagore.Parser.Lists.Total.{
  StepsOnward, section_loop-Returns, followed-Returns, parse_param_list-Returns,
  parse_type_param_list-Returns, parse_import_path-Returns, import_entry-Stays, no_end-comma,
}
use thagore.Parser.Decls.{
  parse_func_rest, parse_func_decl, parse_func_like_decl, parse_const_type, parse_const_decl,
  leave_section, parse_section, field_step, parse_struct_like_decl, method_step,
  parse_impl_like_decl, expect_import_all, parse_include, import_keyword, parse_from_import,
  import_alias, parse_plain_import, parse_extern_decl, pass_goal, intent_step, body_or_empty,
  parse_intent_decl, flow_step, parse_flow_decl, as_decl, decl_of, pass_pub, parse_decl,
}

module _ (source : Bytes) where
  -- The token of the keyword and the name behind it.
  named-Onward :
      (p : Parser)
      → at TokenKind.eof p ≡ false
      → Onward p (parse_identifier_symbol source Expectation.identifier (advance p)).1
  named-Onward p inside =
      Onward-Goes (advance-Onward p inside)
        (Stays-Goes (identifier-Stays source Expectation.identifier (advance p)))

  colon-Goes : (p : Parser) → Goes p (expect_block_colon p)
  colon-Goes p = Stays-Goes (taken-Stays TokenKind.colon _ p)

  taken-Goes : (kind : TokenKind) (p : Parser) → Goes p (take_or_miss kind p)
  taken-Goes kind p = Stays-Goes (taken-Stays kind _ p)

  func_rest-Returns :
      (start : Span) (name : InternedStr) (p : Parser)
      → Returns (Goes p) (parse_func_rest source start name p)
  unfolding parse_func_rest
  func_rest-Returns start name p = then-Returns _ (parse_param_list-Returns source p) (λ ps q g.
      then-Returns _ (Goes-Returns g (parse_annotation-Returns source TokenKind.arrow q))
        (λ ty r g'.
          then-Returns _
            (Goes-Returns (Goes-trans g' (colon-Goes r))
              (parse_block_for-Returns source Expectation.func_body (expect_block_colon r)))
            (λ b t g''. returns _ (Goes-trans g'' (Stays-Goes (renamed-Stays t _))))))

  func_decl-Returns :
      (p : Parser) → at TokenKind.eof p ≡ false → Returns (Onward p) (parse_func_decl source p)
  unfolding parse_func_decl
  func_decl-Returns p inside = Onward-Returns (named-Onward p inside) (func_rest-Returns _ _ _)

  func_like-Returns :
      (p : Parser) → at TokenKind.eof p ≡ false → Returns (Onward p) (parse_func_like_decl source p)
  unfolding parse_func_like_decl
  func_like-Returns p inside =
      then-Returns _
        (Onward-Returns (named-Onward p inside) (parse_type_param_list-Returns source _))
        (λ ts q on.
          then-Returns _ (Onward-Returns on (func_rest-Returns _ _ q)) (λ f r on'. returns _ on'))

  const_type-Returns : (p : Parser) → Returns (Goes p) (parse_const_type source p)
  unfolding parse_const_type
  const_type-Returns p = elim (Bool-cases (at TokenKind.colon p)) [
    | inl t ↦
        rw (t, parse_const_type)
          (Goes-Returns (Stays-Goes (advance-Moves p).stays)
            (Stays-Returns (parse_type_expr-Returns source (advance p))))
    | inr f ↦
        rw (f, parse_const_type)
          (returns _
            (Stays-Goes (Stays-trans (emit_statement_error-Stays _ p) (renamed-Stays _ _))))
  ]

  const_decl-Returns :
      (p : Parser) → at TokenKind.eof p ≡ false → Returns (Onward p) (parse_const_decl source p)
  unfolding parse_const_decl
  const_decl-Returns p inside =
      then-Returns _ (Onward-Returns (named-Onward p inside) (const_type-Returns _)) (λ ty q on.
        then-Returns _
          (Onward-Returns (Onward-Goes on (taken-Goes TokenKind.assign q))
            (expression-Goes source _))
          (λ e r on'. returns _ (Onward-Goes on' (Stays-Goes (renamed-Stays r _)))))

  leave-Goes :
      (entered : Bool) (end : Span) (p : Parser) → Goes p (leave_section source entered end p).1
  leave-Goes true end p = Stays-Goes (close_section-Stays source end p)
  leave-Goes false end p = Stays-Goes (Stays-refl p)

  section-Returns :
      {S : Type 0} (x : Expectation) (step : S → Parser → Option ((Bool × S) × Parser)) (s : S)
      (p : Parser)
      → StepsOnward step
      → Returns (Goes p) (parse_section source x step s p)
  unfolding parse_section
  section-Returns x step s p all =
      let entered = enter_indented_section_for x p in
      let g = Stays-Goes (enter-Stays x p) in
      elim (Bool-cases entered.0) [
        | inl t ↦
            rw (t, parse_section)
              (then-Returns _
                (Goes-Returns g (
                  section_loop-Returns step (suc (length entered.1.ahead)) s entered.1 all
                    (omega arith)))
                (λ s' q g'. returns _ g'))
        | inr f ↦ rw (f, parse_section) (returns _ g)
      ]

  inside-section :
      (p : Parser)
      → (at TokenKind.dedent p || at TokenKind.eof p) ≡ false
      → at TokenKind.eof p ≡ false
  inside-section p h = ground arith

  field-Onward : StepsOnward (field_step source)
  unfolding field_step
  field-Onward = λ s p line h.
      let moved =
        parse_symbol-Moves source (token_can_name_value (peek p).kind) Expectation.field p in
      let on : Onward p (parse_identifier_symbol source Expectation.field p).1 = record {
        goes = Stays-Goes moved.stays;
        shorter = moved.shorter (inside-section p h);
      } in
      let on' = Onward-Goes on (Stays-Goes (taken-Stays TokenKind.colon _ _)) in
      then-Returns _ (Onward-Returns on' (Stays-Returns (parse_type_expr-Returns source _)))
        (λ ty q on''.
          returns _
            (Onward-Goes on'' (Stays-Goes (Stays-trans (renamed-Stays q _) (terminator-Stays _)))))

  method-Onward : StepsOnward (method_step source)
  unfolding method_step
  method-Onward = λ s p line h. elim (Bool-cases (at TokenKind.kw_func p)) [
    | inl t ↦
        rw (t, method_step)
          (then-Returns _ (func_decl-Returns p (inside-section p h))
            (λ f q on. returns _ (Onward-Goes on (Stays-Goes (terminator-Stays q)))))
    | inr f ↦
        rw (f, method_step)
          (returns _ (recovered source p Expectation.declaration (no_boundary source p line h)))
  ]

  struct-Returns :
      (p : Parser)
      → at TokenKind.eof p ≡ false
      → Returns (Onward p) (parse_struct_like_decl source p)
  unfolding parse_struct_like_decl
  struct-Returns p inside =
      then-Returns _
        (Onward-Returns (named-Onward p inside) (parse_type_param_list-Returns source _))
        (λ ts q on.
          then-Returns _
            (Onward-Returns (Onward-Goes on (colon-Goes q))
              (section-Returns Expectation.struct_body (field_step source) _ _ field-Onward))
            (λ s r on'. returns _ (
              Onward-Goes on'
                (Goes-trans (leave-Goes s.0 s.1.1 r) (Stays-Goes (renamed-Stays _ _))))))

  impl-Returns :
      (p : Parser) → at TokenKind.eof p ≡ false → Returns (Onward p) (parse_impl_like_decl source p)
  unfolding parse_impl_like_decl
  impl-Returns p inside =
      then-Returns _
        (Onward-Returns (named-Onward p inside) (parse_type_param_list-Returns source _))
        (λ ts q on.
          then-Returns _
            (Onward-Returns (Onward-Goes on (colon-Goes q))
              (section-Returns Expectation.impl_body (method_step source) _ _ method-Onward))
            (λ s r on'. returns _ (
              Onward-Goes on'
                (Goes-trans (leave-Goes s.0 s.1.1 r) (Stays-Goes (renamed-Stays _ _))))))

  import_all-Stays : (p : Parser) → Stays p (expect_import_all source p)
  import_all-Stays p = elim (Bool-cases (token_is_contextual source (peek p) (codes "all"))) [
    | inl t ↦ rw t (advance-Moves p).stays
    | inr f ↦ rw f (emit_statement_error-Stays _ p)
  ]

  include-Goes : (end : Span) (p : Parser) → Goes p (parse_include source end p).1
  include-Goes end p = elim (Bool-cases (at TokenKind.kw_include p)) [
    | inl t ↦ rw t (Stays-Goes (Stays-trans (advance-Moves p).stays (import_all-Stays (advance p))))
    | inr f ↦ rw f (Stays-Goes (Stays-refl p))
  ]

  import_keyword-Stays : (end : Span) (p : Parser) → Stays p (import_keyword source end p).1
  import_keyword-Stays end p = elim (Bool-cases (at TokenKind.kw_import p)) [
    | inl t ↦ rw t (advance-Moves p).stays
    | inr f ↦ rw f (emit_statement_error-Stays _ p)
  ]

  entries-Returns :
      (p : Parser)
      → Returns
          (Stays p)
          (followed (parse_import_symbol_entry source) (suc (length p.ahead)) TokenKind.comma p)
  entries-Returns p =
      followed-Returns (parse_import_symbol_entry source) (suc (length p.ahead)) TokenKind.comma p
        (import_entry-Stays source) no_end-comma (omega arith)

  from_import-Returns :
      (p : Parser) → at TokenKind.eof p ≡ false → Returns (Onward p) (parse_from_import source p)
  unfolding parse_from_import
  from_import-Returns p inside =
      then-Returns _
        (Onward-Returns (advance-Onward p inside)
          (Stays-Returns (parse_import_path-Returns source (advance p))))
        (λ path q on.
          let keyword =
            Stays-trans (import_keyword-Stays (peek p).span q) (import_entry-Stays source _) in
          then-Returns _
            (Onward-Returns (Onward-Goes on (Stays-Goes keyword))
              (Stays-Returns (entries-Returns _)))
            (λ xs r on'.
              returns _
                (Onward-Goes on' (Goes-trans (include-Goes _ r) (Stays-Goes (renamed-Stays _ _))))))

  import_alias-Stays : (p : Parser) → Stays p (import_alias source p).1
  import_alias-Stays p = elim (Bool-cases (token_is_contextual source (peek p) (codes "as"))) [
    | inl t ↦
        let name =
          parse_symbol-Moves source
            (token_can_name_value (peek (advance p)).kind
              || is_builtin_type (peek (advance p)).kind)
            Expectation.identifier (advance p) in
        rw t (Stays-trans (advance-Moves p).stays name.stays)
    | inr f ↦ rw f (Stays-refl p)
  ]

  plain_import-Returns :
      (p : Parser) → at TokenKind.eof p ≡ false → Returns (Onward p) (parse_plain_import source p)
  unfolding parse_plain_import
  plain_import-Returns p inside =
      then-Returns _
        (Onward-Returns (advance-Onward p inside)
          (Stays-Returns (parse_import_path-Returns source (advance p))))
        (λ path q on.
          let alias = Stays-Goes (import_alias-Stays q) in
          returns _ (
            Onward-Goes on
              (Goes-trans alias (Goes-trans (include-Goes _ _) (Stays-Goes (renamed-Stays _ _))))))

  extern-Returns :
      (p : Parser) → at TokenKind.eof p ≡ false → Returns (Onward p) (parse_extern_decl source p)
  unfolding parse_extern_decl
  extern-Returns p inside =
      let func = Onward-Goes (advance-Onward p inside) (taken-Goes TokenKind.kw_func (advance p)) in
      let named =
        Onward-Goes func (Stays-Goes (identifier-Stays source Expectation.identifier _)) in
      then-Returns _ (Onward-Returns named (parse_param_list-Returns source _)) (λ ps q on.
        then-Returns _
          (Onward-Returns (Onward-Goes on (taken-Goes TokenKind.arrow q))
            (Stays-Returns (parse_type_expr-Returns source _)))
          (λ ty r on'. returns _ (Onward-Goes on' (Stays-Goes (renamed-Stays r _)))))

  pass_goal-Stays : (p : Parser) → Stays p (pass_goal source p)
  pass_goal-Stays p =
      elim (Bool-cases (
        token_is_contextual source (peek p) (codes "minimize")
        || token_is_contextual source (peek p) (codes "maximize"))) [
          | inl t ↦ rw t (advance-Moves p).stays
          | inr f ↦ rw f (Stays-refl p)
        ]

  goal-Onward :
      (p : Parser)
      → at TokenKind.eof p ≡ false
      → Returns (Onward p) (parse_expression source (pass_goal source p))
  goal-Onward p inside =
      elim (Bool-cases (
        token_is_contextual source (peek p) (codes "minimize")
        || token_is_contextual source (peek p) (codes "maximize"))) [
          | inl t ↦
              rw t (Onward-Returns (advance-Onward p inside) (expression-Goes source (advance p)))
          | inr f ↦ rw f (expression-Onward source p inside)
        ]

  colon_block-Returns :
      {p q : Parser}
      → Onward p q
      → Returns (Onward p) (parse_block_for source Expectation.block (expect_block_colon q))
  colon_block-Returns on =
      Onward-Returns (Onward-Goes on (colon-Goes _))
        (parse_block_for-Returns source Expectation.block _)

  intent-Onward : StepsOnward (intent_step source)
  unfolding intent_step
  intent-Onward = λ s p line h.
      let inside = inside-section p h in
      elim (Bool-cases (token_is_contextual source (peek p) (codes "body"))) [
        | inl t ↦
            rw (t, intent_step)
              (then-Returns _ (colon_block-Returns (advance-Onward p inside))
                (λ b q on. returns _ on))
        | inr f ↦
            rw (f, intent_step)
              (then-Returns _ (goal-Onward p inside)
                (λ e q on. returns _ (Onward-Goes on (Stays-Goes (terminator-Stays q)))))
      ]

  body-Goes : (b : Option Block) (p : Parser) → Goes p (body_or_empty source b p).1
  body-Goes (some b) p = Stays-Goes (Stays-refl p)
  body-Goes none p = Stays-Goes (renamed-Stays p _)

  intent-Returns :
      (p : Parser) → at TokenKind.eof p ≡ false → Returns (Onward p) (parse_intent_decl source p)
  unfolding parse_intent_decl
  intent-Returns p inside =
      then-Returns _
        (Onward-Returns (Onward-Goes (named-Onward p inside) (colon-Goes _))
          (section-Returns Expectation.intent_body (intent_step source) _ _ intent-Onward))
        (λ s q on. returns _ (
          Onward-Goes on (
            Goes-trans (leave-Goes s.0 s.1.end q)
              (Goes-trans (body-Goes s.1.body _) (Stays-Goes (renamed-Stays _ _))))))

  flow-Onward : StepsOnward (flow_step source)
  unfolding flow_step
  flow-Onward = λ s p line h.
      let on = advance-Onward p (inside-section p h) in
      elim (Bool-cases (token_is_contextual source (peek p) (codes "stage"))) [
        | inl t ↦
            let named =
              Onward-Goes on (Stays-Goes (identifier-Stays source Expectation.flow_stage _)) in
            rw (t, flow_step)
              (then-Returns _ (colon_block-Returns named)
                (λ b q on'. returns _ (Onward-Goes on' (Stays-Goes (renamed-Stays q _)))))
        | inr f ↦ elim (Bool-cases (token_is_contextual source (peek p) (codes "compensate"))) [
          | inl t ↦
              rw (f, t, flow_step)
                (then-Returns _ (colon_block-Returns on) (λ b q on'. returns _ on'))
          | inr f' ↦
              rw (f, f', flow_step)
                (returns _
                  (recovered source p Expectation.flow_stage (no_boundary source p line h)))
        ]
      ]

  flow-Returns :
      (p : Parser) → at TokenKind.eof p ≡ false → Returns (Onward p) (parse_flow_decl source p)
  unfolding parse_flow_decl
  flow-Returns p inside =
      then-Returns _
        (Onward-Returns (Onward-Goes (named-Onward p inside) (colon-Goes _))
          (section-Returns Expectation.flow_body (flow_step source) _ _ flow-Onward))
        (λ s q on.
          returns _ (
            Onward-Goes on
              (Goes-trans (leave-Goes s.0 s.1.end q) (Stays-Goes (renamed-Stays _ _)))))

  -- A declaration, or none where no token was consumed.
  pub record Declares (p : Parser) (result : Option (Option Decl × Parser)) : Type 0 where
    pub decl : Option Decl
    pub after : Parser
    pub ends : result ≡ some (decl, after)
    pub goes : Goes p after
    pub moved : (Onward p after) ⊎ ((decl ≡ none) × (after.ahead ≡ p.ahead))

  as_decl-Declares :
      {A : Type 0} (wrap : A → Decl) {p : Parser} {o : Option (A × Parser)}
      → Returns (Onward p) o
      → Declares p (o >>= as_decl source wrap)
  as_decl-Declares wrap r = record {
    decl = some (wrap r.value);
    after = r.after;
    ends = rw r.ends refl;
    goes = r.holds.goes;
    moved = inl r.holds;
  }

  decl_of-Declares :
      (kind : TokenKind) (p : Parser)
      → kind_is TokenKind.eof (peek p).kind ≡ kind_is TokenKind.eof kind
      → Declares p (decl_of source kind p)
  unfolding decl_of kind_is
  decl_of-Declares TokenKind.kw_func p e = as_decl-Declares (λ d. d) (func_like-Returns p e)
  decl_of-Declares TokenKind.kw_let p e =
      as_decl-Declares Decl.let_decl (parse_let_decl-Returns source p e)
  decl_of-Declares TokenKind.kw_const p e =
      as_decl-Declares Decl.const_decl (const_decl-Returns p e)
  decl_of-Declares TokenKind.kw_struct p e = as_decl-Declares (λ d. d) (struct-Returns p e)
  decl_of-Declares TokenKind.kw_impl p e = as_decl-Declares (λ d. d) (impl-Returns p e)
  decl_of-Declares TokenKind.kw_import p e =
      as_decl-Declares Decl.import_decl (plain_import-Returns p e)
  decl_of-Declares TokenKind.kw_from p e =
      as_decl-Declares Decl.import_decl (from_import-Returns p e)
  decl_of-Declares TokenKind.kw_extern p e = as_decl-Declares Decl.extern_decl (extern-Returns p e)
  decl_of-Declares TokenKind.kw_intent p e = as_decl-Declares Decl.intent (intent-Returns p e)
  decl_of-Declares TokenKind.kw_flow p e = as_decl-Declares Decl.flow (flow-Returns p e)
  decl_of-Declares kind p e = record {
    decl = none;
    after = emit_unexpected Expectation.declaration p;
    ends = refl;
    goes = Stays-Goes (emit_statement_error-Stays _ p);
    moved = inr (refl, emit_ahead _ p);
  }

  pass_pub-Declares :
      {p : Parser} {result : Option (Option Decl × Parser)}
      → at TokenKind.eof p ≡ false
      → Declares (pass_pub source p) result
      → Declares p result
  pass_pub-Declares {p} inside d =
      elim (Bool-cases (token_is_contextual source (peek p) (codes "pub"))) [
        | inl t ↦
            let passed : pass_pub source p ≡ advance p = rw t refl in
            let on = Onward-Goes (advance-Onward p inside) (rw passed at d.goes) in
            record { decl = d.decl; after = d.after; ends = d.ends; goes = on.goes; moved = inl on }
        | inr f ↦ let stays : pass_pub source p ≡ p = rw f refl in rw stays at d
      ]

  pub parse_decl-Declares :
      (p : Parser) → at TokenKind.eof p ≡ false → Declares p (parse_decl source p)
  unfolding parse_decl
  parse_decl-Declares p inside = elim (Bool-cases (at TokenKind.error p)) [
    | inl t ↦
        let (q, e, m) = consume_lexer_error-Moves p t in
        let on : Onward p q = record { goes = Stays-Goes m.stays; shorter = m.shorter inside } in
        rw (e, parse_decl, e)
          (record { decl = none; after = q; ends = refl; goes = on.goes; moved = inl on })
    | inr f ↦
        rw (consume_lexer_error-none p f, parse_decl)
          (pass_pub-Declares inside
            (decl_of-Declares (peek (pass_pub source p)).kind (pass_pub source p) refl))
  ]
