-- ===== src/Parser/Decls.antt =====
-- crates/parser/src/decl.rs: the parser of declarations.
pub mod Total
use thagore.Base.{
  ℕ, zero, suc, ◌+◌, Bool, true, false, ◌||◌, List, [], ◌∷◌, ◌++◌, Option, none, some,
  if◌then◌else◌, length, ◌>>=◌,
}
use thagore.Ast.{NodeId, InternedStr, Expr}
use thagore.Ast
use thagore.Ast.Types.{TypeExpr, type_span, TypeParam}
use thagore.Ast.Stmts.{LetDecl, Block, Stmts, block_span}
use thagore.Ast.Decls.{
  Param, FieldDef, FuncDecl, ConstDecl, StructDecl, ImplBlock, ImportSymbol, ImportDecl, ExternDecl,
  IntentDecl, FlowStage, FlowDecl, Decl,
}
use thagore.Lexer.Keywords.{codes}
use thagore.Lexer.Source.{Bytes}
use thagore.Lexer.Token.{Span, Token, TokenKind, join}
use thagore.Parser.Kinds.{kind_is}
use thagore.Parser.{
  Parser, ErrorKind, Expectation, peek, advance, at, current_span, expect, emit_unexpected,
  emit_missing, synchronize_statement, consume_lexer_error_at_cursor, token_is_contextual,
  parse_identifier_symbol, parse_name_symbol,
}
use thagore.Parser.Types.{alloc_node, parse_type_expr, synthetic_infer_type}
use thagore.Parser.Stmts.{
  take_or_miss, expect_block_colon, emit_here, enter_indented_section_for, close_section,
  consume_statement_terminator, parse_expression, parse_annotation, parse_let_decl, parse_block_for,
}
use thagore.Parser.Lists.{
  section_loop, followed, parse_param_list, parse_type_param_list, parse_import_path,
  parse_import_symbol_entry,
}

-- The lists of an intent: its constraints, its body and the span that it ends with.
pub record IntentLists : Type 0 where
  pub constraints : List Expr
  pub body : Option Block
  pub end : Span

-- The stages and the compensation of a flow, and the span that it ends with.
pub record FlowLists : Type 0 where
  pub stages : List FlowStage
  pub compensation : Option Block
  pub end : Span

module _ (source : Bytes) where
  -- Behind the name and the type parameters of a function.
  unfoldable pub parse_func_rest : Span → InternedStr → Parser → Option (FuncDecl × Parser)
  parse_func_rest start name p = do
    (params, p) ← parse_param_list source p
    (return_type, p) ← parse_annotation source TokenKind.arrow p
    (body, p) ← parse_block_for source Expectation.func_body (expect_block_colon p)
    some (
        alloc_node
          (λ i. record {
            id = i;
            span = join start (block_span body);
            name = name;
            params = params;
            return_type = return_type;
            body = body;
          })
          p)

  unfoldable pub parse_func_decl : Parser → Option (FuncDecl × Parser)
  parse_func_decl p = do
    (name, q) ← some (parse_identifier_symbol source Expectation.identifier (advance p))
    parse_func_rest (current_span p) name q

  abbrev pub func_with : List TypeParam → FuncDecl → Decl
  func_with [] f = Decl.func f
  func_with (t ∷ ts) f = Decl.generic_func (t ∷ ts) f

  unfoldable pub parse_func_like_decl : Parser → Option (Decl × Parser)
  parse_func_like_decl p = do
    (name, q) ← some (parse_identifier_symbol source Expectation.identifier (advance p))
    (type_params, q) ← parse_type_param_list source q
    (f, q) ← parse_func_rest (current_span p) name q
    some (func_with type_params f, q)

  -- The annotation of a constant, which has to be there.
  unfoldable pub parse_const_type : Parser → Option (TypeExpr × Parser)
  parse_const_type p = elim (at TokenKind.colon p) [
    | true ↦ parse_type_expr source (advance p)
    | false ↦ some (synthetic_infer_type (current_span p) (emit_missing TokenKind.colon p))
  ]

  unfoldable pub parse_const_decl : Parser → Option (ConstDecl × Parser)
  parse_const_decl p = do
    (name, q) ← some (parse_identifier_symbol source Expectation.identifier (advance p))
    (ty, q) ← parse_const_type q
    (value, q) ← parse_expression source (take_or_miss TokenKind.assign q)
    some (
        alloc_node
          (λ i. record {
            id = i;
            span = join (current_span p) (Ast.span value);
            name = name;
            type_ann = ty;
            value = value;
          })
          q)

  -- What stands behind the items of a section: the dedent, or where it was not entered the next token.
  abbrev pub leave_section : Bool → Span → Parser → Span × Parser
  leave_section true end p = close_section source end p
  leave_section false end p = (if at TokenKind.eof p then end else join end (current_span p), p)

  -- A section: its items, the span it ends with, and whether it was entered.
  unfoldable pub parse_section :
      {S : Type 0}
      → Expectation
      → (S → Parser → Option ((Bool × S) × Parser))
      → S
      → Parser
      → Option ((Bool × S) × Parser)
  parse_section expectation step s p =
      let (entered, q) = enter_indented_section_for expectation p in
      elim entered [
        | false ↦ some ((false, s), q)
        | true ↦ do (s, q) ← section_loop step (suc (length q.ahead)) s q; some ((true, s), q)
      ]

  abbrev new_field : Span → InternedStr → TypeExpr → NodeId → FieldDef
  new_field span name ty i = record { id = i; span = span; name = name; ty = ty }

  abbrev new_struct : Span → InternedStr → List FieldDef → NodeId → StructDecl
  new_struct span name fields i = record { id = i; span = span; name = name; fields = fields }

  abbrev new_impl : Span → InternedStr → List FuncDecl → NodeId → ImplBlock
  new_impl span target methods i = record {
    id = i;
    span = span;
    target = target;
    methods = methods;
  }

  unfoldable pub field_step :
      List FieldDef × Span → Parser → Option ((Bool × (List FieldDef × Span)) × Parser)
  field_step (fields, end) p = do
    (name, q) ← some (parse_identifier_symbol source Expectation.field p)
    (ty, q) ←
        parse_type_expr source
          (if at TokenKind.colon q then advance q else emit_here ErrorKind.missing_block_colon q)
    (field, q) ← some (alloc_node (new_field (join (current_span p) (type_span ty)) name ty) q)
    some ((false, (fields ++ field ∷ [], field.span)), consume_statement_terminator q)

  abbrev pub struct_with : List TypeParam → StructDecl → Decl
  struct_with [] s = Decl.struct s
  struct_with (t ∷ ts) s = Decl.generic_struct (t ∷ ts) s

  unfoldable pub parse_struct_like_decl : Parser → Option (Decl × Parser)
  parse_struct_like_decl p = do
    (name, q) ← some (parse_identifier_symbol source Expectation.identifier (advance p))
    (type_params, q) ← parse_type_param_list source q
    ((entered, (fields, end)), q) ←
        parse_section Expectation.struct_body field_step ([], current_span p) (expect_block_colon q)
    (end, q) ← some (leave_section entered end q)
    (s, q) ← some (alloc_node (new_struct (join (current_span p) end) name fields) q)
    some (struct_with type_params s, q)

  unfoldable pub method_step :
      List FuncDecl × Span → Parser → Option ((Bool × (List FuncDecl × Span)) × Parser)
  method_step (methods, end) p = elim (at TokenKind.kw_func p) [
    | false ↦
        some (
          (false, (methods, end)),
          synchronize_statement (emit_unexpected Expectation.declaration p),
        )
    | true ↦ do
      (method, q) ← parse_func_decl p
      some ((false, (methods ++ method ∷ [], method.span)), consume_statement_terminator q)
  ]

  abbrev pub impl_with : List TypeParam → ImplBlock → Decl
  impl_with [] b = Decl.impl_block b
  impl_with (t ∷ ts) b = Decl.generic_impl (t ∷ ts) b

  unfoldable pub parse_impl_like_decl : Parser → Option (Decl × Parser)
  parse_impl_like_decl p = do
    (target, q) ← some (parse_identifier_symbol source Expectation.identifier (advance p))
    (type_params, q) ← parse_type_param_list source q
    ((entered, (methods, end)), q) ←
        parse_section Expectation.impl_body method_step ([], current_span p) (expect_block_colon q)
    (end, q) ← some (leave_section entered end q)
    (b, q) ← some (alloc_node (new_impl (join (current_span p) end) target methods) q)
    some (impl_with type_params b, q)

  -- `include all`: whether it is there, and the span it sets the end to.
  abbrev pub expect_import_all : Parser → Parser
  expect_import_all p =
      if token_is_contextual source (peek p) (codes "all")
      then advance p
      else emit_unexpected Expectation.identifier p

  abbrev pub parse_include : Span → Parser → (Bool × Span) × Parser
  parse_include end p =
      if at TokenKind.kw_include p
      then ((true, current_span p), expect_import_all (advance p))
      else ((false, end), p)

  abbrev pub import_keyword : Span → Parser → Span × Parser
  import_keyword end p =
      (if at TokenKind.kw_import p then current_span p else end, (expect TokenKind.kw_import p).1)

  abbrev pub last_symbol : ImportSymbol → List ImportSymbol → ImportSymbol
  last_symbol s [] = s
  last_symbol s (t ∷ ts) = last_symbol t ts

  unfoldable pub parse_from_import : Parser → Option (ImportDecl × Parser)
  parse_from_import p = do
    ((level, segments), q) ← parse_import_path source (advance p)
    (end, q) ← some (import_keyword (current_span p) q)
    (symbol, q) ← some (parse_import_symbol_entry source q)
    (symbols, q) ←
        followed (parse_import_symbol_entry source) (suc (length q.ahead)) TokenKind.comma q
    ((include_all, end), q) ← some (parse_include end q)
    some (
        alloc_node
          (λ i. record {
            id = i;
            span = join (current_span p) (join end (last_symbol symbol symbols).span);
            relative_level = level;
            path_segments = segments;
            symbols = symbol ∷ symbols;
            is_from = true;
            include_all = include_all;
            alias = none;
          })
          q)

  abbrev pub import_alias : Parser → Option InternedStr × Parser
  import_alias p =
      if token_is_contextual source (peek p) (codes "as")
      then (let (name, q) = parse_name_symbol source Expectation.identifier (advance p) in
          (some name, q))
      else (none, p)

  unfoldable pub parse_plain_import : Parser → Option (ImportDecl × Parser)
  parse_plain_import p = do
    ((level, segments), q) ← parse_import_path source (advance p)
    (alias, q) ← some (import_alias q)
    ((include_all, end), q) ← some (parse_include (current_span p) q)
    some (
        alloc_node
          (λ i. record {
            id = i;
            span = join (current_span p) (join end (current_span q));
            relative_level = level;
            path_segments = segments;
            symbols = [];
            is_from = false;
            include_all = include_all;
            alias = alias;
          })
          q)

  unfoldable pub parse_extern_decl : Parser → Option (ExternDecl × Parser)
  parse_extern_decl p = do
    (name, q) ← some (
        parse_identifier_symbol source Expectation.identifier
          (take_or_miss TokenKind.kw_func (advance p)))
    (params, q) ← parse_param_list source q
    (return_type, q) ← parse_type_expr source (take_or_miss TokenKind.arrow q)
    some (
        alloc_node
          (λ i. record {
            id = i;
            span = join (current_span p) (type_span return_type);
            name = name;
            params = params;
            return_type = return_type;
          })
          q)

  abbrev intent_body : IntentLists → Block × Parser → (Bool × IntentLists) × Parser
  intent_body s (b, p) = ((true, record s { body = some b; end = block_span b }), p)

  abbrev intent_constraint : IntentLists → Expr × Parser → (Bool × IntentLists) × Parser
  intent_constraint s (e, p) = (
    (false, record s { constraints = s.constraints ++ e ∷ []; end = Ast.span e }),
    consume_statement_terminator p,
  )

  -- `minimize` or `maximize`, which are passed
  abbrev pub pass_goal : Parser → Parser
  pass_goal p =
      if token_is_contextual source (peek p) (codes "minimize")
        || token_is_contextual source (peek p) (codes "maximize")
      then advance p
      else p

  unfoldable pub intent_step : IntentLists → Parser → Option ((Bool × IntentLists) × Parser)
  intent_step s p = elim (token_is_contextual source (peek p) (codes "body")) [
    | true ↦ do
      b ← parse_block_for source Expectation.block (expect_block_colon (advance p))
      some (intent_body s b)
    | false ↦ do e ← parse_expression source (pass_goal p); some (intent_constraint s e)
  ]

  abbrev pub body_or_empty : Option Block → Parser → Block × Parser
  body_or_empty (some b) p = (b, p)
  body_or_empty none p = alloc_node (λ i. Block.block i (current_span p) Stmts.none) p

  unfoldable pub parse_intent_decl : Parser → Option (IntentDecl × Parser)
  parse_intent_decl p = do
    (name, q) ← some (parse_identifier_symbol source Expectation.identifier (advance p))
    ((entered, s), q) ←
        parse_section Expectation.intent_body intent_step
          (record { constraints = []; body = none; end = current_span p }) (expect_block_colon q)
    (end, q) ← some (leave_section entered s.end q)
    (body, q) ← some (body_or_empty s.body q)
    some (
        alloc_node
          (λ i. record {
            id = i;
            span = join (current_span p) end;
            name = name;
            constraints = s.constraints;
            body = body;
          })
          q)

  abbrev new_stage : Span → InternedStr → Block → NodeId → FlowStage
  new_stage span name body i = record { id = i; span = span; name = name; body = body }

  abbrev add_stage : FlowLists → FlowStage × Parser → (Bool × FlowLists) × Parser
  add_stage s (stage, p) =
      ((false, record s { stages = s.stages ++ stage ∷ []; end = stage.span }), p)

  abbrev compensate : FlowLists → Block × Parser → (Bool × FlowLists) × Parser
  compensate s (b, p) = ((false, record s { compensation = some b; end = block_span b }), p)

  unfoldable pub flow_step : FlowLists → Parser → Option ((Bool × FlowLists) × Parser)
  flow_step s p = elim (token_is_contextual source (peek p) (codes "stage")) [
    | true ↦ do
      (name, q) ← some (parse_identifier_symbol source Expectation.flow_stage (advance p))
      (body, q) ← parse_block_for source Expectation.block (expect_block_colon q)
      some (
          add_stage s
            (alloc_node (new_stage (join (current_span p) (block_span body)) name body) q))
    | false ↦ elim (token_is_contextual source (peek p) (codes "compensate")) [
      | true ↦ do
        b ← parse_block_for source Expectation.block (expect_block_colon (advance p))
        some (compensate s b)
      | false ↦ some ((false, s), synchronize_statement (emit_unexpected Expectation.flow_stage p))
    ]
  ]

  unfoldable pub parse_flow_decl : Parser → Option (FlowDecl × Parser)
  parse_flow_decl p = do
    (name, q) ← some (parse_identifier_symbol source Expectation.identifier (advance p))
    ((entered, s), q) ←
        parse_section Expectation.flow_body flow_step
          (record { stages = []; compensation = none; end = current_span p }) (expect_block_colon q)
    (end, q) ← some (leave_section entered s.end q)
    some (
        alloc_node
          (λ i. record {
            id = i;
            span = join (current_span p) end;
            name = name;
            stages = s.stages;
            compensation = s.compensation;
          })
          q)

  abbrev pub as_decl {ℓ} : {A : Type ℓ} → (A → Decl) → A × Parser → Option (Option Decl × Parser)
  as_decl wrap (d, p) = some (some (wrap d), p)

  -- The match of `parse_decl` on the kind of the token.
  unfoldable pub decl_of : TokenKind → Parser → Option (Option Decl × Parser)
  decl_of TokenKind.kw_func p = parse_func_like_decl p >>= as_decl (λ (d : Decl). d)
  decl_of TokenKind.kw_let p = parse_let_decl source p >>= as_decl Decl.let_decl
  decl_of TokenKind.kw_const p = parse_const_decl p >>= as_decl Decl.const_decl
  decl_of TokenKind.kw_struct p = parse_struct_like_decl p >>= as_decl (λ (d : Decl). d)
  decl_of TokenKind.kw_impl p = parse_impl_like_decl p >>= as_decl (λ (d : Decl). d)
  decl_of TokenKind.kw_import p = parse_plain_import p >>= as_decl Decl.import_decl
  decl_of TokenKind.kw_from p = parse_from_import p >>= as_decl Decl.import_decl
  decl_of TokenKind.kw_extern p = parse_extern_decl p >>= as_decl Decl.extern_decl
  decl_of TokenKind.kw_intent p = parse_intent_decl p >>= as_decl Decl.intent
  decl_of TokenKind.kw_flow p = parse_flow_decl p >>= as_decl Decl.flow
  decl_of kind p = some (none, emit_unexpected Expectation.declaration p)

  -- `match_contextual("pub")`
  abbrev pub pass_pub : Parser → Parser
  pass_pub p = if token_is_contextual source (peek p) (codes "pub") then advance p else p

  unfoldable pub parse_decl : Parser → Option (Option Decl × Parser)
  parse_decl p =
      let (was_error, q) = consume_lexer_error_at_cursor p in
      elim was_error [
        | true ↦ some (none, q)
        | false ↦ decl_of (peek (pass_pub p)).kind (pass_pub p)
      ]
