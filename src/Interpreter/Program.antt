-- ===== src/Interpreter/Program.antt =====
-- crates/interpreter/src: `collect_declarations` of eval.rs and `run` of lib.rs.
pub mod Total
mod Tests
use Prim.Native.String.{String}
use Prim.Native.String as Str
use thagore.Base.{
  ℕ, zero, suc, Bool, true, false, List, [], ◌∷◌, ◌++◌, Option, none, some, ltb, if◌then◌else◌,
}
use thagore.Base.Maps.{insert}
use thagore.Ast.{Expr, InternedStr}
use thagore.Ast.Decls.{Decl, ConstDecl, FuncDecl, ImportDecl, ImportSymbol, StructDecl}
use thagore.Interpreter.{Value}
use thagore.Interpreter.Env
use thagore.Interpreter.Env.{EnvStack}
use thagore.Interpreter.Machine.{
  Interpreter, Result, Failure, RuntimeError, Host, Run, follow, succeed, fail, lift, name,
  has_name, function_of,
}
use thagore.Interpreter.Eval.{again_at, call_func, define}
use thagore.Interpreter.Names.{last_segment}
use text.Mathlib.Text

-- `functions.insert`
abbrev pub set_function : String → FuncDecl → List (String × FuncDecl) → List (String × FuncDecl)
set_function text func [] = (text, func) ∷ []
set_function text func ((key, old) ∷ rest) =
    if Text.◌==◌ text key then (key, func) ∷ rest else (key, old) ∷ set_function text func rest

unfoldable pub is_const_expr : Expr → Run Bool
is_const_expr (Expr.literal i s l) p = succeed true p
is_const_expr (Expr.ident i s id) p =
    follow (lift (name id p) p) (λ text q. succeed (has_name text q.const_symbols) q)
is_const_expr (Expr.unary i s op e) p = is_const_expr e p
is_const_expr (Expr.binary i s l op r) p =
    follow (is_const_expr l p) (λ b q. if b then is_const_expr r q else succeed false q)
is_const_expr _ p = succeed false p

unfoldable pub names_of : List InternedStr → Run (List String)
names_of [] p = succeed [] p
names_of (id ∷ ids) p =
    follow (lift (name id p) p)
      (λ text q. follow (names_of ids q) (λ texts r. succeed (text ∷ texts) r))

-- `join(".")`
unfoldable pub joined : List String → String
joined [] = ""
joined (text ∷ []) = text
joined (text ∷ other ∷ texts) = Str.◌++◌ text (Str.◌++◌ "." (joined (other ∷ texts)))

abbrev pub define_name : String → Value → Interpreter → Interpreter
define_name text v p = record p { env = Env.define text v p.env }

abbrev pub alias_or : String → Option InternedStr → Run String
alias_or text none p = succeed text p
alias_or text (some id) p = lift (name id p) p

module _ (host : Host) where
  abbrev pub bind_export : String → String → String → Interpreter → Interpreter
  bind_export module_key export local p = elim (host.resolve_module_symbol module_key export) [
    | some handler ↦ define_name local (Value.callable handler) p
    | none ↦ p
  ]

  unfoldable pub import_symbols : String → List ImportSymbol → Run Value
  import_symbols module_key [] p = succeed Value.void p
  import_symbols module_key (symbol ∷ symbols) p = follow (lift (name symbol.name p) p) (λ export q.
      follow (alias_or export symbol.alias q)
        (λ local r. import_symbols module_key symbols (bind_export module_key export local r)))

  unfoldable pub import_exports : String → List String → Interpreter → Interpreter
  import_exports module_key [] p = p
  import_exports module_key (export ∷ exports) p =
      import_exports module_key exports (bind_export module_key export export p)

  -- The three forms of an import.
  unfoldable pub import_from : ImportDecl → String → List String → Run Value
  import_from d module_path exports p =
      let key = last_segment module_path in
      if d.is_from
      then import_symbols key d.symbols p
      else if d.include_all
      then succeed Value.void (import_exports key exports p)
      else follow (alias_or key d.alias p)
          (λ local q. succeed Value.void (define_name local (Value.module_name module_path) q))

  unfoldable pub register_import : ImportDecl → Run Value
  register_import d p =
      if ltb 0 d.relative_level
      then fail RuntimeError.unsupported p
      else follow (names_of d.path_segments p) (λ segments q.
        elim (host.module_exports (last_segment (joined segments))) [
          | none ↦ fail RuntimeError.unsupported q
          | some exports ↦ import_from d (joined segments) exports q
        ])

  abbrev pub add_const : ConstDecl → String → Value → Interpreter → Interpreter
  add_const d text v p = define d.name v (record p { const_symbols = text ∷ p.const_symbols })

  unfoldable pub collect_const : ℕ → ConstDecl → Run Value
  collect_const fuel d p = follow (is_const_expr d.value p) (λ is_const q.
      if is_const
      then follow (lift (name d.name q) q) (λ text r.
        follow ((again_at host fuel).eval_expr d.value r)
          (λ v t. succeed Value.void (add_const d text v t)))
      else fail RuntimeError.message q)

  abbrev pub add_function : FuncDecl → String → Interpreter → Interpreter
  add_function func text p = record p {
    functions_by_id = insert func.name func p.functions_by_id;
    functions = set_function text func p.functions;
  }

  -- A round of `collect_declarations`
  unfoldable pub collect : ℕ → Decl → Run Value
  collect fuel (Decl.func func) p =
      follow (lift (name func.name p) p) (λ text q. succeed Value.void (add_function func text q))
  collect fuel (Decl.import_decl d) p = register_import d p
  collect fuel (Decl.const_decl d) p = collect_const fuel d p
  collect fuel (Decl.struct d) p =
      follow (lift (name d.name p) p)
        (λ text q. succeed Value.void (record q { struct_names = q.struct_names ++ text ∷ [] }))
  collect fuel (Decl.extern_decl d) p = succeed Value.void p
  collect fuel _ p = fail RuntimeError.unsupported p

  unfoldable pub collect_declarations : ℕ → List Decl → Run Value
  collect_declarations fuel [] p = succeed Value.void p
  collect_declarations fuel (d ∷ decls) p =
      follow (collect fuel d p) (λ v q. collect_declarations fuel decls q)

  abbrev pub reset_program_state : Interpreter → Interpreter
  reset_program_state p = record p {
    env = Env.new;
    functions = [];
    functions_by_id = [];
    const_symbols = [];
    struct_names = [];
    call_depth = 0;
    step_count = 0;
  }

  abbrev pub bind_builtin : String → Interpreter → Interpreter
  bind_builtin text p = define_name text (Value.callable text) p

  unfoldable pub install_default_bindings : Interpreter → Interpreter
  install_default_bindings p = bind_builtin "flush" (
      bind_builtin "eprintln"
        (bind_builtin "eprint" (bind_builtin "println" (bind_builtin "print" p))))

  -- `run`, with a step of fuel for each step that the limit allows, and one more
  unfoldable pub run : List Decl → Run Value
  run decls p =
      let fuel = suc p.max_steps in
      follow (collect_declarations fuel decls (install_default_bindings (reset_program_state p)))
        (λ v q. elim (function_of "main" q.functions) [
          | some func ↦ call_func host (again_at host fuel) "main" [] q
          | none ↦ succeed Value.void q
        ])
