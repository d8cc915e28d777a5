-- ===== src/Interpreter/Program/Tests.antt =====
-- Runs of programs (crates/interpreter/src).
use Prim.Native.String.{String}
use text.Mathlib.Text
use thagore.Base.{
  ℕ, ◌≡◌, refl, true, false, List, [], ◌∷◌, Option, none, some, arith, Bool-cases, inl, inr, ap,
  sym, ◌>>=◌,
}
use thagore.Ast.{Expr, Exprs, Literal}
use thagore.Ast.Stmts.{Stmt, Stmts, Block}
use thagore.Ast.Types.{TypeExpr}
use thagore.Ast.Decls.{Decl}
use thagore.Lexer.Token.{Span}
use thagore.Interpreter.{Value}
use thagore.Interpreter.Env
use thagore.Interpreter.Env.{define_by_id, get_by_id}
use thagore.Interpreter.Machine.{Interpreter, Result, Host, name, tick}
use thagore.Interpreter.Arith.{as_bool}
use thagore.Interpreter.Eval.{
  exec_stmts, exec_block, enter_call, call_func, eval_args, eval_call, eval_bool, eval_node,
  eval_ident, eval_literal, exec_while, exec_return, exec_node, again_at,
}
use thagore.Interpreter.Eval.Total.{Outcome, succeeds, After, After-refl}
use thagore.Interpreter.Program.{
  collect_const, is_const_expr, collect, collect_declarations, install_default_bindings, run,
}
use thagore.Interpreter.Program.Total.{Settled, run-Settled}

abbrev here : Span
here = record { start = 0; end = 0 }

-- A standard library of one function, which gives what it is called with.
abbrev first_or_void : List Value → Value
first_or_void [] = Value.void
first_or_void (v ∷ vs) = v

abbrev handler_of : String → Option (List Value → Interpreter → Result Value × Interpreter)
handler_of text = elim (Text.◌==◌ text "print") [
  | true ↦ some (λ args p. (Result.ok (first_or_void args), p))
  | false ↦ none
]

abbrev host : Host
host = record {
  handler = handler_of;
  module_exports = λ text. none;
  resolve_module_symbol = λ text export. none;
  add_f64 = λ a b. 0;
  sub_f64 = λ a b. 0;
  mul_f64 = λ a b. 0;
  div_f64 = λ a b. 0;
  rem_f64 = λ a b. 0;
  eq_f64 = λ a b. true;
  lt_f64 = λ a b. false;
  is_nan = λ a. false;
  is_zero = λ a. true;
  neg_f64 = λ a. 0;
  parse_f64 = λ text. 0;
  usize_max = 4294967295;
  overflow_checks = false;
}

abbrev interpreter : Interpreter
interpreter = record {
  env = Env.new;
  functions = [];
  functions_by_id = [];
  const_symbols = [];
  struct_names = [];
  symbols = "main" ∷ "f" ∷ "x" ∷ [];
  call_depth = 0;
  max_call_depth = 1000;
  step_count = 0;
  max_steps = 100;
}

abbrev ident : ℕ → Expr
ident id = Expr.ident 0 here id

abbrev function : ℕ → Stmts → Decl
function id body = Decl.func (record {
  id = 0;
  span = here;
  name = id;
  params = [];
  return_type = none;
  body = Block.block 0 here body;
})

abbrev call_f : Expr
call_f = Expr.call 0 here (ident 1) Exprs.none

abbrev returns : Expr → Stmt
returns e = Stmt.return_stmt 0 here (some e)

abbrev number : ℕ → Expr
number n = Expr.literal 0 here (Literal.int n)

-- `f` breaks outside of a loop, which the type checker refuses, and `main` calls it in one.
abbrev breaking : List Decl
breaking =
    function 1 (Stmts.more (Stmt.break_stmt 0 here) Stmts.none)
    ∷ function 0 (
        Stmts.more
          (Stmt.while_stmt 0 here (Expr.literal 0 here (Literal.bool true))
            (Block.block 0 here (Stmts.more (Stmt.expr 0 here call_f) Stmts.none)))
          (Stmts.more (returns (number 7)) Stmts.none))
    ∷ []

-- `f` gives the constant `x`, and `main` calls it where a variable `x` hides the constant.
abbrev borrowing : List Decl
borrowing =
    Decl.const_decl
      (record { id = 0; span = here; name = 2; type_ann = TypeExpr.infer 0 here; value = number 1 })
    ∷ function 1 (Stmts.more (returns (ident 2)) Stmts.none)
    ∷ function 0 (
        Stmts.more
          (Stmt.let_decl
            (record { id = 0; span = here; name = 2; ty = none; initializer = number 5 }))
          (Stmts.more (returns call_f) Stmts.none))
    ∷ []

abbrev value_of : Option (Result Value × Interpreter) → Option (Result Value)
value_of none = none
value_of (some (v, p)) = some v

run-breaking : value_of (run host breaking interpreter) ≡ some (Result.ok (Value.i32 7))
unfolding run collect_declarations collect collect_const is_const_expr name install_default_bindings
    call_func enter_call exec_block exec_stmts again_at tick exec_node eval_node eval_literal
    eval_ident eval_call eval_args exec_return exec_while eval_bool as_bool define_by_id get_by_id
    Env.define Env.pop Env.get
run-breaking = refl

run-borrowing : value_of (run host borrowing interpreter) ≡ some (Result.ok (Value.i32 5))
unfolding run collect_declarations collect collect_const is_const_expr name install_default_bindings
    call_func enter_call exec_block exec_stmts again_at tick exec_node eval_node eval_literal
    eval_ident eval_call eval_args exec_return exec_while eval_bool as_bool define_by_id get_by_id
    Env.define Env.pop Env.get
run-borrowing = refl

handler_of-Keeps :
    (text : String) (h : List Value → Interpreter → Result Value × Interpreter)
    → handler_of text ≡ some h
    → (args : List Value) (p : Interpreter) → Outcome (After 0 p) (some (h args p))
handler_of-Keeps text h e args p = elim (Bool-cases (Text.◌==◌ text "print")) [
  | inr f ↦ absurd (let none_is_some = rw (f, handler_of) at e in cc)
  | inl t ↦
      let same = ap (λ o. o >>= (λ g. some (g args p))) (rw (t, handler_of) at e) in
      succeeds (first_or_void args) p (sym same) (After-refl p)
]

run-Settled_example : Outcome (Settled interpreter) (run host breaking interpreter)
run-Settled_example = run-Settled host handler_of-Keeps breaking interpreter (omega arith)
