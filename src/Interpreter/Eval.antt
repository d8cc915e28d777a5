-- ===== src/Interpreter/Eval.antt =====
-- crates/interpreter/src/eval.rs: the evaluation of expressions and statements. A part of an expression or a statement
-- is evaluated by `again`, which has a step of fuel less.
pub mod Total
pub mod Calls
pub mod Runs
use Prim.Native.String.{String}
use text.Mathlib.Text
use thagore.Base.{
  ℕ, zero, suc, ◌+◌, ◌-◌, ◌^◌, Bool, true, false, not, ◌||◌, List, [], ◌∷◌, Option, none, some, ltb,
  leb, ◌==◌, if◌then◌else◌,
}
use thagore.Base.Maps.{lookup}
use thagore.Ast.{Expr, Exprs, Literal, BinOp, UnaryOp, InternedStr}
use thagore.Ast.Stmts.{Stmt, Stmts, Block, Blocks}
use thagore.Ast.Decls.{FuncDecl, Param}
use thagore.Interpreter.{Value, Values, Fields}
use thagore.Interpreter.Env
use thagore.Interpreter.Env.{EnvStack, get_by_id, define_by_id, assign_by_id, is_bound}
use thagore.Interpreter.Machine.{
  Interpreter, Result, Failure, RuntimeError, Host, Run, follow, succeed, fail, lift, name, tick,
  function_of,
}
use thagore.Interpreter.Arith.{field_of, as_bool, negate, operate, half, is_negative}
use thagore.Interpreter.Names.{unescape, last_segment, nth_char}

-- `eval_expr` and `exec_stmt`
pub record Again : Type 0 where
  pub eval_expr : Expr → Run Value
  pub exec_stmt : Stmt → Run Value

abbrev pub push : Interpreter → Interpreter
push p = record p { env = Env.push p.env }

abbrev pub pop : Interpreter → Interpreter
pop p = record p { env = Env.pop p.env }

abbrev pub define : InternedStr → Value → Interpreter → Interpreter
define id value p = record p { env = define_by_id id value p.env }

abbrev pub is_control_flow : Value → Bool
is_control_flow (Value.return v) = true
is_control_flow Value.break = true
is_control_flow Value.continue = true
is_control_flow _ = false

-- What a loop gives when its body gave a value, or `none` where it goes on.
abbrev pub loop_end : Value → Option Value
loop_end Value.break = some Value.void
loop_end (Value.return v) = some (Value.return v)
loop_end _ = none

abbrev pub returned : Value → Value
returned (Value.return v) = v
returned v = v

abbrev pub bind_params : List Param → List Value → Interpreter → Interpreter
bind_params (param ∷ params) (arg ∷ args) p = bind_params params args (define param.name arg p)
bind_params _ _ p = p

abbrev pub nth_value : ℕ → Values → Option Value
nth_value n Values.none = none
nth_value n (Values.more v rest) = if n == 0 then some v else nth_value (n - 1) rest

abbrev pub found : Option Value → Result Value
found (some v) = Result.ok v
found none = Result.failed (Failure.error RuntimeError.message)

-- `usize::try_from`
unfoldable pub index_of : Host → Value → Result ℕ
index_of host (Value.i32 n) =
    if is_negative 32 n then Result.failed (Failure.error RuntimeError.message) else Result.ok n
index_of host (Value.i64 n) =
    if is_negative 64 n || ltb host.usize_max n
    then Result.failed (Failure.error RuntimeError.message)
    else Result.ok n
index_of host _ = Result.failed (Failure.error RuntimeError.message)

unfoldable pub element : Value → ℕ → Result Value
element (Value.vec values) n = found (nth_value n values)
element (Value.str text) n = Result.ok (Value.str (nth_char n text))
element _ n = Result.failed (Failure.error RuntimeError.message)

-- An `i64` literal is an `i32` where it fits.
abbrev pub int_value : ℕ → Value
int_value n =
    if ltb n (half 32)
    then Value.i32 n
    else if leb (2 ^ 64 - half 32) n
    then Value.i32 (n - (2 ^ 64 - 2 ^ 32))
    else Value.i64 n

module _ (host : Host) where
  unfoldable pub eval_literal : Literal → Run Value
  eval_literal (Literal.int n) p = succeed (int_value n) p
  eval_literal (Literal.float text) p = succeed (Value.f64 (host.parse_f64 text)) p
  eval_literal (Literal.bool b) p = succeed (Value.bool b) p
  eval_literal (Literal.str symbol) p =
      follow (lift (name symbol p) p) (λ text q. succeed (Value.str (unescape text)) q)

  -- The slow path of `eval_ident`.
  abbrev pub named_value : String → Interpreter → Result Value
  named_value text p = elim (Env.get text p.env) [
    | some v ↦ Result.ok v
    | none ↦ elim (host.handler text) [
      | some h ↦ Result.ok (Value.callable text)
      | none ↦ Result.failed (Failure.error RuntimeError.message)
    ]
  ]

  unfoldable pub eval_ident : InternedStr → Run Value
  eval_ident id p = elim (get_by_id id p.env) [
    | some v ↦ succeed v p
    | none ↦ follow (lift (name id p) p) (λ text q. elim (lookup id q.functions_by_id) [
      | some func ↦ succeed (Value.callable text) q
      | none ↦ lift (named_value text q) q
    ])
  ]

  unfoldable pub access : Value → String → Result Value
  access (Value.module_name module_path) text =
      elim (host.resolve_module_symbol (last_segment module_path) text) [
        | some export ↦ Result.ok (Value.callable export)
        | none ↦ Result.failed (Failure.error RuntimeError.message)
      ]
  access (Value.struct n fields) text = found (field_of text fields)
  access _ text = Result.failed (Failure.error RuntimeError.message)

  unfoldable pub unary_of : UnaryOp → Value → Result Value
  unary_of UnaryOp.plus v = Result.ok v
  unary_of UnaryOp.neg v = negate host v
  unary_of UnaryOp.not v = elim (as_bool v) [
    | Result.ok b ↦ Result.ok (Value.bool (not b))
    | Result.failed e ↦ Result.failed e
  ]

  module _ (again : Again) where
    -- The loop of `exec_block`, with the last value.
    unfoldable pub exec_stmts : Stmts → Value → Run Value
    exec_stmts Stmts.none last p = succeed last p
    exec_stmts (Stmts.more stmt rest) last p =
        follow (again.exec_stmt stmt p)
          (λ v q. if is_control_flow v then succeed v q else exec_stmts rest v q)

    unfoldable pub exec_block : Block → Run Value
    exec_block (Block.block i s statements) p =
        follow (exec_stmts statements Value.void (push p)) (λ v q. succeed v (pop q))

    -- The call of a function of the program, with the depth counted.
    unfoldable pub enter_call : FuncDecl → List Value → Run Value
    enter_call func args p =
        if ltb p.max_call_depth p.call_depth
        then fail RuntimeError.stack_overflow (record p { call_depth = p.call_depth - 1 })
        else follow (exec_block func.body (bind_params func.params args (push p)))
            (λ v q. succeed (returned v) (record (pop q) { call_depth = q.call_depth - 1 }))

    unfoldable pub call_func : String → List Value → Run Value
    call_func text args p = elim (host.handler text) [
      | some h ↦ some (h args p)
      | none ↦ elim (function_of text p.functions) [
        | none ↦ fail RuntimeError.message p
        | some func ↦ enter_call func args (record p { call_depth = p.call_depth + 1 })
      ]
    ]

    unfoldable pub eval_args : Exprs → Run (List Value)
    eval_args Exprs.none p = succeed [] p
    eval_args (Exprs.more arg rest) p =
        follow (again.eval_expr arg p)
          (λ v q. follow (eval_args rest q) (λ vs r. succeed (v ∷ vs) r))

    unfoldable pub eval_call : Value → Exprs → Run Value
    eval_call (Value.callable text) args p =
        follow (eval_args args p) (λ values q. call_func text values q)
    eval_call _ args p = fail RuntimeError.message p

    unfoldable pub eval_bool : Expr → Run Bool
    eval_bool e p = follow (again.eval_expr e p) (λ v q. lift (as_bool v) q)

    unfoldable pub eval_binary : BinOp → Expr → Expr → Run Value
    eval_binary BinOp.and l r p = follow (eval_bool l p) (λ b q.
        if b
        then follow (eval_bool r q) (λ c s. succeed (Value.bool c) s)
        else succeed (Value.bool false) q)
    eval_binary BinOp.or l r p = follow (eval_bool l p) (λ b q.
        if b
        then succeed (Value.bool true) q
        else follow (eval_bool r q) (λ c s. succeed (Value.bool c) s))
    eval_binary op l r p =
        follow (again.eval_expr l p)
          (λ a q. follow (again.eval_expr r q) (λ b s. lift (operate host op a b) s))

    -- `eval_assign`, with the value
    unfoldable pub assign_to : Expr → Value → Run Value
    assign_to (Expr.ident i s id) v p =
        let (assigned, env) = assign_by_id id v p.env in
        let q = record p { env = env } in
        if assigned
        then succeed v q
        else follow (lift (name id q) q) (λ text r. fail RuntimeError.message r)
    assign_to _ v p = fail RuntimeError.unsupported p

    -- `eval_expr` behind its tick
    unfoldable pub eval_node : Expr → Run Value
    eval_node (Expr.binary i s l op r) p = eval_binary op l r p
    eval_node (Expr.unary i s op e) p = follow (again.eval_expr e p) (λ v q. lift (unary_of op v) q)
    eval_node (Expr.call i s callee args) p =
        follow (again.eval_expr callee p) (λ c q. eval_call c args q)
    eval_node (Expr.field_access i s object field) p =
        follow (again.eval_expr object p)
          (λ v q. follow (lift (name field q) q) (λ text r. lift (access v text) r))
    eval_node (Expr.index i s object place) p = follow (again.eval_expr object p) (λ v q.
        follow (again.eval_expr place q)
          (λ w r. follow (lift (index_of host w) r) (λ n t. lift (element v n) t)))
    eval_node (Expr.ident i s id) p = eval_ident id p
    eval_node (Expr.literal i s literal) p = eval_literal literal p
    eval_node (Expr.assign i s target value) p =
        follow (again.eval_expr value p) (λ v q. assign_to target v q)

    -- The loop of `exec_while`, at most `count` rounds.
    unfoldable pub exec_while : ℕ → Expr → Block → Run Value
    exec_while zero condition body p = none
    exec_while (suc count) condition body p = follow (eval_bool condition p) (λ b q.
        if b
        then follow (exec_block body q) (λ v r. elim (loop_end v) [
          | some result ↦ succeed result r
          | none ↦ exec_while count condition body r
        ])
        else succeed Value.void q)

    unfoldable pub exec_for : InternedStr → Block → Values → Run Value
    exec_for id body Values.none p = succeed Value.void p
    exec_for id body (Values.more v rest) p =
        follow (exec_block body (define id v (push p))) (λ w q. elim (loop_end w) [
          | some result ↦ succeed result (pop q)
          | none ↦ exec_for id body rest (pop q)
        ])

    unfoldable pub for_each : InternedStr → Block → Value → Run Value
    for_each id body (Value.vec values) p = exec_for id body values p
    for_each id body _ p = fail RuntimeError.message p

    unfoldable pub exec_else : Blocks → Run Value
    exec_else Blocks.no_block p = succeed Value.void p
    exec_else (Blocks.one body) p = exec_block body p

    unfoldable pub exec_return : Option Expr → Run Value
    exec_return none p = succeed (Value.return Value.void) p
    exec_return (some e) p = follow (again.eval_expr e p) (λ v q. succeed (Value.return v) q)

    -- `exec_stmt` behind its tick; a loop has a round for each step that is left, and one more.
    unfoldable pub exec_node : Stmt → Run Value
    exec_node (Stmt.let_decl d) p =
        follow (again.eval_expr d.initializer p) (λ v q. succeed Value.void (define d.name v q))
    exec_node (Stmt.expr i s e) p = again.eval_expr e p
    exec_node (Stmt.return_stmt i s value) p = exec_return value p
    exec_node (Stmt.if_stmt i s condition body other) p =
        follow (eval_bool condition p) (λ b q. if b then exec_block body q else exec_else other q)
    exec_node (Stmt.while_stmt i s condition body) p =
        exec_while (suc (p.max_steps - p.step_count)) condition body p
    exec_node (Stmt.for_stmt i s id iterator body) p =
        follow (again.eval_expr iterator p) (λ v q. for_each id body v q)
    exec_node (Stmt.break_stmt i s) p = succeed Value.break p
    exec_node (Stmt.continue_stmt i s) p = succeed Value.continue p

  unfoldable pub again_at : ℕ → Again
  again_at zero = record { eval_expr = λ e p. none; exec_stmt = λ s p. none }
  again_at (suc fuel) = record {
    eval_expr = λ e p. follow (tick host p) (λ u q. eval_node (again_at fuel) e q);
    exec_stmt = λ s p. follow (tick host p) (λ u q. exec_node (again_at fuel) s q);
  }
