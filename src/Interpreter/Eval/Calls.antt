-- ===== src/Interpreter/Eval/Calls.antt =====
-- The calls and expressions of crates/interpreter/src/eval.rs return, and leave the scopes and the depth of calls.
use Prim.Native.String.{String}
use thagore.Base.{
  ℕ, ◌+◌, ◌-◌, refl, List, ◌∷◌, Option, arith, Bool-cases, Option-cases, inl, inr, ltb,
}
use thagore.Base.Maps.{lookup}
use thagore.Ast.{Expr, Exprs, Literal, BinOp}
use thagore.Ast.Decls.{FuncDecl}
use thagore.Interpreter.{Value}
use thagore.Interpreter.Env.{get_by_id, assign_by_id, get-assign_by_id}
use thagore.Interpreter.Machine.{Interpreter, Result, Host, follow, lift, name, function_of}
use thagore.Interpreter.Eval.{
  Again, push, enter_call, call_func, eval_args, eval_call, eval_bool, eval_binary, assign_to,
  eval_node, eval_literal, eval_ident, element, index_of,
}
use thagore.Interpreter.Eval.Total.{
  After, After-refl, After-trans, After-fewer, Outcome, succeeds, fails, follow-Outcome,
  lift-Outcome, onward, Ready, Ready-After, Sound, Keeps, bind_params-After, pop-After, push-Ready,
  exec_block-Outcome,
}

-- A step deeper in the calls, and what is left behind it.
abbrev deeper : Interpreter → Interpreter
deeper p = record p { call_depth = p.call_depth + 1 }

deeper-Ready : {host : Host} {b : ℕ} {p : Interpreter} → Ready host b p → Ready host b (deeper p)
deeper-Ready r = record { scoped = r.scoped; below = r.below; left = r.left; within = r.within }

leave-After :
    {k : ℕ} {p q : Interpreter}
    → After k (deeper p) q
    → After k p (record q { call_depth = q.call_depth - 1 })
leave-After a =
    let d = a.depth in
    record {
      scopes = a.scopes;
      depth = omega arith;
      limit = a.limit;
      steps = a.steps;
      within = a.within;
    }

module _ (host : Host) where
  lifted : {A : Type 0} (r : Result A) (p : Interpreter) → Outcome (After 0 p) (lift r p)
  lifted r p = lift-Outcome r p (After-refl p)

  eval_literal-Outcome :
      (l : Literal) (p : Interpreter) → Outcome (After 0 p) (eval_literal host l p)
  unfolding eval_literal
  eval_literal-Outcome (Literal.int n) p = succeeds _ p refl (After-refl p)
  eval_literal-Outcome (Literal.float t) p = succeeds _ p refl (After-refl p)
  eval_literal-Outcome (Literal.bool b) p = succeeds _ p refl (After-refl p)
  eval_literal-Outcome (Literal.str s) p =
      follow-Outcome _ (lifted (name s p) p) (λ t q a. succeeds _ q refl a)

  eval_ident-Outcome : (id : ℕ) (p : Interpreter) → Outcome (After 0 p) (eval_ident host id p)
  unfolding eval_ident
  eval_ident-Outcome id p = elim (Option-cases (get_by_id id p.env)) [
    | inr (v, e) ↦ rw (e, eval_ident) (succeeds v p refl (After-refl p))
    | inl e ↦
        rw (e, eval_ident)
          (follow-Outcome _ (lifted (name id p) p) (λ t q a.
            elim (Option-cases (lookup id q.functions_by_id)) [
              | inr (f, e') ↦ rw e' (succeeds _ q refl a)
              | inl e' ↦ rw e' (lift-Outcome _ q a)
            ]))
  ]

  module _ (b : ℕ) (again : Again) (sound : Sound host b again) (keeps : Keeps host) where
    enter_call-Outcome :
        (func : FuncDecl) (args : List Value) (p : Interpreter)
        → Ready host b p
        → Outcome
            (After 0 p)
            (enter_call host again func args (record p { call_depth = p.call_depth + 1 }))
    unfolding enter_call
    enter_call-Outcome func args p r = elim (Bool-cases (ltb p.max_call_depth (p.call_depth + 1))) [
      | inl t ↦ rw (t, enter_call) (fails _ _ refl)
      | inr f ↦
          let bound = bind_params-After func.params args (push (deeper p)) in
          let ready = Ready-After (push-Ready (deeper-Ready r)) bound in
          rw (f, enter_call)
            (follow-Outcome _ (exec_block-Outcome host b again sound func.body _ ready)
              (λ v q a. succeeds _ _ refl (leave-After (pop-After r.scoped (After-trans bound a)))))
    ]

    pub call_func-Outcome :
        (text : String) (args : List Value) (p : Interpreter)
        → Ready host b p
        → Outcome (After 0 p) (call_func host again text args p)
    unfolding call_func
    call_func-Outcome text args p r = elim (Option-cases (host.handler text)) [
      | inr (h, e) ↦ rw (e, call_func) (keeps text h e args p)
      | inl e ↦ elim (Option-cases (function_of text p.functions)) [
        | inl e' ↦ rw (e, e', call_func) (fails _ p refl)
        | inr (func, e') ↦ rw (e, e', call_func) (enter_call-Outcome func args p r)
      ]
    ]

    eval_args-Outcome :
        (args : Exprs) (p : Interpreter)
        → Ready host b p
        → Outcome (After 0 p) (eval_args host again args p)
    unfolding eval_args
    eval_args-Outcome Exprs.none p r = succeeds _ p refl (After-refl p)
    eval_args-Outcome (Exprs.more arg rest) p r = follow-Outcome _ (sound.evals arg p r) (λ v q a.
        onward a (
          follow-Outcome _ (eval_args-Outcome rest q (Ready-After r a))
            (λ vs s c. succeeds (v ∷ vs) s refl c)))

    eval_call-Outcome :
        (c : Value) (args : Exprs) (p : Interpreter)
        → Ready host b p
        → Outcome (After 0 p) (eval_call host again c args p)
    unfolding eval_call
    eval_call-Outcome (Value.callable text) args p r =
        follow-Outcome _ (eval_args-Outcome args p r)
          (λ vs q a. onward a (call_func-Outcome text vs q (Ready-After r a)))
    eval_call-Outcome _ args p r = fails _ p refl

    pub eval_bool-Outcome :
        (e : Expr) (p : Interpreter)
        → Ready host b p
        → Outcome (After 1 p) (eval_bool host again e p)
    unfolding eval_bool
    eval_bool-Outcome e p r = follow-Outcome _ (sound.evals e p r) (λ v q a. lift-Outcome _ q a)

    -- A part, and an operation on its value.
    part :
        {B : Type 0} (e : Expr) (p : Interpreter)
        (f : Value → Interpreter → Option (Result B × Interpreter))
        → Ready host b p
        → ((v : Value) (q : Interpreter) → Ready host b q → Outcome (After 0 q) (f v q))
        → Outcome (After 0 p) (follow (again.eval_expr e p) f)
    part e p f r next =
        follow-Outcome f (sound.evals e p r) (λ v q a. onward a (next v q (Ready-After r a)))

    eval_binary-Outcome :
        (op : BinOp) (l m : Expr) (p : Interpreter)
        → Ready host b p
        → Outcome (After 0 p) (eval_binary host again op l m p)
    unfolding eval_binary
    eval_binary-Outcome BinOp.and l m p r = follow-Outcome _ (eval_bool-Outcome l p r) (λ c q a.
        elim (Bool-cases c) [
          | inl t ↦ rw t (
              onward a (
                follow-Outcome _ (eval_bool-Outcome m q (Ready-After r a))
                  (λ d s e. succeeds _ s refl e)))
          | inr f ↦ rw f (succeeds _ q refl (After-fewer (omega arith) a))
        ])
    eval_binary-Outcome BinOp.or l m p r = follow-Outcome _ (eval_bool-Outcome l p r) (λ c q a.
        elim (Bool-cases c) [
          | inr t ↦ rw t (
              onward a (
                follow-Outcome _ (eval_bool-Outcome m q (Ready-After r a))
                  (λ d s e. succeeds _ s refl e)))
          | inl f ↦ rw f (succeeds _ q refl (After-fewer (omega arith) a))
        ])
    eval_binary-Outcome _ l m p r = part l p _ r (λ v q t. part m q _ t (λ w s u. lifted _ s))

    assign_to-Outcome :
        (target : Expr) (v : Value) (p : Interpreter)
        → Outcome (After 0 p) (assign_to host again target v p)
    unfolding assign_to
    assign_to-Outcome (Expr.ident i s id) v p =
        let (same, value, kept) = get-assign_by_id id id v p.env in
        let q = record p { env = (assign_by_id id v p.env).1 } in
        let a : After 0 p q = record {
          scopes = kept;
          depth = refl;
          limit = refl;
          steps = omega arith;
          within = λ h. h;
        } in
        elim (Bool-cases (assign_by_id id v p.env).0) [
          | inl t ↦ rw t (succeeds v q refl a)
          | inr f ↦ rw f (
              follow-Outcome {R = After 0 p} _ (lift-Outcome (name id q) q a)
                (λ t u c. fails _ u refl))
        ]
    assign_to-Outcome _ v p = fails _ p refl

    pub eval_node-Outcome :
        (e : Expr) (p : Interpreter)
        → Ready host b p
        → Outcome (After 0 p) (eval_node host again e p)
    unfolding eval_node
    eval_node-Outcome (Expr.binary i s l op m) p r = eval_binary-Outcome op l m p r
    eval_node-Outcome (Expr.unary i s op e) p r = part e p _ r (λ v q t. lifted _ q)
    eval_node-Outcome (Expr.call i s c args) p r =
        part c p _ r (λ v q t. eval_call-Outcome v args q t)
    eval_node-Outcome (Expr.field_access i s o field) p r =
        part o p _ r
          (λ v q t. follow-Outcome _ (lifted (name field q) q) (λ text u a. lift-Outcome _ u a))
    eval_node-Outcome (Expr.index i s o place) p r = part o p _ r (λ v q t.
        part place q _ t (λ w u c.
          follow-Outcome {A = ℕ} (λ n x. lift (element v n) x) (lifted (index_of host w) u)
            (λ n x a. lift-Outcome _ x a)))
    eval_node-Outcome (Expr.ident i s id) p r = eval_ident-Outcome id p
    eval_node-Outcome (Expr.literal i s l) p r = eval_literal-Outcome l p
    eval_node-Outcome (Expr.assign i s target e) p r =
        part e p _ r (λ v q t. assign_to-Outcome target v q)
