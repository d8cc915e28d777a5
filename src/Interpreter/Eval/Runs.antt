-- ===== src/Interpreter/Eval/Runs.antt =====
-- The statements of crates/interpreter/src/eval.rs return within the limit of steps.
use thagore.Base.{
  ℕ, zero, suc, ◌+◌, ◌<◌, ◌≤◌, ◌≡◌, refl, Option, none, some, arith, Bool-cases, Option-cases, inl,
  inr, ltb,
}
use thagore.Ast.{Expr, InternedStr}
use thagore.Ast.Stmts.{Stmt, Block, Blocks}
use thagore.Interpreter.{Value, Values}
use thagore.Interpreter.Machine.{
  Interpreter, Result, Failure, RuntimeError, Host, follow, tick, next_step, count_step,
}
use thagore.Interpreter.Eval.{
  Again, push, pop, define, exec_block, exec_while, exec_for, for_each, exec_else, exec_return,
  exec_node, again_at, loop_end,
}
use thagore.Interpreter.Eval.Total.{
  After, After-refl, After-trans, After-fewer, Outcome, succeeds, fails, follow-Outcome, onward,
  Ready, Ready-After, Sound, Keeps, define-After, pop-After, push-Ready, exec_block-Outcome, weaken,
}
use thagore.Interpreter.Eval.Calls.{eval_bool-Outcome, eval_node-Outcome}

module _ (host : Host) (keeps : Keeps host) where
  module _ (b : ℕ) (again : Again) (sound : Sound host b again) where
    body-Outcome :
        (block : Block) (p : Interpreter)
        → Ready host b p
        → Outcome (After 0 p) (exec_block host again block p)
    body-Outcome = exec_block-Outcome host b again sound

    exec_while-Outcome :
        (count : ℕ) (condition : Expr) (body : Block) (p : Interpreter)
        → Ready host b p
        → p.max_steps < p.step_count + count
        → Outcome (After 0 p) (exec_while host again count condition body p)
    unfolding exec_while
    exec_while-Outcome zero condition body p r few = absurd (omega (arith, r.within))
    exec_while-Outcome (suc count) condition body p r few =
        follow-Outcome _ (eval_bool-Outcome host b again sound keeps condition p r) (λ c q a.
          elim (Bool-cases c) [
            | inr f ↦ rw f (succeeds _ q refl (After-fewer (omega arith) a))
            | inl t ↦ rw t (
                onward {k = 0} a (
                  follow-Outcome _ (body-Outcome body q (Ready-After r a)) (λ v s d.
                    elim (Option-cases (loop_end v)) [
                      | inr (w, e) ↦ rw e (succeeds w s refl d)
                      | inl e ↦
                          let u = a.steps in
                          let w = d.steps in
                          let x = a.limit in
                          let y = d.limit in
                          rw e (
                            onward {k = 0} d (
                              exec_while-Outcome count condition body s
                                (Ready-After (Ready-After r a) d) (omega arith)))
                    ])))
          ])

    exec_for-Outcome :
        (id : InternedStr) (body : Block) (values : Values) (p : Interpreter)
        → Ready host b p
        → Outcome (After 0 p) (exec_for host again id body values p)
    unfolding exec_for
    exec_for-Outcome id body Values.none p r = succeeds _ p refl (After-refl p)
    exec_for-Outcome id body (Values.more v rest) p r =
        let bound = define-After id v (push p) in
        follow-Outcome _
          (body-Outcome body (define id v (push p)) (Ready-After (push-Ready r) bound))
          (λ w q a.
            let popped = pop-After r.scoped (After-trans bound a) in
            elim (Option-cases (loop_end w)) [
              | inr (x, e) ↦ rw e (succeeds x (pop q) refl popped)
              | inl e ↦ rw e (
                  onward {k = 0} popped
                    (exec_for-Outcome id body rest (pop q) (Ready-After r popped)))
            ])

    for_each-Outcome :
        (id : InternedStr) (body : Block) (v : Value) (p : Interpreter)
        → Ready host b p
        → Outcome (After 0 p) (for_each host again id body v p)
    unfolding for_each
    for_each-Outcome id body (Value.vec values) p r = exec_for-Outcome id body values p r
    for_each-Outcome id body _ p r = fails _ p refl

    exec_else-Outcome :
        (other : Blocks) (p : Interpreter)
        → Ready host b p
        → Outcome (After 0 p) (exec_else host again other p)
    unfolding exec_else
    exec_else-Outcome Blocks.no_block p r = succeeds _ p refl (After-refl p)
    exec_else-Outcome (Blocks.one body) p r = body-Outcome body p r

    exec_return-Outcome :
        (value : Option Expr) (p : Interpreter)
        → Ready host b p
        → Outcome (After 0 p) (exec_return host again value p)
    unfolding exec_return
    exec_return-Outcome none p r = succeeds _ p refl (After-refl p)
    exec_return-Outcome (some e) p r =
        follow-Outcome _ (sound.evals e p r)
          (λ v q a. succeeds _ q refl (After-fewer (omega arith) a))

    exec_node-Outcome :
        (s : Stmt) (p : Interpreter)
        → Ready host b p
        → Outcome (After 0 p) (exec_node host again s p)
    unfolding exec_node
    exec_node-Outcome (Stmt.let_decl d) p r =
        follow-Outcome _ (sound.evals d.initializer p r) (λ v q a.
          succeeds _ _ refl (After-fewer (omega arith) (After-trans a (define-After d.name v q))))
    exec_node-Outcome (Stmt.expr i s e) p r =
        weaken (λ q a. After-fewer (omega arith) a) (sound.evals e p r)
    exec_node-Outcome (Stmt.return_stmt i s value) p r = exec_return-Outcome value p r
    exec_node-Outcome (Stmt.if_stmt i s condition body other) p r =
        follow-Outcome _ (eval_bool-Outcome host b again sound keeps condition p r) (λ c q a.
          elim (Bool-cases c) [
            | inl t ↦ rw t (onward {k = 0} a (body-Outcome body q (Ready-After r a)))
            | inr f ↦ rw f (onward {k = 0} a (exec_else-Outcome other q (Ready-After r a)))
          ])
    exec_node-Outcome (Stmt.while_stmt i s condition body) p r =
        exec_while-Outcome _ condition body p r (omega arith)
    exec_node-Outcome (Stmt.for_stmt i s id iterator body) p r =
        follow-Outcome _ (sound.evals iterator p r)
          (λ v q a. onward a (for_each-Outcome id body v q (Ready-After r a)))
    exec_node-Outcome (Stmt.break_stmt i s) p r = succeeds _ p refl (After-refl p)
    exec_node-Outcome (Stmt.continue_stmt i s) p r = succeeds _ p refl (After-refl p)

  -- A step, and the rest of a run with a step of fuel less.
  tick-Outcome :
      {A : Type 0} (b : ℕ) (p : Interpreter) (f : Interpreter → Option (Result A × Interpreter))
      → Ready host (suc b) p
      → ((q : Interpreter) → Ready host b q → Outcome (After 0 q) (f q))
      → Outcome (After 1 p) (follow (tick host p) (λ u q. f q))
  unfolding tick
  tick-Outcome b p f r next =
      let below = r.below in
      let within = r.within in
      let left = r.left in
      let one : next_step host p.step_count ≡ p.step_count + 1 = ground arith in
      elim (Bool-cases (ltb p.max_steps (next_step host p.step_count))) [
        | inl t ↦
            fails (Failure.error (RuntimeError.timeout (next_step host p.step_count)))
              (count_step host p) (rw (t, tick) refl)
        | inr fits ↦
            let q = count_step host p in
            let le : next_step host p.step_count ≤ p.max_steps = ground arith in
            let a : After 1 p q = record {
              scopes = refl;
              depth = refl;
              limit = refl;
              steps = omega arith;
              within = λ h. omega arith;
            } in
            let ready : Ready host b q = record {
              scoped = r.scoped;
              below = below;
              left = omega arith;
              within = omega arith;
            } in
            rw (fits, tick) (weaken (λ s c. After-trans a c) (next q ready))
      ]

  pub again_at-Sound : (fuel : ℕ) → Sound host fuel (again_at host fuel)
  unfolding again_at
  again_at-Sound zero = record {
    evals = λ e p r. absurd (omega (arith, r.left, r.within));
    execs = λ s p r. absurd (omega (arith, r.left, r.within));
  }
  again_at-Sound (suc fuel) =
      let sound = again_at-Sound fuel in
      record {
        evals = λ e p r.
            tick-Outcome fuel p _ r
              (λ q t. eval_node-Outcome host fuel (again_at host fuel) sound keeps e q t);
        execs = λ s p r.
            tick-Outcome fuel p _ r
              (λ q t. exec_node-Outcome fuel (again_at host fuel) sound s q t);
      }
