-- ===== src/Interpreter/Eval/Total.antt =====
-- The evaluator (crates/interpreter/src/eval.rs) returns within the limit of steps, and leaves the scopes and the depth
-- of calls as it met them.
use Prim.Native.String.{String}
use thagore.Base.{
  ℕ, suc, ◌+◌, ◌-◌, ◌<◌, ◌≤◌, ◌≡◌, refl, ◌∙◌, List, [], ◌∷◌, Option, some, arith, length,
  Bool-cases, inl, inr,
}
use thagore.Ast.{Expr}
use thagore.Ast.Stmts.{Stmt, Stmts, Block}
use thagore.Ast.Decls.{Param}
use thagore.Interpreter.{Value}
use thagore.Interpreter.Env
use thagore.Interpreter.Env.{EnvStack, define_by_id, assign_by_id, get_by_id}
use thagore.Interpreter.Machine.{Interpreter, Result, Failure, Host, Run, follow, lift}
use thagore.Interpreter.Eval.{
  Again, push, pop, define, exec_stmts, exec_block, bind_params, is_control_flow,
}

-- What a run that succeeds leaves: the scopes and the depth of calls, and steps that go on by `k` at least.
pub record After (k : ℕ) (p q : Interpreter) : Type 0 where
  pub scopes : length q.env ≡ length p.env
  pub depth : q.call_depth ≡ p.call_depth
  pub limit : q.max_steps ≡ p.max_steps
  pub steps : p.step_count + k ≤ q.step_count
  pub within : p.step_count ≤ p.max_steps → q.step_count ≤ q.max_steps

pub After-refl : (p : Interpreter) → After 0 p p
After-refl p = record {
  scopes = refl;
  depth = refl;
  limit = refl;
  steps = omega arith;
  within = λ h. h;
}

pub After-trans : {j k : ℕ} {p q r : Interpreter} → After j p q → After k q r → After (j + k) p r
After-trans a b =
    let u = a.steps in
    let v = b.steps in
    record {
      scopes = b.scopes ∙ a.scopes;
      depth = b.depth ∙ a.depth;
      limit = b.limit ∙ a.limit;
      steps = omega arith;
      within = λ h. b.within (a.within h);
    }

pub After-fewer : {j k : ℕ} {p q : Interpreter} → j ≤ k → After k p q → After j p q
After-fewer le a =
    let u = a.steps in
    record {
      scopes = a.scopes;
      depth = a.depth;
      limit = a.limit;
      steps = omega arith;
      within = a.within;
    }

-- A run that returns: with a failure, or with a value and a state of which `R` holds.
pub data Outcome {A : Type 0} (R : Interpreter → Type 0) (o : Option (Result A × Interpreter))
    : Type 0 where
  succeeds : (a : A) (q : Interpreter) → o ≡ some (Result.ok a, q) → R q → Outcome R o
  fails : (e : Failure) (q : Interpreter) → o ≡ some (Result.failed e, q) → Outcome R o

pub follow-Outcome :
    {A B : Type 0} {R S : Interpreter → Type 0} {o : Option (Result A × Interpreter)}
    (f : A → Run B)
    → Outcome R o
    → ((a : A) (q : Interpreter) → R q → Outcome S (f a q))
    → Outcome S (follow o f)
follow-Outcome f (succeeds a q e r) next = rw e (next a q r)
follow-Outcome f (fails e q h) next = fails e q (rw h refl)

pub weaken :
    {A : Type 0} {R S : Interpreter → Type 0} {o : Option (Result A × Interpreter)}
    → ((q : Interpreter) → R q → S q)
    → Outcome R o
    → Outcome S o
weaken f (succeeds a q e r) = succeeds a q e (f q r)
weaken f (fails e q h) = fails e q h

pub lift-Outcome :
    {A : Type 0} {R : Interpreter → Type 0} (r : Result A) (p : Interpreter)
    → R p
    → Outcome R (lift r p)
lift-Outcome (Result.ok a) p h = succeeds a p refl h
lift-Outcome (Result.failed e) p h = fails e p refl

-- The rest of a run.
pub onward :
    {A : Type 0} {j k : ℕ} {p q : Interpreter} {o : Option (Result A × Interpreter)}
    → After j p q
    → Outcome (After k q) o
    → Outcome (After 0 p) o
onward a = weaken (λ r b. After-fewer (omega arith) (After-trans a b))

-- A state with at most `b` steps left.
pub record Ready (host : Host) (b : ℕ) (p : Interpreter) : Type 0 where
  pub scoped : 0 < length p.env
  pub below : p.max_steps < host.usize_max
  pub left : p.max_steps < p.step_count + b
  pub within : p.step_count ≤ p.max_steps

pub Ready-After :
    {host : Host} {b k : ℕ} {p q : Interpreter} → Ready host b p → After k p q → Ready host b q
Ready-After r a =
    let s = a.scopes in
    let l = a.limit in
    let t = a.steps in
    let u = r.scoped in
    let v = r.below in
    let w = r.left in
    record {
      scoped = omega arith;
      below = omega arith;
      left = omega arith;
      within = a.within r.within;
    }

-- What is asked of the calls with a step of fuel less, and of the functions of the standard library.
pub record Sound (host : Host) (b : ℕ) (again : Again) : Type 0 where
  pub evals :
      (e : Expr) (p : Interpreter) → Ready host b p → Outcome (After 1 p) (again.eval_expr e p)
  pub execs :
      (s : Stmt) (p : Interpreter) → Ready host b p → Outcome (After 1 p) (again.exec_stmt s p)

abbrev pub Keeps : Host → Type 0
Keeps host =
    (text : String) (h : List Value → Interpreter → Result Value × Interpreter)
    → host.handler text ≡ some h
    → (args : List Value) (p : Interpreter) → Outcome (After 0 p) (some (h args p))

length-define : (id : ℕ) (v : Value) (env : EnvStack) → length (define_by_id id v env) ≡ length env
unfolding define_by_id
length-define id v [] = refl
length-define id v (scope ∷ rest) = refl

pub define-After : (id : ℕ) (v : Value) (p : Interpreter) → After 0 p (define id v p)
define-After id v p = record {
  scopes = length-define id v p.env;
  depth = refl;
  limit = refl;
  steps = omega arith;
  within = λ h. h;
}

pub bind_params-After :
    (params : List Param) (args : List Value) (p : Interpreter)
    → After 0 p (bind_params params args p)
bind_params-After [] args p = After-refl p
bind_params-After (x ∷ params) [] p = After-refl p
bind_params-After (x ∷ params) (v ∷ args) p =
    After-trans (define-After x.name v p) (bind_params-After params args (define x.name v p))

length-pop : (env : EnvStack) (n : ℕ) → length env ≡ suc (suc n) → length (Env.pop env) ≡ suc n
unfolding Env.pop
length-pop [] n h = absurd (omega arith)
length-pop (s ∷ []) n h = absurd (omega arith)
length-pop (s ∷ t ∷ rest) n h = omega (arith, h)

pub pop-After :
    {k : ℕ} {p q : Interpreter} → 0 < length p.env → After k (push p) q → After k p (pop q)
pop-After {k} {p} {q} scoped a =
    let s = a.scopes in
    let e : length q.env ≡ suc (suc (length p.env - 1)) = omega arith in
    record {
      scopes = length-pop q.env (length p.env - 1) e ∙ omega arith;
      depth = a.depth;
      limit = a.limit;
      steps = a.steps;
      within = a.within;
    }

pub push-Ready : {host : Host} {b : ℕ} {p : Interpreter} → Ready host b p → Ready host b (push p)
push-Ready r = record { scoped = omega arith; below = r.below; left = r.left; within = r.within }

module _ (host : Host) (b : ℕ) (again : Again) (sound : Sound host b again) where
  pub exec_stmts-Outcome :
      (stmts : Stmts) (last : Value) (p : Interpreter)
      → Ready host b p
      → Outcome (After 0 p) (exec_stmts host again stmts last p)
  unfolding exec_stmts
  exec_stmts-Outcome Stmts.none last p r = succeeds last p refl (After-refl p)
  exec_stmts-Outcome (Stmts.more stmt rest) last p r =
      follow-Outcome _ (sound.execs stmt p r) (λ v q a. elim (Bool-cases (is_control_flow v)) [
        | inl t ↦ rw t (succeeds v q refl (After-fewer (omega arith) a))
        | inr f ↦ rw f (onward a (exec_stmts-Outcome rest v q (Ready-After r a)))
      ])

  pub exec_block-Outcome :
      (block : Block) (p : Interpreter)
      → Ready host b p
      → Outcome (After 0 p) (exec_block host again block p)
  unfolding exec_block
  exec_block-Outcome (Block.block i s stmts) p r =
      follow-Outcome _ (exec_stmts-Outcome stmts Value.void (push p) (push-Ready r))
        (λ v q a. succeeds v (pop q) refl (pop-After r.scoped a))
