-- ===== src/Interpreter/Program/Total.antt =====
-- `run` (crates/interpreter/src/lib.rs) returns on every program.
use Prim.Native.String.{String}
use thagore.Base.{
  ℕ, suc, ◌<◌, ◌≤◌, ◌≡◌, refl, List, [], ◌∷◌, Option, none, some, arith, length, Bool-cases,
  Option-cases, inl, inr, ltb,
}
use thagore.Ast.{Expr, InternedStr}
use thagore.Ast.Decls.{Decl, ConstDecl, ImportDecl, ImportSymbol}
use thagore.Interpreter.{Value}
use thagore.Interpreter.Env
use thagore.Interpreter.Env.{EnvStack}
use thagore.Interpreter.Machine.{Interpreter, Result, Host, lift, name, function_of}
use thagore.Interpreter.Names.{last_segment}
use thagore.Interpreter.Eval.{again_at}
use thagore.Interpreter.Eval.Total.{
  After, After-refl, After-trans, Outcome, succeeds, fails, follow-Outcome, lift-Outcome, onward,
  Ready, Ready-After, Keeps, define-After, weaken,
}
use thagore.Interpreter.Eval.Calls.{call_func-Outcome}
use thagore.Interpreter.Eval.Runs.{again_at-Sound}
use thagore.Interpreter.Program.{
  is_const_expr, names_of, joined, define_name, alias_or, bind_export, import_symbols,
  import_exports, import_from, register_import, collect_const, collect, collect_declarations,
  reset_program_state, install_default_bindings, run,
}

-- Where a run ends: in the root scope, out of every call, and within the limit of steps.
pub record Settled (p q : Interpreter) : Type 0 where
  pub at_root : length q.env ≡ 1
  pub out_of_calls : q.call_depth ≡ 0
  pub limited : q.step_count ≤ p.max_steps

length-define :
    (text : String) (v : Value) (env : EnvStack) → length (Env.define text v env) ≡ length env
unfolding Env.define
length-define text v [] = refl
length-define text v (scope ∷ rest) = refl

define_name-After : (text : String) (v : Value) (p : Interpreter) → After 0 p (define_name text v p)
define_name-After text v p = record {
  scopes = length-define text v p.env;
  depth = refl;
  limit = refl;
  steps = omega arith;
  within = λ h. h;
}

named : {A : Type 0} (r : Result A) (p : Interpreter) → Outcome (After 0 p) (lift r p)
named r p = lift-Outcome r p (After-refl p)

is_const_expr-Outcome : (e : Expr) (p : Interpreter) → Outcome (After 0 p) (is_const_expr e p)
unfolding is_const_expr
is_const_expr-Outcome (Expr.literal i s l) p = succeeds _ p refl (After-refl p)
is_const_expr-Outcome (Expr.ident i s id) p =
    follow-Outcome _ (named (name id p) p) (λ t q a. succeeds _ q refl a)
is_const_expr-Outcome (Expr.unary i s op e) p = is_const_expr-Outcome e p
is_const_expr-Outcome (Expr.binary i s l op r) p =
    follow-Outcome _ (is_const_expr-Outcome l p) (λ c q a. elim (Bool-cases c) [
      | inl t ↦ rw t (onward {k = 0} a (is_const_expr-Outcome r q))
      | inr f ↦ rw f (succeeds _ q refl a)
    ])
is_const_expr-Outcome _ p = succeeds _ p refl (After-refl p)

names_of-Outcome : (ids : List InternedStr) (p : Interpreter) → Outcome (After 0 p) (names_of ids p)
unfolding names_of
names_of-Outcome [] p = succeeds _ p refl (After-refl p)
names_of-Outcome (id ∷ ids) p =
    follow-Outcome _ (named (name id p) p) (λ t q a.
      onward a (follow-Outcome _ (names_of-Outcome ids q) (λ ts r c. succeeds _ r refl c)))

alias_or-Outcome :
    (text : String) (o : Option InternedStr) (p : Interpreter)
    → Outcome (After 0 p) (alias_or text o p)
alias_or-Outcome text none p = succeeds _ p refl (After-refl p)
alias_or-Outcome text (some id) p = named (name id p) p

module _ (host : Host) where
  bind_export-After :
      (key export local : String) (p : Interpreter)
      → After 0 p (bind_export host key export local p)
  bind_export-After key export local p =
      elim (Option-cases (host.resolve_module_symbol key export)) [
        | inl e ↦ rw (e, bind_export) (After-refl p)
        | inr (h, e) ↦ rw (e, bind_export) (define_name-After local (Value.callable h) p)
      ]

  import_symbols-Outcome :
      (key : String) (symbols : List ImportSymbol) (p : Interpreter)
      → Outcome (After 0 p) (import_symbols host key symbols p)
  unfolding import_symbols
  import_symbols-Outcome key [] p = succeeds _ p refl (After-refl p)
  import_symbols-Outcome key (symbol ∷ symbols) p =
      follow-Outcome _ (named (name symbol.name p) p) (λ export q a. onward a (
        follow-Outcome _ (alias_or-Outcome export symbol.alias q) (λ local r c.
          onward (After-trans c (bind_export-After key export local r))
            (import_symbols-Outcome key symbols (bind_export host key export local r)))))

  import_exports-After :
      (key : String) (exports : List String) (p : Interpreter)
      → After 0 p (import_exports host key exports p)
  unfolding import_exports
  import_exports-After key [] p = After-refl p
  import_exports-After key (export ∷ exports) p =
      After-trans (bind_export-After key export export p)
        (import_exports-After key exports (bind_export host key export export p))

  import_from-Outcome :
      (d : ImportDecl) (path : String) (exports : List String) (p : Interpreter)
      → Outcome (After 0 p) (import_from host d path exports p)
  unfolding import_from
  import_from-Outcome d path exports p = elim (Bool-cases d.is_from) [
    | inl t ↦ rw (t, import_from) (import_symbols-Outcome (last_segment path) d.symbols p)
    | inr f ↦ elim (Bool-cases d.include_all) [
      | inl t ↦
          rw (f, t, import_from)
            (succeeds _ _ refl (import_exports-After (last_segment path) exports p))
      | inr f' ↦
          rw (f, f', import_from)
            (follow-Outcome _ (alias_or-Outcome (last_segment path) d.alias p) (λ local q a.
              succeeds _ _ refl
                (After-trans a (define_name-After local (Value.module_name path) q))))
    ]
  ]

  register_import-Outcome :
      (d : ImportDecl) (p : Interpreter) → Outcome (After 0 p) (register_import host d p)
  unfolding register_import
  register_import-Outcome d p = elim (Bool-cases (ltb 0 d.relative_level)) [
    | inl t ↦ rw (t, register_import) (fails _ p refl)
    | inr f ↦
        rw (f, register_import)
          (follow-Outcome _ (names_of-Outcome d.path_segments p) (λ segments q a.
            elim (Option-cases (host.module_exports (last_segment (joined segments)))) [
              | inl e ↦ rw e (fails _ q refl)
              | inr (exports, e) ↦
                  rw e (onward {k = 0} a (import_from-Outcome d (joined segments) exports q))
            ]))
  ]

  module _ (fuel : ℕ) (keeps : Keeps host) where
    collect_const-Outcome :
        (d : ConstDecl) (p : Interpreter)
        → Ready host fuel p
        → Outcome (After 0 p) (collect_const host fuel d p)
    unfolding collect_const
    collect_const-Outcome d p r = follow-Outcome _ (is_const_expr-Outcome d.value p) (λ c q a.
        elim (Bool-cases c) [
          | inr f ↦ rw f (fails _ q refl)
          | inl t ↦ rw t (
              onward {k = 0} a (
                follow-Outcome _ (named (name d.name q) q) (λ text s a'. onward {k = 0} a' (
                  follow-Outcome _
                    ((again_at-Sound host keeps fuel).evals d.value s
                      (Ready-After (Ready-After r a) a'))
                    (λ v u c'.
                      let x = define-After d.name v u in
                      let y = After-trans c' x in
                      succeeds _ _ refl (record {
                        scopes = y.scopes;
                        depth = y.depth;
                        limit = y.limit;
                        steps = omega (arith, y.steps);
                        within = y.within;
                      }))))))
        ])

    collect-Outcome :
        (d : Decl) (p : Interpreter)
        → Ready host fuel p
        → Outcome (After 0 p) (collect host fuel d p)
    unfolding collect
    collect-Outcome (Decl.func func) p r = follow-Outcome _ (named (name func.name p) p) (λ t q a.
        succeeds _ _ refl (record {
          scopes = a.scopes;
          depth = a.depth;
          limit = a.limit;
          steps = a.steps;
          within = a.within;
        }))
    collect-Outcome (Decl.import_decl d) p r = register_import-Outcome d p
    collect-Outcome (Decl.const_decl d) p r = collect_const-Outcome d p r
    collect-Outcome (Decl.struct d) p r = follow-Outcome _ (named (name d.name p) p) (λ t q a.
        succeeds _ _ refl (record {
          scopes = a.scopes;
          depth = a.depth;
          limit = a.limit;
          steps = a.steps;
          within = a.within;
        }))
    collect-Outcome (Decl.extern_decl d) p r = succeeds _ p refl (After-refl p)
    collect-Outcome _ p r = fails _ p refl

    collect_declarations-Outcome :
        (decls : List Decl) (p : Interpreter)
        → Ready host fuel p
        → Outcome (After 0 p) (collect_declarations host fuel decls p)
    unfolding collect_declarations
    collect_declarations-Outcome [] p r = succeeds _ p refl (After-refl p)
    collect_declarations-Outcome (d ∷ decls) p r =
        follow-Outcome _ (collect-Outcome d p r)
          (λ v q a. onward a (collect_declarations-Outcome decls q (Ready-After r a)))

  -- The state in which a program starts.
  abbrev pub started : Interpreter → Interpreter
  started p = install_default_bindings host (reset_program_state host p)

  named_again :
      (text : String) {p q : Interpreter}
      → After 0 p q
      → After 0 p (define_name text (Value.callable text) q)
  named_again text {p} {q} a = After-trans a (define_name-After text (Value.callable text) q)

  started-After : (p : Interpreter) → After 0 (reset_program_state host p) (started p)
  unfolding install_default_bindings
  started-After p = named_again "flush" (
      named_again "eprintln" (
        named_again "eprint"
          (named_again "println" (named_again "print" (After-refl (reset_program_state host p))))))

  settled : {p q : Interpreter} → After 0 (started p) q → Settled p q
  settled {p} {q} a =
      let b = After-trans (started-After p) a in
      let limit = b.limit in
      let within : q.step_count ≤ q.max_steps = b.within (omega arith) in
      record { at_root = b.scopes; out_of_calls = b.depth; limited = omega arith }

  -- Where the limit of steps is below `usize::MAX` and no function of the standard library touches the scopes, the
  -- depth of calls or the steps, `run` returns on every program. Where it succeeds, it ends in the root scope and out
  -- of every call, within the limit of steps.
  pub run-Settled :
      Keeps host
      → (decls : List Decl) (p : Interpreter) → p.max_steps < host.usize_max
      → Outcome (Settled p) (run host decls p)
  unfolding run
  run-Settled keeps decls p below =
      let start = started-After p in
      let fresh : Ready host (suc p.max_steps) (reset_program_state host p) = record {
        scoped = omega arith;
        below = below;
        left = omega arith;
        within = omega arith;
      } in
      let ready = Ready-After fresh start in
      follow-Outcome _
        (collect_declarations-Outcome (suc p.max_steps) keeps decls (started p) ready)
        (λ v q a. elim (Option-cases (function_of "main" q.functions)) [
          | inl e ↦ rw e (succeeds _ q refl (settled a))
          | inr (func, e) ↦ rw e (
              weaken (λ r c. settled (After-trans a c))
                (call_func-Outcome host (suc p.max_steps) (again_at host (suc p.max_steps))
                  (again_at-Sound host keeps (suc p.max_steps)) keeps "main" [] q
                  (Ready-After ready a)))
        ])
