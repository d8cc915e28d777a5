-- ===== src/Interpreter/Machine.antt =====
-- crates/interpreter/src/lib.rs: the state of the interpreter and its failures.
use Prim.Native.String.{String}
use text.Mathlib.Text
use thagore.Base.{
  ℕ, ◌+◌, ◌-◌, Bool, false, ◌||◌, List, [], ◌∷◌, Option, none, some, ltb, ◌==◌, if◌then◌else◌,
}
use thagore.Ast.{InternedStr}
use thagore.Ast.Decls.{FuncDecl}
use thagore.Interpreter.{Value}
use thagore.Interpreter.Env.{EnvStack}

-- `RuntimeError`; a message is given without its text.
pub data RuntimeError : Type 0 where
  stack_overflow output_too_large division_by_zero unsupported message : RuntimeError
  timeout : (steps : ℕ) → RuntimeError

-- How a run fails: with an error, or with a panic of an arithmetic operation.
pub data Failure : Type 0 where
  error : RuntimeError → Failure
  panic : Failure

pub data Result (A : Type 0) : Type 0 where
  ok : A → Result A
  failed : Failure → Result A

-- A map from names to functions.
abbrev pub function_of : String → List (String × FuncDecl) → Option FuncDecl
function_of name [] = none
function_of name ((key, func) ∷ rest) =
    if Text.◌==◌ name key then some func else function_of name rest

abbrev pub has_name : String → List String → Bool
has_name name [] = false
has_name name (other ∷ rest) = Text.◌==◌ name other || has_name name rest

-- `Interpreter`, without the registry of the standard library and the buffers of the standard streams.
pub record Interpreter : Type 0 where
  pub env : EnvStack
  pub functions : List (String × FuncDecl)
  pub functions_by_id : List (ℕ × FuncDecl)
  pub const_symbols : List String
  pub struct_names : List String
  pub symbols : List String
  pub call_depth : ℕ
  pub max_call_depth : ℕ
  pub step_count : ℕ
  pub max_steps : ℕ

-- `none` stands for a run that the fuel does not reach the end of.
abbrev pub Run : Type 0 → Type 0
Run A = Interpreter → Option (Result A × Interpreter)

-- The operator `?`.
abbrev pub follow :
    {A B : Type 0} → Option (Result A × Interpreter) → (A → Run B) → Option (Result B × Interpreter)
follow none f = none
follow (some (Result.ok a, p)) f = f a p
follow (some (Result.failed e, p)) f = some (Result.failed e, p)

abbrev pub succeed : {A : Type 0} → A → Run A
succeed a p = some (Result.ok a, p)

abbrev pub fail : {A : Type 0} → RuntimeError → Run A
fail e p = some (Result.failed (Failure.error e), p)

-- A result that leaves the state alone.
abbrev pub lift : {A : Type 0} → Result A → Run A
lift r p = some (r, p)

-- What is not modelled: the standard library, the arithmetic of `f64`, `usize::MAX`, and whether the program is built
-- with the checks of overflow.
pub record Host : Type 0 where
  pub handler : String → Option (List Value → Interpreter → Result Value × Interpreter)
  pub module_exports : String → Option (List String)
  pub resolve_module_symbol : String → String → Option String
  pub add_f64 : ℕ → ℕ → ℕ
  pub sub_f64 : ℕ → ℕ → ℕ
  pub mul_f64 : ℕ → ℕ → ℕ
  pub div_f64 : ℕ → ℕ → ℕ
  pub rem_f64 : ℕ → ℕ → ℕ
  pub eq_f64 : ℕ → ℕ → Bool
  pub lt_f64 : ℕ → ℕ → Bool
  pub is_nan : ℕ → Bool
  pub is_zero : ℕ → Bool
  pub neg_f64 : ℕ → ℕ
  pub parse_f64 : Option (List ℕ) → ℕ
  pub usize_max : ℕ
  pub overflow_checks : Bool

abbrev pub nth_name : ℕ → List String → Option String
nth_name n [] = none
nth_name n (name ∷ names) = if n == 0 then some name else nth_name (n - 1) names

-- `SymbolTable::resolve` and `name`
unfoldable pub name : InternedStr → Interpreter → Result String
name symbol p = elim (nth_name symbol p.symbols) [
  | some text ↦ Result.ok text
  | none ↦ Result.failed (Failure.error RuntimeError.message)
]

module _ (host : Host) where
  -- `saturating_add`
  abbrev pub next_step : ℕ → ℕ
  next_step steps = if ltb steps host.usize_max then steps + 1 else host.usize_max

  abbrev pub count_step : Interpreter → Interpreter
  count_step p = record p { step_count = next_step p.step_count }

  unfoldable pub tick : Run Unit
  tick p =
      let q = count_step p in
      if ltb q.max_steps q.step_count
      then fail (RuntimeError.timeout q.step_count) q
      else succeed tt q
