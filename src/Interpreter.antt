-- ===== src/Interpreter.antt =====
-- crates/interpreter/src: the values (value.rs) and the environment (env.rs) of the interpreter.
pub mod Env
pub mod Machine
pub mod Arith
pub mod Names
pub mod Eval
pub mod Program
mod Tests
use Prim.Native.String.{String}
use thagore.Base.{ℕ, Bool}

-- `Value`; an `i32`, an `i64` and an `f64` stand for their bits.
mutual
  pub data Value : Type 0 where
    i32 i64 f64 : ℕ → Value
    bool : Bool → Value
    str : String → Value
    void : Value
    vec : Values → Value
    struct : String → Fields → Value
    return : Value → Value
    break continue : Value
    module_name : String → Value
    callable : String → Value

  -- `Vec<Value>`
  pub data Values : Type 0 where
    none : Values
    more : Value → Values → Values

  -- `HashMap<String, Value>`
  pub data Fields : Type 0 where
    no_fields : Fields
    field : String → Value → Fields → Fields
