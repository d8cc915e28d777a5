-- ===== src/Interpreter/Tests.antt =====
-- Runs of the environment.
use text.Mathlib.Text
use thagore.Base.{◌≡◌, refl, true, ◌&&◌, [], ◌∷◌, some, ◌==◌, if◌then◌else◌, length, arith}
use thagore.Interpreter.{Value}
use thagore.Interpreter.Env
use thagore.Interpreter.Env.{
  EnvStack, pop, push, define_by_id, assign_by_id, get_by_id, is_bound, assign, get-assign_by_id,
  get-assign, pop-assign_by_id,
}

-- Variable 1 in the root scope, variable 2 in a block.
abbrev nested : EnvStack
nested =
    record { interned = (2, Value.i32 5) ∷ []; named = [] }
    ∷ record { interned = (1, Value.i32 4) ∷ []; named = ("io", Value.module_name "io") ∷ [] }
    ∷ []

assigned_outer : (assign_by_id 1 (Value.bool true) nested).0 ≡ true
unfolding assign_by_id
assigned_outer = refl

get-assign_by_id_example :
    (let (assigned, after) = assign_by_id 1 (Value.bool true) nested in
      (assigned ≡ is_bound (get_by_id 1 nested))
      × (get_by_id 2 after
          ≡ (if assigned && 1 == 2 then some (Value.bool true) else get_by_id 2 nested))
      × (length after ≡ length nested))
get-assign_by_id_example = get-assign_by_id 1 2 (Value.bool true) nested

get-assign_example :
    (let (assigned, after) = assign "io" Value.void nested in
      (assigned ≡ is_bound (Env.get "io" nested))
      × (Env.get "fs" after
          ≡ (if assigned && Text.◌==◌ "io" "fs" then some Value.void else Env.get "fs" nested))
      × (length after ≡ length nested))
get-assign_example = get-assign "io" "fs" Value.void nested

pop-assign_by_id_example :
    (pop (assign_by_id 1 Value.void (define_by_id 3 (Value.i32 0) (push nested))).1
      ≡ (assign_by_id 1 Value.void nested).1)
    × (pop (define_by_id 3 (Value.i32 0) (push nested)) ≡ nested)
pop-assign_by_id_example = pop-assign_by_id 1 3 Value.void (Value.i32 0) nested (omega arith) refl
