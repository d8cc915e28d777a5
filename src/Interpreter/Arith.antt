-- ===== src/Interpreter/Arith.antt =====
-- crates/interpreter/src/eval.rs: the operators on values. An integer of `width` bits stands for its two's complement.
use Prim.Native.Nat.{Ordering}
use Prim.Native.Nat as Nat
use Prim.Native.String.{String}
use Prim.Native.String as Str
use text.Mathlib.Text
use thagore.Base.{
  ℕ, suc, ◌+◌, ◌-◌, ◌*◌, ◌/◌, ◌%◌, ◌^◌, Bool, true, false, not, ◌&&◌, ◌||◌, Option, none, some, ltb,
  leb, ◌==◌, if◌then◌else◌,
}
use thagore.Ast.{BinOp}
use thagore.Interpreter.{Value, Values, Fields}
use thagore.Interpreter.Machine.{Result, Failure, RuntimeError, Host}

abbrev pub message : {A : Type 0} → Result A
message = Result.failed (Failure.error RuntimeError.message)

-- The least integer, and so the weight of the sign.
abbrev pub half : ℕ → ℕ
half width = 2 ^ (width - 1)

abbrev pub is_negative : ℕ → ℕ → Bool
is_negative width a = leb (half width) a

abbrev pub opposite : ℕ → ℕ → ℕ
opposite width a = (2 ^ width - a) % 2 ^ width

abbrev pub magnitude : ℕ → ℕ → ℕ
magnitude width a = if is_negative width a then 2 ^ width - a else a

abbrev pub differ : Bool → Bool → Bool
differ true b = not b
differ false b = b

abbrev pub signed : ℕ → Bool → ℕ → ℕ
signed width negative n = if negative then opposite width (n % 2 ^ width) else n % 2 ^ width

-- The place of an integer in their order.
abbrev pub rank : ℕ → ℕ → ℕ
rank width a = (a + half width) % 2 ^ width

-- `as_bool`
unfoldable pub as_bool : Value → Result Bool
as_bool (Value.bool b) = Result.ok b
as_bool _ = message

abbrev pub field_of : String → Fields → Option Value
field_of wanted Fields.no_fields = none
field_of wanted (Fields.field n v rest) =
    if Text.◌==◌ wanted n then some v else field_of wanted rest

abbrev pub count_fields : Fields → ℕ
count_fields Fields.no_fields = 0
count_fields (Fields.field n a rest) = suc (count_fields rest)

unfoldable mutual
  -- The derived `==` of `Value`
  pub value_eq : Host → Value → Value → Bool
  value_eq h (Value.i32 a) (Value.i32 b) = a == b
  value_eq h (Value.i64 a) (Value.i64 b) = a == b
  value_eq h (Value.f64 a) (Value.f64 b) = h.eq_f64 a b
  value_eq h (Value.bool a) (Value.bool b) = not (differ a b)
  value_eq h (Value.str a) (Value.str b) = Text.◌==◌ a b
  value_eq h Value.void Value.void = true
  value_eq h (Value.vec a) (Value.vec b) = values_eq h a b
  value_eq h (Value.struct n a) (Value.struct m b) =
      Text.◌==◌ n m && count_fields a == count_fields b && fields_in h a b
  value_eq h (Value.return a) (Value.return b) = value_eq h a b
  value_eq h Value.break Value.break = true
  value_eq h Value.continue Value.continue = true
  value_eq h (Value.module_name a) (Value.module_name b) = Text.◌==◌ a b
  value_eq h (Value.callable a) (Value.callable b) = Text.◌==◌ a b
  value_eq h _ _ = false

  pub values_eq : Host → Values → Values → Bool
  values_eq h Values.none Values.none = true
  values_eq h (Values.more a as_) (Values.more b bs) = value_eq h a b && values_eq h as_ bs
  values_eq h _ _ = false

  -- Every field of the first map is in the second one, with an equal value.
  pub fields_in : Host → Fields → Fields → Bool
  fields_in h Fields.no_fields b = true
  fields_in h (Fields.field n a rest) b =
      elim (field_of n b) [ some v ↦ value_eq h a v | none ↦ false ] && fields_in h rest b

module _ (host : Host) where
  -- The result, or the panic of an overflow where overflow is checked.
  abbrev pub checked : {A : Type 0} → Bool → A → Result A
  checked overflow a =
      if overflow && host.overflow_checks then Result.failed Failure.panic else Result.ok a

  abbrev pub add_int : ℕ → ℕ → ℕ → Result ℕ
  add_int width a b =
      let sum = (a + b) % 2 ^ width in
      checked
        (not (differ (is_negative width a) (is_negative width b))
          && differ (is_negative width a) (is_negative width sum))
        sum

  abbrev pub sub_int : ℕ → ℕ → ℕ → Result ℕ
  sub_int width a b =
      let difference = (a + opposite width b) % 2 ^ width in
      checked
        (differ (is_negative width a) (is_negative width b)
          && differ (is_negative width a) (is_negative width difference))
        difference

  abbrev pub mul_int : ℕ → ℕ → ℕ → Result ℕ
  mul_int width a b =
      let negative = differ (is_negative width a) (is_negative width b) in
      let product = magnitude width a * magnitude width b in
      checked (if negative then ltb (half width) product else leb (half width) product)
        ((a * b) % 2 ^ width)

  -- The least integer over -1 is a panic in every build.
  abbrev pub div_int : ℕ → ℕ → ℕ → Result ℕ
  div_int width a b =
      if b == 0
      then Result.failed (Failure.error RuntimeError.division_by_zero)
      else if a == half width && b == 2 ^ width - 1
      then Result.failed Failure.panic
      else Result.ok (
          signed width (differ (is_negative width a) (is_negative width b))
            (magnitude width a / magnitude width b))

  abbrev pub rem_int : ℕ → ℕ → ℕ → Result ℕ
  rem_int width a b =
      if b == 0
      then Result.failed (Failure.error RuntimeError.division_by_zero)
      else if a == half width && b == 2 ^ width - 1
      then Result.failed Failure.panic
      else Result.ok (signed width (is_negative width a) (magnitude width a % magnitude width b))

  abbrev pub wrap : (ℕ → Value) → Result ℕ → Result Value
  wrap kind (Result.ok n) = Result.ok (kind n)
  wrap kind (Result.failed e) = Result.failed e

  unfoldable pub eval_add : Value → Value → Result Value
  eval_add (Value.i32 a) (Value.i32 b) = wrap Value.i32 (add_int 32 a b)
  eval_add (Value.i64 a) (Value.i64 b) = wrap Value.i64 (add_int 64 a b)
  eval_add (Value.f64 a) (Value.f64 b) = Result.ok (Value.f64 (host.add_f64 a b))
  eval_add (Value.str a) (Value.str b) = Result.ok (Value.str (Str.◌++◌ a b))
  eval_add _ _ = message

  unfoldable pub eval_sub : Value → Value → Result Value
  eval_sub (Value.i32 a) (Value.i32 b) = wrap Value.i32 (sub_int 32 a b)
  eval_sub (Value.i64 a) (Value.i64 b) = wrap Value.i64 (sub_int 64 a b)
  eval_sub (Value.f64 a) (Value.f64 b) = Result.ok (Value.f64 (host.sub_f64 a b))
  eval_sub _ _ = message

  unfoldable pub eval_mul : Value → Value → Result Value
  eval_mul (Value.i32 a) (Value.i32 b) = wrap Value.i32 (mul_int 32 a b)
  eval_mul (Value.i64 a) (Value.i64 b) = wrap Value.i64 (mul_int 64 a b)
  eval_mul (Value.f64 a) (Value.f64 b) = Result.ok (Value.f64 (host.mul_f64 a b))
  eval_mul _ _ = message

  unfoldable pub eval_div : Value → Value → Result Value
  eval_div (Value.i32 a) (Value.i32 b) = wrap Value.i32 (div_int 32 a b)
  eval_div (Value.i64 a) (Value.i64 b) = wrap Value.i64 (div_int 64 a b)
  eval_div (Value.f64 a) (Value.f64 b) =
      if host.is_zero b
      then Result.failed (Failure.error RuntimeError.division_by_zero)
      else Result.ok (Value.f64 (host.div_f64 a b))
  eval_div _ _ = message

  unfoldable pub eval_rem : Value → Value → Result Value
  eval_rem (Value.i32 a) (Value.i32 b) = wrap Value.i32 (rem_int 32 a b)
  eval_rem (Value.i64 a) (Value.i64 b) = wrap Value.i64 (rem_int 64 a b)
  eval_rem (Value.f64 a) (Value.f64 b) = Result.ok (Value.f64 (host.rem_f64 a b))
  eval_rem _ _ = message

  abbrev pub cmp_f64 : ℕ → ℕ → Ordering
  cmp_f64 a b =
      if host.lt_f64 a b then Ordering.lt else if host.eq_f64 a b then Ordering.eq else Ordering.gt

  unfoldable pub eval_cmp : (Ordering → Bool) → Value → Value → Result Value
  eval_cmp test (Value.i32 a) (Value.i32 b) =
      Result.ok (Value.bool (test (Nat.compare (rank 32 a) (rank 32 b))))
  eval_cmp test (Value.i64 a) (Value.i64 b) =
      Result.ok (Value.bool (test (Nat.compare (rank 64 a) (rank 64 b))))
  eval_cmp test (Value.f64 a) (Value.f64 b) =
      if host.is_nan a || host.is_nan b
      then message
      else Result.ok (Value.bool (test (cmp_f64 a b)))
  eval_cmp test (Value.str a) (Value.str b) = Result.ok (Value.bool (test (Str.compare a b)))
  eval_cmp test _ _ = message

  abbrev pub neg_int : ℕ → ℕ → Result ℕ
  neg_int width a = checked (a == half width) (opposite width a)

  unfoldable pub negate : Value → Result Value
  negate (Value.i32 a) = wrap Value.i32 (neg_int 32 a)
  negate (Value.i64 a) = wrap Value.i64 (neg_int 64 a)
  negate (Value.f64 a) = Result.ok (Value.f64 (host.neg_f64 a))
  negate _ = message

  -- The match of `eval_binary` on two values.
  unfoldable pub operate : BinOp → Value → Value → Result Value
  operate BinOp.add l r = eval_add l r
  operate BinOp.sub l r = eval_sub l r
  operate BinOp.mul l r = eval_mul l r
  operate BinOp.div l r = eval_div l r
  operate BinOp.rem l r = eval_rem l r
  operate BinOp.eq l r = Result.ok (Value.bool (value_eq host l r))
  operate BinOp.not_eq l r = Result.ok (Value.bool (not (value_eq host l r)))
  operate BinOp.lt l r = eval_cmp Text.is_lt l r
  operate BinOp.lt_eq l r = eval_cmp Text.is_le l r
  operate BinOp.gt l r = eval_cmp (λ o. not (Text.is_le o)) l r
  operate BinOp.gt_eq l r = eval_cmp (λ o. not (Text.is_lt o)) l r
  operate BinOp.and l r = Result.failed Failure.panic
  operate BinOp.or l r = Result.failed Failure.panic
