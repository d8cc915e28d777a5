-- ===== src/Typeck/Arena.antt =====
-- crates/typeck/src/types.rs: `TypeArena`, which gives equal types one identifier.
pub mod Kinds
pub mod Interning
use Prim.Native.Nat.{min}
use thagore.Base.{
  ℕ, zero, suc, ◌+◌, Bool, true, false, ◌&&◌, List, [], ◌∷◌, ◌++◌, Option, none, some, ◌==◌, as_u32,
  u32_limit, ◌-◌, if◌then◌else◌, length, get_elem?,
}

-- `TypeId(u32)`, and the `InternedStr(u32)` of crates/ast
abbrev pub TypeId : Type 0
TypeId = ℕ

abbrev pub InternedStr : Type 0
InternedStr = ℕ

pub record StructField : Type 0 where
  pub name : InternedStr
  pub ty : TypeId

pub record StructType : Type 0 where
  pub name : InternedStr
  pub fields : List StructField

pub record FunctionType : Type 0 where
  pub params : List TypeId
  pub return_type : TypeId

pub data TypeKind : Type 0 where
  unit unknown i32 i64 f64 bool str : TypeKind
  struct : StructType → TypeKind
  array : TypeId → TypeKind
  function : FunctionType → TypeKind
  infer : ℕ → TypeKind
  int_infer : ℕ → TypeKind

-- The derived equality of `TypeKind`.
abbrev pub ids_eq : List TypeId → List TypeId → Bool
ids_eq [] [] = true
ids_eq (x ∷ xs) (y ∷ ys) = x == y && ids_eq xs ys
ids_eq _ _ = false

abbrev pub fields_eq : List StructField → List StructField → Bool
fields_eq [] [] = true
fields_eq (f ∷ fs) (g ∷ gs) = f.name == g.name && f.ty == g.ty && fields_eq fs gs
fields_eq _ _ = false

unfoldable pub kind_eq : TypeKind → TypeKind → Bool
kind_eq TypeKind.unit TypeKind.unit = true
kind_eq TypeKind.unknown TypeKind.unknown = true
kind_eq TypeKind.i32 TypeKind.i32 = true
kind_eq TypeKind.i64 TypeKind.i64 = true
kind_eq TypeKind.f64 TypeKind.f64 = true
kind_eq TypeKind.bool TypeKind.bool = true
kind_eq TypeKind.str TypeKind.str = true
kind_eq (TypeKind.struct s) (TypeKind.struct t) = s.name == t.name && fields_eq s.fields t.fields
kind_eq (TypeKind.array a) (TypeKind.array b) = a == b
kind_eq (TypeKind.function f) (TypeKind.function g) =
    ids_eq f.params g.params && f.return_type == g.return_type
kind_eq (TypeKind.infer n) (TypeKind.infer m) = n == m
kind_eq (TypeKind.int_infer n) (TypeKind.int_infer m) = n == m
kind_eq _ _ = false

-- The identifiers of the built-in types are their places in `kinds`.
pub record TypeArena : Type 0 where
  pub kinds : List TypeKind
  pub unit_id : TypeId
  pub unknown_id : TypeId
  pub i32_id : TypeId
  pub i64_id : TypeId
  pub f64_id : TypeId
  pub bool_id : TypeId
  pub str_id : TypeId
  pub next_infer : ℕ

abbrev pub new : TypeArena
new = record {
  kinds =
      TypeKind.unit ∷ TypeKind.unknown ∷ TypeKind.i32 ∷ TypeKind.i64 ∷ TypeKind.f64 ∷ TypeKind.bool
      ∷ TypeKind.str ∷ [];
  unit_id = 0;
  unknown_id = 1;
  i32_id = 2;
  i64_id = 3;
  f64_id = 4;
  bool_id = 5;
  str_id = 6;
  next_infer = 0;
}

abbrev pub clear : TypeArena → TypeArena
clear arena = new

-- `none` where the source panics.
abbrev pub kind : TypeId → TypeArena → Option TypeKind
kind id arena = get_elem? arena.kinds id

abbrev pub push : TypeKind → TypeArena → TypeId × TypeArena
push k arena = (as_u32 (length arena.kinds), record arena { kinds = arena.kinds ++ k ∷ [] })

-- The first place, from `i` on, of an element that passes.
abbrev pub position : (TypeKind → Bool) → ℕ → List TypeKind → Option ℕ
position test i [] = none
position test i (k ∷ kinds) = if test k then some i else position test (i + 1) kinds

unfoldable pub intern : TypeKind → TypeArena → TypeId × TypeArena
intern k arena = elim (position (λ existing. kind_eq existing k) 0 arena.kinds) [
  | none ↦ push k arena
  | some index ↦ (as_u32 index, arena)
]

abbrev pub intern_array : TypeId → TypeArena → TypeId × TypeArena
intern_array element arena = intern (TypeKind.array element) arena

abbrev pub intern_function : List TypeId → TypeId → TypeArena → TypeId × TypeArena
intern_function params return_type arena =
    intern (TypeKind.function (record { params = params; return_type = return_type })) arena

abbrev pub is_struct_named : InternedStr → TypeKind → Bool
is_struct_named name (TypeKind.struct s) = s.name == name
is_struct_named name _ = false

unfoldable pub reserve_struct : InternedStr → TypeArena → TypeId × TypeArena
reserve_struct name arena = elim (position (is_struct_named name) 0 arena.kinds) [
  | none ↦ push (TypeKind.struct (record { name = name; fields = [] })) arena
  | some index ↦ (as_u32 index, arena)
]

-- `*kind_mut(id)` with new fields, where it is a struct
abbrev pub with_fields : List StructField → TypeKind → TypeKind
with_fields fields (TypeKind.struct s) = TypeKind.struct (record s { fields = fields })
with_fields fields k = k

abbrev pub set_at : TypeId → List StructField → List TypeKind → List TypeKind
set_at i fields [] = []
set_at zero fields (k ∷ kinds) = with_fields fields k ∷ kinds
set_at (suc i) fields (k ∷ kinds) = k ∷ set_at i fields kinds

-- On an identifier of the arena; the source panics on another one.
unfoldable pub set_struct_fields : TypeId → List StructField → TypeArena → TypeArena
set_struct_fields id fields arena = record arena { kinds = set_at id fields arena.kinds }

-- `next_infer.saturating_add(1)`
abbrev next : ℕ → ℕ
next n = min (n + 1) (u32_limit - 1)

unfoldable pub fresh_infer : TypeArena → TypeId × TypeArena
fresh_infer arena =
    push (TypeKind.infer arena.next_infer) (record arena { next_infer = next arena.next_infer })

unfoldable pub fresh_int_infer : TypeArena → TypeId × TypeArena
fresh_int_infer arena =
    push (TypeKind.int_infer arena.next_infer) (record arena { next_infer = next arena.next_infer })

abbrev pub is_numeric : TypeKind → Bool
is_numeric TypeKind.i32 = true
is_numeric TypeKind.i64 = true
is_numeric TypeKind.f64 = true
is_numeric _ = false

abbrev pub is_infer : TypeKind → Bool
is_infer (TypeKind.infer n) = true
is_infer (TypeKind.int_infer n) = true
is_infer _ = false
