-- ===== src/Registry/Validation.antt =====
-- `ValidateArgs` and `validateParamType` against a description of the arguments that a schema
-- accepts.
pub mod Arguments
use kubectl_mcp.Prelude.{
  String, str_eq, str_eq_iff, string_eq, true, false, Option-cases, Option, none, some, List, [],
  ◌∷◌, ◌≡◌, ◌≢◌, ◌↔◌, ◌⊎◌, inl, inr, refl, arith, All,
}
use kubectl_mcp.GoMap.{GoMap, lookup, has}
use kubectl_mcp.Value.{Value, iface_eq}
use kubectl_mcp.Registry.{
  ParameterSchema, InputSchema, Check, pass, fail, panic, and_then, Args, Tool, check_kind,
  check_enum, check_enum_if_any, validate_param_type, check_required, check_arg, check_args,
  validate_schema, validate_args, is_string, is_integer, is_boolean, is_array, is_object, require,
}

-- The JSON Schema type of a value; every numeric type counts as an integer.
pub kind_of : Value → String
kind_of Value.nil = "null"
kind_of (Value.str s) = "string"
kind_of (Value.bool b) = "boolean"
kind_of (Value.int n) = "integer"
kind_of (Value.int32 n) = "integer"
kind_of (Value.int64 n) = "integer"
kind_of (Value.float64 f) = "integer"
kind_of (Value.arr xs) = "array"
kind_of (Value.obj fs) = "object"

-- the types that validation knows
abbrev pub known_kinds : List String
known_kinds = "string" ∷ "integer" ∷ "boolean" ∷ "array" ∷ "object" ∷ []

pub FitsKind : String → Value → Type 0
FitsKind kind v = (kind ≡ kind_of v) ⊎ All (λ k. kind ≢ k) known_kinds

-- some value of a list equals `v`
pub InEnum : Value → List Value → Type 0
InEnum v [] = ⊥
InEnum v (x ∷ xs) = (iface_eq v x ≡ some true) ⊎ InEnum v xs

-- an empty enumeration allows every value
pub FitsEnum : Value → List Value → Type 0
unfolding InEnum
FitsEnum v [] = Unit
FitsEnum v (x ∷ xs) = InEnum v (x ∷ xs)

pub Accepts : ParameterSchema → Value → Type 0
unfolding FitsKind FitsEnum
Accepts s Value.nil = s.required ≡ false
Accepts s v = FitsKind s.kind v × FitsEnum v s.enum

-- An argument that no property describes is accepted.
pub AcceptsIfAny : Option ParameterSchema → Value → Type 0
unfolding Accepts
AcceptsIfAny none v = Unit
AcceptsIfAny (some s) v = Accepts s v

-- every required name is there, and every argument fits the property of its name
pub IsAccepted : Option InputSchema → Args → Type 0
unfolding AcceptsIfAny
IsAccepted none args = Unit
IsAccepted (some schema) args =
    All (λ name. has name args ≡ true) schema.required
    × All (λ entry. AcceptsIfAny (lookup entry.0 schema.properties) entry.1) args

and_then-pass : (a b : Check) → (and_then a b ≡ pass) ↔ ((a ≡ pass) × (b ≡ pass))
and_then-pass pass b = ground arith
and_then-pass (fail e) b = ground arith
and_then-pass panic b = ground arith

module _ (kind : String) where
  kind_facts :
      ((str_eq kind "string" ≡ true) ↔ (kind ≡ "string"))
      × ((str_eq kind "integer" ≡ true) ↔ (kind ≡ "integer"))
      × ((str_eq kind "boolean" ≡ true) ↔ (kind ≡ "boolean"))
      × ((str_eq kind "array" ≡ true) ↔ (kind ≡ "array"))
      × ((str_eq kind "object" ≡ true) ↔ (kind ≡ "object"))
  kind_facts = (
    str_eq_iff kind "string",
    str_eq_iff kind "integer",
    str_eq_iff kind "boolean",
    str_eq_iff kind "array",
    str_eq_iff kind "object",
  )

check_kind_iff :
    (name : String) (v : Value) (s : ParameterSchema)
    → v ≢ Value.nil
    → (check_kind name v s ≡ pass) ↔ FitsKind s.kind v
unfolding check_kind FitsKind kind_of require is_string is_integer is_boolean is_array is_object
check_kind_iff name Value.nil s h = absurd (h refl)
check_kind_iff name (Value.str x) s h = ground (arith, kind_facts s.kind)
check_kind_iff name (Value.bool x) s h =
    ground (arith, kind_facts s.kind, str_eq_iff "boolean" "string", str_eq_iff "boolean" "integer")
check_kind_iff name (Value.int x) s h =
    ground (arith, kind_facts s.kind, str_eq_iff "integer" "string")
check_kind_iff name (Value.int32 x) s h =
    ground (arith, kind_facts s.kind, str_eq_iff "integer" "string")
check_kind_iff name (Value.int64 x) s h =
    ground (arith, kind_facts s.kind, str_eq_iff "integer" "string")
check_kind_iff name (Value.float64 x) s h =
    ground (arith, kind_facts s.kind, str_eq_iff "integer" "string")
check_kind_iff name (Value.arr x) s h = ground (
  arith,
  kind_facts s.kind,
  str_eq_iff "array" "string",
  str_eq_iff "array" "integer",
  str_eq_iff "array" "boolean",
)
check_kind_iff name (Value.obj x) s h = ground (
  arith,
  kind_facts s.kind,
  str_eq_iff "object" "string",
  str_eq_iff "object" "integer",
  str_eq_iff "object" "boolean",
  str_eq_iff "object" "array",
)

iface_eq-none : (v a b : Value) → iface_eq v a ≡ some true → iface_eq v b ≢ none
unfolding iface_eq
iface_eq-none v a b e p = ground arith

InEnum-equal :
    (v : Value) (xs : List Value) → InEnum v xs → (a : Value) × (iface_eq v a ≡ some true)
unfolding InEnum
InEnum-equal v [] q = absurd q
InEnum-equal v (x ∷ xs) (inl e) = (x, e)
InEnum-equal v (x ∷ xs) (inr q) = InEnum-equal v xs q

check_enum-later :
    (name : String) (v x : Value) (xs : List Value)
    → check_enum name v xs ≡ pass
    → iface_eq v x ≢ none
    → check_enum name v (x ∷ xs) ≡ pass
unfolding check_enum
check_enum-later name v x xs p h = elim (Option-cases (iface_eq v x)) [
  | inl e ↦ absurd (h e)
  | inr (true, e) ↦ ground arith
  | inr (false, e) ↦ ground arith
]

check_enum_iff :
    (name : String) (v : Value) (values : List Value)
    → (check_enum name v values ≡ pass) ↔ InEnum v values
unfolding check_enum InEnum
check_enum_iff name v [] = ground arith
check_enum_iff name v (x ∷ xs) = (
  (λ p. elim (Option-cases (iface_eq v x)) [
    | inl e ↦ ground arith
    | inr (true, e) ↦ inl e
    | inr (false, e) ↦ inr ((check_enum_iff name v xs).0 (ground arith))
  ]),
  (λ p. elim p [
    | inl e ↦ ground arith
    | inr q ↦
        let (a, e) = InEnum-equal v xs q in
        check_enum-later name v x xs ((check_enum_iff name v xs).1 q) (iface_eq-none v a x e)
  ]),
)

check_enum_if_any_iff :
    (name : String) (v : Value) (values : List Value)
    → (check_enum_if_any name v values ≡ pass) ↔ FitsEnum v values
unfolding check_enum_if_any FitsEnum
check_enum_if_any_iff name v [] = ground arith
check_enum_if_any_iff name v (x ∷ xs) = check_enum_iff name v (x ∷ xs)

param_iff :
    (name : String) (v : Value) (s : ParameterSchema)
    → v ≢ Value.nil
    → (and_then (check_kind name v s) (check_enum_if_any name v s.enum) ≡ pass)
      ↔ (FitsKind s.kind v × FitsEnum v s.enum)
param_iff name v s h = ground (
  arith,
  check_kind_iff name v s h,
  check_enum_if_any_iff name v s.enum,
  and_then-pass (check_kind name v s) (check_enum_if_any name v s.enum),
)

-- A value passes the check exactly when the schema accepts it.
pub validate_param_type_iff :
    (name : String) (v : Value) (s : ParameterSchema)
    → (validate_param_type name v s ≡ pass) ↔ Accepts s v
unfolding validate_param_type Accepts
validate_param_type_iff name Value.nil s = ground arith
validate_param_type_iff name (Value.str x) s = param_iff name (Value.str x) s (λ p. ground arith)
validate_param_type_iff name (Value.bool x) s = param_iff name (Value.bool x) s (λ p. ground arith)
validate_param_type_iff name (Value.int x) s = param_iff name (Value.int x) s (λ p. ground arith)
validate_param_type_iff name (Value.int32 x) s =
    param_iff name (Value.int32 x) s (λ p. ground arith)
validate_param_type_iff name (Value.int64 x) s =
    param_iff name (Value.int64 x) s (λ p. ground arith)
validate_param_type_iff name (Value.float64 x) s =
    param_iff name (Value.float64 x) s (λ p. ground arith)
validate_param_type_iff name (Value.arr x) s = param_iff name (Value.arr x) s (λ p. ground arith)
validate_param_type_iff name (Value.obj x) s = param_iff name (Value.obj x) s (λ p. ground arith)

check_arg_iff :
    (name : String) (v : Value) (property : Option ParameterSchema)
    → (check_arg name v property ≡ pass) ↔ AcceptsIfAny property v
unfolding check_arg AcceptsIfAny
check_arg_iff name v none = ground arith
check_arg_iff name v (some s) = validate_param_type_iff name v s

check_required_iff :
    (names : List String) (args : Args)
    → (check_required names args ≡ pass) ↔ All (λ name. has name args ≡ true) names
unfolding check_required
check_required_iff [] args = ground arith
check_required_iff (name ∷ names) args = ground (arith, check_required_iff names args)

check_args_iff :
    (properties : GoMap String ParameterSchema) (args : Args)
    → (check_args properties args ≡ pass)
      ↔ All (λ entry. AcceptsIfAny (lookup entry.0 properties) entry.1) args
unfolding check_args
check_args_iff properties [] = ground arith
check_args_iff properties ((name, v) ∷ args) = ground (
  arith,
  check_arg_iff name v (lookup name properties),
  check_args_iff properties args,
  and_then-pass (check_arg name v (lookup name properties)) (check_args properties args),
)

validate_schema_iff :
    (schema : Option InputSchema) (args : Args)
    → (validate_schema schema args ≡ pass) ↔ IsAccepted schema args
unfolding validate_schema IsAccepted
validate_schema_iff none args = ground arith
validate_schema_iff (some s) args = ground (
  arith,
  check_required_iff s.required args,
  check_args_iff s.properties args,
  and_then-pass (check_required s.required args) (check_args s.properties args),
)

-- The arguments pass validation exactly when the schema accepts them: every required name is
-- there, and every argument that has a property is of its type and in its enumeration, or is nil
-- where the property is not required.
pub validate_args_iff :
    {W R E : Type 0} (tool : Tool W R E) (args : Args)
    → (validate_args tool args ≡ pass) ↔ IsAccepted tool.input_schema args
unfolding validate_args
validate_args_iff tool args = validate_schema_iff tool.input_schema args
