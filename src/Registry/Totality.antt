-- ===== src/Registry/Totality.antt =====
-- Where every enumeration is of texts, no comparison panics, and neither does a call.
use kubectl_mcp.Prelude.{
  String, true, false, Option, none, some, Option-cases, Bool-cases, str_eq, List, [], ◌∷◌, ◌≡◌,
  ◌≢◌, ◌⊎◌, inl, inr, refl, arith, All, is_some, string_eq,
}
use kubectl_mcp.GoMap.{GoMap, lookup}
use kubectl_mcp.Value.{Value, iface_eq}
use kubectl_mcp.Registry.{
  ParameterSchema, InputSchema, Tool, ToolRegistry, ToolHandler, panicked, Args, Check, pass, fail,
  panic, and_then, require, check_kind, check_enum, check_enum_if_any, validate_param_type,
  check_required, check_arg, check_args, validate_schema, validate_args, answer, run_handler,
  execute_valid, execute_found, execute_tool, get_tool,
}
use kubectl_mcp.Registry.Tools.{IsWellFormed}

unfoldable pub IsText : Value → Type 0
IsText v = (s : String) × (v ≡ Value.str s)

-- every property's enumeration is of texts
unfoldable pub HasTextEnums : Option InputSchema → Type 0
unfolding IsText
HasTextEnums none = Unit
HasTextEnums (some schema) = All (λ entry. All IsText entry.1.enum) schema.properties

iface_eq-text : (v x : Value) → IsText x → iface_eq v x ≢ none
unfolding iface_eq IsText
iface_eq-text v x (s, e) h = ground arith

and_then-total : (a b : Check) → a ≢ panic → b ≢ panic → and_then a b ≢ panic
and_then-total a b h k e = ground arith

check_enum-total :
    (name : String) (v : Value) (xs : List Value) → All IsText xs → check_enum name v xs ≢ panic
unfolding check_enum
check_enum-total name v [] t e = ground arith
check_enum-total name v (x ∷ xs) (t, ts) e = elim (Option-cases (iface_eq v x)) [
  | inl h ↦ iface_eq-text v x t h
  | inr (true, h) ↦ ground arith
  | inr (false, h) ↦ check_enum-total name v xs ts (ground arith)
]

check_enum_if_any-total :
    (name : String) (v : Value) (xs : List Value)
    → All IsText xs
    → check_enum_if_any name v xs ≢ panic
unfolding check_enum_if_any
check_enum_if_any-total name v [] t e = ground arith
check_enum_if_any-total name v (x ∷ xs) t e = check_enum-total name v (x ∷ xs) t e

check_kind-total : (name : String) (v : Value) (s : ParameterSchema) → check_kind name v s ≢ panic
unfolding check_kind require
check_kind-total name v s e = ground arith

param-total :
    (name : String) (v : Value) (s : ParameterSchema)
    → All IsText s.enum
    → and_then (check_kind name v s) (check_enum_if_any name v s.enum) ≢ panic
param-total name v s t =
    and_then-total (check_kind name v s) (check_enum_if_any name v s.enum)
      (check_kind-total name v s) (check_enum_if_any-total name v s.enum t)

validate_param_type-total :
    (name : String) (v : Value) (s : ParameterSchema)
    → All IsText s.enum
    → validate_param_type name v s ≢ panic
unfolding validate_param_type
validate_param_type-total name Value.nil s t e = ground arith
validate_param_type-total name (Value.str x) s t e = param-total name (Value.str x) s t e
validate_param_type-total name (Value.bool x) s t e = param-total name (Value.bool x) s t e
validate_param_type-total name (Value.int x) s t e = param-total name (Value.int x) s t e
validate_param_type-total name (Value.int32 x) s t e = param-total name (Value.int32 x) s t e
validate_param_type-total name (Value.int64 x) s t e = param-total name (Value.int64 x) s t e
validate_param_type-total name (Value.float64 x) s t e = param-total name (Value.float64 x) s t e
validate_param_type-total name (Value.arr x) s t e = param-total name (Value.arr x) s t e
validate_param_type-total name (Value.obj x) s t e = param-total name (Value.obj x) s t e

check_required-total : (names : List String) (args : Args) → check_required names args ≢ panic
unfolding check_required
check_required-total [] args e = ground arith
check_required-total (name ∷ names) args e = ground (arith, check_required-total names args)

lookup-texts :
    (name : String) (properties : GoMap String ParameterSchema) (s : ParameterSchema)
    → All (λ entry. All IsText entry.1.enum) properties
    → lookup name properties ≡ some s
    → All IsText s.enum
unfolding lookup
lookup-texts name [] s t e = ground arith
lookup-texts name ((j, p) ∷ properties) s (t, ts) e = elim (Bool-cases (str_eq j name)) [
  | inl here ↦ let q : p ≡ s = ground arith in rw (← q) t
  | inr past ↦ lookup-texts name properties s ts (ground arith)
]

check_arg-total :
    (name : String) (v : Value) (o : Option ParameterSchema)
    → ((s : ParameterSchema) → o ≡ some s → All IsText s.enum)
    → check_arg name v o ≢ panic
unfolding check_arg
check_arg-total name v none t e = ground arith
check_arg-total name v (some s) t e = validate_param_type-total name v s (t s refl) e

check_args-total :
    (properties : GoMap String ParameterSchema) (args : Args)
    → All (λ entry. All IsText entry.1.enum) properties
    → check_args properties args ≢ panic
unfolding check_args
check_args-total properties [] t e = ground arith
check_args-total properties ((name, v) ∷ args) t e =
    and_then-total (check_arg name v (lookup name properties)) (check_args properties args)
      (check_arg-total name v (lookup name properties) (λ s f. lookup-texts name properties s t f))
      (check_args-total properties args t) e

validate_schema-total :
    (schema : Option InputSchema) (args : Args)
    → HasTextEnums schema
    → validate_schema schema args ≢ panic
unfolding validate_schema HasTextEnums
validate_schema-total none args t e = ground arith
validate_schema-total (some s) args t e =
    and_then-total (check_required s.required args) (check_args s.properties args)
      (check_required-total s.required args) (check_args-total s.properties args t) e

module _ {R E : Type 0} where
  answer-total : (x : R ⊎ E) → answer x ≢ panicked
  unfolding answer
  answer-total (inl r) e = ground arith
  answer-total (inr m) e = ground arith

module _ {W R E : Type 0} where
  run_handler-total :
      (o : Option (ToolHandler W R E)) (args : Args) (w : W)
      → is_some o ≡ true
      → (run_handler o args w).1 ≢ panicked
  unfolding run_handler answer
  run_handler-total none args w h e = ground arith
  run_handler-total (some handler) args w h e = answer-total (handler args w).1 e

  execute_valid-total :
      (tool : Tool W R E) (c : Check) (args : Args) (w : W)
      → c ≢ panic
      → is_some tool.handler ≡ true
      → (execute_valid tool c args w).1 ≢ panicked
  unfolding execute_valid
  execute_valid-total tool pass args w h k e = run_handler-total tool.handler args w k e
  execute_valid-total tool (fail x) args w h k e = ground arith
  execute_valid-total tool panic args w h k e = h refl

  execute_found-total :
      (name : String) (o : Option (Tool W R E)) (args : Args) (w : W)
      → ((tool : Tool W R E)
          → o ≡ some tool
          → HasTextEnums tool.input_schema × (is_some tool.handler ≡ true))
      → (execute_found name o args w).1 ≢ panicked
  unfolding execute_found validate_args
  execute_found-total name none args w h e = ground arith
  execute_found-total name (some tool) args w h e =
      let (t, k) = h tool refl in
      execute_valid-total tool (validate_args tool args) args w
        (validate_schema-total tool.input_schema args t) k e

  -- In a well-formed registry whose enumerations are of texts a call returns a result or an error,
  -- and never panics.
  pub execute_tool-total :
      (r : ToolRegistry W R E) (name : String) (args : Args) (w : W)
      → IsWellFormed r
      → ((j : String) (tool : Tool W R E)
          → get_tool j r ≡ some tool
          → HasTextEnums tool.input_schema)
      → (execute_tool r name args w).1 ≢ panicked
  unfolding execute_tool get_tool
  execute_tool-total r name args w v t =
      execute_found-total name (get_tool name r) args w
        (λ tool e. (t name tool e, (v.runnable name tool e).1.has_handler))
