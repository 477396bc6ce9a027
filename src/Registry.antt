-- ===== src/Registry.antt =====
-- internal/tools/registry.go: `ToolRegistry`. A handler is not run by the registry's own state: it
-- takes the cluster that it acts on and returns the cluster after it, with its result or error.
pub mod Tools
pub mod Validation
pub mod Execution
pub mod Totality
mod Tests
use kubectl_mcp.Prelude.{
  ℕ, String, ◌⊎◌, inl, inr, Bool, true, false, not, is_some, Option, none, some, List, [], ◌∷◌, map,
  length, filter, str_eq, string_eq, if◌then◌else◌,
}
use kubectl_mcp.GoMap.{GoMap, lookup, has, insert, delete}
use kubectl_mcp.Value.{Value, iface_eq}

pub data ToolCategory : Type 0 where
  query create update delete_category : ToolCategory

-- The fields that validation reads: `Items` and `Properties` describe a value's parts, and are
-- read by no check.
pub record ParameterSchema : Type 0 where
  pub kind : String
  pub description : String
  pub required : Bool
  pub default_value : Option Value
  pub enum : List Value

pub record InputSchema : Type 0 where
  pub kind : String
  pub properties : GoMap String ParameterSchema
  pub required : List String

-- why an argument is refused
pub data ArgError : Type 0 where
  missing_required : String → ArgError
  must_not_be_nil : String → ArgError
  not_a_string : String → ArgError
  not_an_integer : String → ArgError
  not_a_boolean : String → ArgError
  not_an_array : String → ArgError
  not_an_object : String → ArgError
  not_in_enum : String → ArgError

-- how a check ends: nil, an error, or a run-time panic
pub data Check : Type 0 where
  pass : Check
  fail : ArgError → Check
  panic : Check

-- `if err := first; err != nil { return err }`, and on to the next check
abbrev pub and_then : Check → Check → Check
and_then pass next = next
and_then (fail e) next = fail e
and_then panic next = panic

abbrev pub Args : Type 0
Args = GoMap String Value

-- why a registration or a call fails, by the message; the text of a message is in Mcp.Message
pub data ToolError (E : Type 0) : Type 0 where
  tool_nil : ToolError E
  name_empty : ToolError E
  handler_nil : String → ToolError E
  schema_nil : String → ToolError E
  already_exists : String → ToolError E
  not_exists : String → ToolError E
  -- behind "参数验证失败: "
  invalid : ArgError → ToolError E
  -- a handler's own error
  from_handler : E → ToolError E

pub data Outcome (R E : Type 0) : Type 0 where
  returned : R → Outcome R E
  failed : ToolError E → Outcome R E
  -- a run-time panic
  panicked : Outcome R E

module _ {R E : Type 0} where
  -- the answer to what a handler gives back
  pub answer : R ⊎ E → Outcome R E
  answer (inl r) = returned r
  answer (inr e) = failed (from_handler e)

-- W is the cluster, R what a handler returns, E its error.
abbrev pub ToolHandler : Type 0 → Type 0 → Type 0 → Type 0
ToolHandler W R E = Args → W → W × (R ⊎ E)

pub record Tool (W R E : Type 0) : Type 0 where
  pub name : String
  pub description : String
  pub category : ToolCategory
  pub requires_confirmation : Bool
  pub input_schema : Option InputSchema
  pub handler : Option (ToolHandler W R E)
  pub example : String
  pub risk_level : String

abbrev pub ToolRegistry : Type 0 → Type 0 → Type 0 → Type 0
ToolRegistry W R E = GoMap String (Tool W R E)

category_eq : ToolCategory → ToolCategory → Bool
category_eq query query = true
category_eq create create = true
category_eq update update = true
category_eq delete_category delete_category = true
category_eq _ _ = false

is_integer : Value → Bool
is_integer (Value.int n) = true
is_integer (Value.int32 n) = true
is_integer (Value.int64 n) = true
is_integer (Value.float64 f) = true
is_integer _ = false

is_string : Value → Bool
is_string (Value.str s) = true
is_string _ = false

is_boolean : Value → Bool
is_boolean (Value.bool b) = true
is_boolean _ = false

is_array : Value → Bool
is_array (Value.arr xs) = true
is_array _ = false

is_object : Value → Bool
is_object (Value.obj fs) = true
is_object _ = false

require : Bool → ArgError → Check
require true e = pass
require false e = fail e

-- the `switch schema.Type`; a type that it does not name is not checked
check_kind : String → Value → ParameterSchema → Check
unfolding require is_string is_integer is_boolean is_array is_object
check_kind name value schema =
    if str_eq schema.kind "string"
    then require (is_string value) (not_a_string name)
    else if str_eq schema.kind "integer"
    then require (is_integer value) (not_an_integer name)
    else if str_eq schema.kind "boolean"
    then require (is_boolean value) (not_a_boolean name)
    else if str_eq schema.kind "array"
    then require (is_array value) (not_an_array name)
    else if str_eq schema.kind "object"
    then require (is_object value) (not_an_object name)
    else pass

-- the loop over the values of the enumeration, which stops at the first that is equal
check_enum : String → Value → List Value → Check
check_enum name value [] = fail (not_in_enum name)
check_enum name value (v ∷ values) = elim (iface_eq value v) [
  | none ↦ panic
  | some true ↦ pass
  | some false ↦ check_enum name value values
]

-- `if len(schema.Enum) > 0`
check_enum_if_any : String → Value → List Value → Check
unfolding check_enum
check_enum_if_any name value [] = pass
check_enum_if_any name value (v ∷ values) = check_enum name value (v ∷ values)

unfoldable pub validate_param_type : String → Value → ParameterSchema → Check
unfolding check_kind check_enum_if_any
validate_param_type name Value.nil schema =
    if schema.required then fail (must_not_be_nil name) else pass
validate_param_type name value schema =
    and_then (check_kind name value schema) (check_enum_if_any name value schema.enum)

check_required : List String → Args → Check
check_required [] args = pass
check_required (name ∷ names) args =
    if has name args then check_required names args else fail (missing_required name)

-- an argument that the schema does not name is allowed
check_arg : String → Value → Option ParameterSchema → Check
check_arg name value none = pass
check_arg name value (some schema) = validate_param_type name value schema

-- the loop over the arguments, in the order of the map
check_args : GoMap String ParameterSchema → Args → Check
unfolding check_arg
check_args properties [] = pass
check_args properties ((name, value) ∷ args) =
    and_then (check_arg name value (lookup name properties)) (check_args properties args)

validate_schema : Option InputSchema → Args → Check
unfolding check_required check_args
validate_schema none args = pass
validate_schema (some schema) args =
    and_then (check_required schema.required args) (check_args schema.properties args)

module _ {W R E : Type 0} where
  unfoldable pub new_tool_registry : ToolRegistry W R E
  new_tool_registry = []

  register_named : Tool W R E → ToolRegistry W R E → ToolRegistry W R E × Option (ToolError E)
  register_named tool r =
      if str_eq tool.name ""
      then (r, some name_empty)
      else if not (is_some tool.handler)
      then (r, some (handler_nil tool.name))
      else if not (is_some tool.input_schema)
      then (r, some (schema_nil tool.name))
      else if has tool.name r
      then (r, some (already_exists tool.name))
      else (insert tool.name tool r, none)

  -- the registry after the call, and the error if there is one
  unfoldable pub register_tool :
      Option (Tool W R E) → ToolRegistry W R E → ToolRegistry W R E × Option (ToolError E)
  unfolding register_named
  register_tool none r = (r, some tool_nil)
  register_tool (some tool) r = register_named tool r

  unfoldable pub get_tool : String → ToolRegistry W R E → Option (Tool W R E)
  get_tool name r = lookup name r

  unfoldable pub get_all_tools : ToolRegistry W R E → List (Tool W R E)
  get_all_tools [] = []
  get_all_tools ((name, tool) ∷ r) = tool ∷ get_all_tools r

  unfoldable pub get_tools_by_category : ToolCategory → ToolRegistry W R E → List (Tool W R E)
  unfolding get_all_tools category_eq
  get_tools_by_category category r =
      filter (λ tool. category_eq tool.category category) (get_all_tools r)

  unfoldable pub validate_args : Tool W R E → Args → Check
  unfolding validate_schema
  validate_args tool args = validate_schema tool.input_schema args

  -- the call of the handler, which panics on a nil one
  run_handler : Option (ToolHandler W R E) → Args → W → W × Outcome R E
  unfolding answer
  run_handler none args w = (w, panicked)
  run_handler (some handler) args w = let (w', result) = handler args w in (w', answer result)

  execute_valid : Tool W R E → Check → Args → W → W × Outcome R E
  unfolding run_handler
  execute_valid tool pass args w = run_handler tool.handler args w
  execute_valid tool (fail e) args w = (w, failed (invalid e))
  execute_valid tool panic args w = (w, panicked)

  execute_found : String → Option (Tool W R E) → Args → W → W × Outcome R E
  unfolding execute_valid
  execute_found name none args w = (w, failed (not_exists name))
  execute_found name (some tool) args w = execute_valid tool (validate_args tool args) args w

  unfoldable pub execute_tool : ToolRegistry W R E → String → Args → W → W × Outcome R E
  unfolding execute_found
  execute_tool r name args w = execute_found name (get_tool name r) args w

  unfoldable pub tool_count : ToolRegistry W R E → ℕ
  tool_count r = length r

  unfoldable pub has_tool : String → ToolRegistry W R E → Bool
  has_tool name r = has name r

  unfoldable pub unregister_tool :
      String → ToolRegistry W R E → ToolRegistry W R E × Option (ToolError E)
  unregister_tool name r = if has name r then (delete name r, none) else (r, some (not_exists name))

  unfoldable pub get_tool_names : ToolRegistry W R E → List String
  get_tool_names r = map (λ entry. entry.0) r
