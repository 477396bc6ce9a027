-- ===== src/Registry/Tests.antt =====
-- A small registry, and the theorems at inputs that meet their hypotheses.
use kubectl_mcp.Prelude.{
  ℕ, suc, String, true, false, none, some, [], ◌∷◌, ◌≡◌, ◌↔◌, ◌⊎◌, inl, refl, arith, string_eq,
}
use kubectl_mcp.GoMap.{lookup, has, insert}
use kubectl_mcp.Value.{Value, iface_eq}
use kubectl_mcp.Registry.{
  ToolCategory, ParameterSchema, Tool, ToolRegistry, pass, Args, validate_param_type, register_tool,
  execute_tool, validate_args,
}
use kubectl_mcp.Registry.Tools.{IsWellFormed, register_tool-IsWellFormed}
use kubectl_mcp.Registry.Validation.{IsAccepted, validate_args_iff}
use kubectl_mcp.Registry.Execution.{Unknown, Refused, Ran, execute_tool_lem}

abbrev name_schema : ParameterSchema
name_schema = record {
  kind = "string";
  description = "";
  required = true;
  default_value = none;
  enum = [];
}

abbrev kind_schema : ParameterSchema
kind_schema = record {
  kind = "string";
  description = "";
  required = false;
  default_value = none;
  enum = Value.str "pod" ∷ Value.str "service" ∷ [];
}

-- a tool that counts its runs
abbrev counter : Tool ℕ String String
counter = record {
  name = "counter";
  description = "";
  category = ToolCategory.query;
  requires_confirmation = false;
  input_schema = some (record {
    kind = "object";
    properties = ("name", name_schema) ∷ ("kind", kind_schema) ∷ [];
    required = "name" ∷ [];
  });
  handler = some (λ args w. (suc w, inl "done"));
  example = "";
  risk_level = "low";
}

abbrev good_args : Args
good_args = ("name", Value.str "web") ∷ ("kind", Value.str "pod") ∷ ("extra", Value.nil) ∷ []

abbrev tools : ToolRegistry ℕ String String
tools = ("counter", counter) ∷ []

good_pass : validate_args counter good_args ≡ pass
unfolding validate_args has lookup validate_param_type iface_eq
good_pass = refl

empty-IsWellFormed : IsWellFormed {W = ℕ} {R = String} {E = String} []
unfolding lookup
empty-IsWellFormed = record { distinct = tt; runnable = λ name tool found. ground arith }

validate_args_iff_example :
    (validate_args counter good_args ≡ pass) ↔ IsAccepted counter.input_schema good_args
validate_args_iff_example = validate_args_iff counter good_args

tools-IsWellFormed : IsWellFormed tools
unfolding register_tool has lookup insert
tools-IsWellFormed = register_tool-IsWellFormed (some counter) [] empty-IsWellFormed

execute_tool_lem_example :
    Unknown tools "counter" 0 (execute_tool tools "counter" good_args 0)
    ⊎ Refused tools "counter" good_args 0 (execute_tool tools "counter" good_args 0)
    ⊎ Ran tools "counter" good_args 0 (execute_tool tools "counter" good_args 0)
execute_tool_lem_example = execute_tool_lem tools "counter" good_args 0 tools-IsWellFormed
