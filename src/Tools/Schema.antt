-- ===== src/Tools/Schema.antt =====
-- Short forms for the parameters' schemas, and the loop that each `Register…Tools` writes out.
use kubectl_mcp.Prelude.{String, Bool, Option, none, some, List, [], ◌∷◌, map}
use kubectl_mcp.Value.{Value}
use kubectl_mcp.Registry.{ParameterSchema, Tool, ToolRegistry, ToolError, register_tool}

abbrev pub param_of : String → String → Bool → Option Value → List Value → ParameterSchema
param_of kind description required default_value enum = record {
  kind = kind;
  description = description;
  required = required;
  default_value = default_value;
  enum = enum;
}

-- a schema with neither a default nor an enumeration
abbrev pub param : String → String → Bool → ParameterSchema
param kind description required = param_of kind description required none []

abbrev pub texts : List String → List Value
texts = map Value.str

module _ {W R E : Type 0} where
  -- `if err := register(registry); err != nil { return err }` after what is registered so far
  unfoldable pub and_register :
      (ToolRegistry W R E → ToolRegistry W R E × Option (ToolError E))
      → ToolRegistry W R E × Option (ToolError E)
      → ToolRegistry W R E × Option (ToolError E)
  and_register register (r, none) = register r
  and_register register (r, some e) = (r, some e)

  -- the registrations of a list of tools, one after the other
  unfoldable pub register_each :
      List (Tool W R E) → ToolRegistry W R E → ToolRegistry W R E × Option (ToolError E)
  register_each [] r = (r, none)
  register_each (tool ∷ tools) r = and_register (register_each tools) (register_tool (some tool) r)
