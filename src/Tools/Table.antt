-- ===== src/Tools/Table.antt =====
-- The registry that `initToolRegistry` builds: every tool of the list, under its own name.
use kubectl_mcp.Prelude.{
  String, List, [], ◌∷◌, none, some, map, true, every, ◌≡◌, refl, arith, string_eq, Bool,
  Bool-cases, inl, inr, str_eq, str_eq_iff, ap, Option,
}
use kubectl_mcp.GoMap.{GoMap, lookup, has, insert}
use kubectl_mcp.Registry.{
  Tool, ToolHandler, ToolRegistry, ToolError, register_tool, new_tool_registry, get_tool,
}
use kubectl_mcp.Registry.Tools.{IsWellFormed, register_tool-IsWellFormed}
use kubectl_mcp.Tools.Schema.{register_each, and_register}
use kubectl_mcp.Tools.{
  all_tools, init_tool_registry, register_query_tools, register_create_tools, register_update_tools,
  register_delete_tools, register_inspect_tools,
}

-- what passes a test entry by entry passes it where it is looked up
pub lookup-every :
    {V : Type 0} (test : String × V → Bool) (m : GoMap String V) (name : String) (v : V)
    → every test m ≡ true
    → lookup name m ≡ some v
    → test (name, v) ≡ true
unfolding lookup
lookup-every test [] name v h e = ground arith
lookup-every test ((j, w) ∷ m) name v h e = elim (Bool-cases (str_eq j name)) [
  | inl here ↦ let q : w ≡ v = ground arith in rw (← (str_eq_iff j name).0 here, ← q) (ground arith)
  | inr past ↦ lookup-every test m name v (ground arith) (ground arith)
]

module _ {W R E : Type 0} where
  and_register-IsWellFormed :
      (register : ToolRegistry W R E → ToolRegistry W R E × Option (ToolError E))
      (p : ToolRegistry W R E × Option (ToolError E))
      → ((r : ToolRegistry W R E) → IsWellFormed r → IsWellFormed (register r).0)
      → IsWellFormed p.0
      → IsWellFormed (and_register register p).0
  unfolding and_register
  and_register-IsWellFormed register (r, none) h v = h r v
  and_register-IsWellFormed register (r, some e) h v = v

  register_each-IsWellFormed :
      (tools : List (Tool W R E)) (r : ToolRegistry W R E)
      → IsWellFormed r
      → IsWellFormed (register_each tools r).0
  unfolding register_each
  register_each-IsWellFormed [] r v = v
  register_each-IsWellFormed (tool ∷ tools) r v =
      and_register-IsWellFormed (register_each tools) (register_tool (some tool) r)
        (register_each-IsWellFormed tools) (register_tool-IsWellFormed (some tool) r v)

  new-IsWellFormed : IsWellFormed {W = W} {R = R} {E = E} new_tool_registry
  unfolding new_tool_registry lookup
  new-IsWellFormed = record { distinct = tt; runnable = λ name tool found. ground arith }

module _ {W R E : Type 0} (handlers : String → ToolHandler W R E) where
  -- The registration of all tools ends without an error, and leaves the 53 tools, each under its own name.
  pub init_tool_registry_lem :
      init_tool_registry handlers ≡ (map (λ tool. (tool.name, tool)) (all_tools handlers), none)
  unfolding and_register init_tool_registry register_query_tools register_create_tools
      register_update_tools register_delete_tools register_inspect_tools register_each register_tool
      has lookup insert new_tool_registry
  init_tool_registry_lem = refl

  pub init-IsWellFormed : IsWellFormed (init_tool_registry handlers).0
  unfolding init_tool_registry register_query_tools register_create_tools register_update_tools
      register_delete_tools register_inspect_tools
  init-IsWellFormed = and_register-IsWellFormed _ _ (register_each-IsWellFormed _) (
      and_register-IsWellFormed _ _ (register_each-IsWellFormed _) (
        and_register-IsWellFormed _ _ (register_each-IsWellFormed _) (
          and_register-IsWellFormed _ _ (register_each-IsWellFormed _)
            (register_each-IsWellFormed _ _ new-IsWellFormed))))

  -- what every tool of the list passes, a registered tool passes
  pub registered-every :
      (test : Tool W R E → Bool) (name : String) (tool : Tool W R E)
      → every test (all_tools handlers) ≡ true
      → get_tool name (init_tool_registry handlers).0 ≡ some tool
      → test tool ≡ true
  unfolding get_tool
  registered-every test name tool h e =
      lookup-every (λ entry. test entry.1) (map (λ tool. (tool.name, tool)) (all_tools handlers))
        name tool h (rw (← (ap (λ p. p.0) init_tool_registry_lem)) e)
