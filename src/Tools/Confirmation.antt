-- ===== src/Tools/Confirmation.antt =====
-- The confirmation token that the tools of deletion declare, and the calls that it keeps out.
use kubectl_mcp.Prelude.{
  String, Bool, true, false, not, ◌&&◌, ◌||◌, Option, none, some, every, ◌≡◌, ◌≢◌, ◌⊎◌, inl, inr,
  refl, arith, str_eq, str_eq_iff, string_eq,
}
use kubectl_mcp.GoMap.{lookup}
use kubectl_mcp.Value.{Value}
use kubectl_mcp.Registry.{
  ToolCategory, ParameterSchema, InputSchema, Args, Tool, ToolHandler, Outcome, returned, get_tool,
  execute_tool,
}
use kubectl_mcp.Registry.Validation.{IsAccepted}
use kubectl_mcp.Registry.Validation.Arguments.{names_one, IsAccepted-text}
use kubectl_mcp.Registry.Execution.{Unknown, Refused, Ran, execute_tool_lem}
use kubectl_mcp.Tools.{all_tools, init_tool_registry}
use kubectl_mcp.Tools.Table.{registered-every, init-IsWellFormed}

is_delete : ToolCategory → Bool
is_delete ToolCategory.delete_category = true
is_delete _ = false

is_required_text : Option ParameterSchema → Bool
is_required_text none = false
is_required_text (some s) = str_eq s.kind "string" && s.required

requires_text : String → Option InputSchema → Bool
unfolding is_required_text names_one
requires_text name none = false
requires_text name (some schema) =
    names_one name schema.required && is_required_text (lookup name schema.properties)

is_required_text-some :
    (o : Option ParameterSchema)
    → is_required_text o ≡ true
    → (s : ParameterSchema) × (o ≡ some s) × (s.kind ≡ "string") × (s.required ≡ true)
unfolding is_required_text
is_required_text-some none h = ground arith
is_required_text-some (some s) h =
    (s, refl, (str_eq_iff s.kind "string").0 (ground arith), ground arith)

requires_text-accepted :
    (name : String) (o : Option InputSchema) (args : Args)
    → requires_text name o ≡ true
    → IsAccepted o args
    → (t : String) × (lookup name args ≡ some (Value.str t))
unfolding requires_text
requires_text-accepted name none args h a = ground arith
requires_text-accepted name (some schema) args h a =
    let (s, found, kind, required) =
      is_required_text-some (lookup name schema.properties) (ground arith) in
    IsAccepted-text name schema s args
      (record { listed = ground arith; described = found; is_text = kind; not_nil = required }) a

module _ {W R E : Type 0} where
  -- a tool of deletion, other than the preview, asks for a token
  asks_token : Tool W R E → Bool
  unfolding is_delete requires_text
  asks_token tool =
      not (is_delete tool.category)
      || (str_eq tool.name "preview_delete_resources"
          || (tool.requires_confirmation && requires_text "confirmationToken" tool.input_schema))

  -- the cluster is untouched, and nothing is returned
  pub Kept : W → W × Outcome R E → Type 0
  Kept w (w', out) = (w' ≡ w) × ((x : R) → out ≢ returned x)

module _ {W R E : Type 0} (handlers : String → ToolHandler W R E) where
  all_ask : every asks_token (all_tools handlers) ≡ true
  unfolding asks_token lookup
  all_ask = refl

  asks_token-requires :
      (tool : Tool W R E)
      → asks_token tool ≡ true
      → tool.category ≡ ToolCategory.delete_category
      → tool.name ≢ "preview_delete_resources"
      → (tool.requires_confirmation ≡ true)
        × (requires_text "confirmationToken" tool.input_schema ≡ true)
  unfolding asks_token is_delete
  asks_token-requires tool h c p = ground (arith, str_eq_iff tool.name "preview_delete_resources")

  accepted-token :
      (name : String) (tool : Tool W R E) (args : Args)
      → get_tool name (init_tool_registry handlers).0 ≡ some tool
      → tool.category ≡ ToolCategory.delete_category
      → tool.name ≢ "preview_delete_resources"
      → IsAccepted tool.input_schema args
      → (t : String) × (lookup "confirmationToken" args ≡ some (Value.str t))
  accepted-token name tool args found c p a =
      requires_text-accepted "confirmationToken" tool.input_schema args
        (asks_token-requires tool (registered-every handlers asks_token name tool all_ask found) c
          p).1
        a

  -- A call of a registered tool of deletion, other than the preview, either leaves the cluster as it is and returns nothing, or
  -- comes with a text as its confirmation token.
  pub execute_delete-token :
      (name : String) (tool : Tool W R E) (args : Args) (w : W)
      → get_tool name (init_tool_registry handlers).0 ≡ some tool
      → tool.category ≡ ToolCategory.delete_category
      → tool.name ≢ "preview_delete_resources"
      → Kept w (execute_tool (init_tool_registry handlers).0 name args w)
        ⊎ ((t : String) × (lookup "confirmationToken" args ≡ some (Value.str t)))
  unfolding Unknown Refused Ran Kept
  execute_delete-token name tool args w found c p =
      elim (execute_tool_lem (init_tool_registry handlers).0 name args w
        (init-IsWellFormed handlers)) [
          | inl (missing, same, out) ↦ inl (same, λ x. ground arith)
          | inr (inl (t, there, bad, same, out)) ↦ inl (same, out)
          | inr (inr (t, handler, there, handled, good, done, out)) ↦
              let q : t ≡ tool = ground arith in
              inr (accepted-token name tool args found c p (rw (← q) good))
        ]
