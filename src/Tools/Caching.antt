-- ===== src/Tools/Caching.antt =====
-- The tables of internal/server/cache.go against the tools that the server registers.
use kubectl_mcp.Prelude.{
  String, Bool, true, false, not, ◌&&◌, ◌||◌, none, some, is_some, every, ◌≡◌, ◌≢◌, ◌⊎◌, inl, inr,
  refl, arith, str_eq, str_eq_iff, string_eq, Option-cases,
}
use kubectl_mcp.GoMap.{lookup}
use kubectl_mcp.Registry.{ToolCategory, Tool, ToolHandler, get_tool}
use kubectl_mcp.Http.Tables.{invalidating_tools, is_cacheable}
use kubectl_mcp.Tools.{all_tools, init_tool_registry}
use kubectl_mcp.Tools.Table.{registered-every}

is_query : ToolCategory → Bool
is_query ToolCategory.query = true
is_query _ = false

is_query-eq : (c : ToolCategory) → is_query c ≡ true → c ≡ ToolCategory.query
unfolding is_query
is_query-eq ToolCategory.query h = refl
is_query-eq ToolCategory.create h = ground arith
is_query-eq ToolCategory.update h = ground arith
is_query-eq ToolCategory.delete_category h = ground arith

module _ {W R E : Type 0} where
  -- only a tool of queries, which asks for no confirmation, may be cacheable
  caches_query : Tool W R E → Bool
  unfolding is_query
  caches_query tool =
      not (is_cacheable tool.name) || (is_query tool.category && not tool.requires_confirmation)

  -- a tool that asks for confirmation empties some cache, but for two
  invalidates : Tool W R E → Bool
  invalidates tool =
      not tool.requires_confirmation
      || (is_some (lookup tool.name invalidating_tools)
          || (str_eq tool.name "create_from_yaml" || str_eq tool.name "delete_resources"))

-- every tool that a change invalidates is one whose results are cached
module _ {W R E : Type 0} (handlers : String → ToolHandler W R E) where
  all_cache : every caches_query (all_tools handlers) ≡ true
  unfolding caches_query is_cacheable lookup
  all_cache = refl

  all_invalidate : every invalidates (all_tools handlers) ≡ true
  unfolding invalidates lookup
  all_invalidate = refl

  -- A registered tool whose results the server caches is of the category of queries, and asks for no
  -- confirmation.
  pub cacheable-query :
      (name : String) (tool : Tool W R E)
      → get_tool name (init_tool_registry handlers).0 ≡ some tool
      → is_cacheable tool.name ≡ true
      → (tool.category ≡ ToolCategory.query) × (tool.requires_confirmation ≡ false)
  unfolding caches_query
  cacheable-query name tool found c =
      let h : caches_query tool ≡ true =
        registered-every handlers caches_query name tool all_cache found in
      (is_query-eq tool.category (ground arith), ground arith)

  pub confirmed-invalidates :
      (name : String) (tool : Tool W R E)
      → get_tool name (init_tool_registry handlers).0 ≡ some tool
      → tool.requires_confirmation ≡ true
      → (lookup tool.name invalidating_tools ≢ none)
        ⊎ (tool.name ≡ "create_from_yaml")
        ⊎ (tool.name ≡ "delete_resources")
  unfolding invalidates
  confirmed-invalidates name tool found c =
      let h : invalidates tool ≡ true =
        registered-every handlers invalidates name tool all_invalidate found in
      elim (Option-cases (lookup tool.name invalidating_tools)) [
        | inl e ↦ ground (
          arith,
          str_eq_iff tool.name "create_from_yaml",
          str_eq_iff tool.name "delete_resources",
        )
        | inr (l, e) ↦ inl (λ q. ground arith)
      ]
