-- ===== src/Tools/Tests.antt =====
-- The registered tools with a handler that counts its runs, and the theorems at them.
use kubectl_mcp.Prelude.{
  Option, str_eq_iff, ℕ, suc, String, true, some, none, is_some, [], ◌∷◌, ◌≡◌, ◌⊎◌, inl, refl,
  arith, map, string_eq,
}
use kubectl_mcp.GoMap.{lookup}
use kubectl_mcp.Value.{Value}
use kubectl_mcp.Registry.{ToolHandler, get_tool, execute_tool, InputSchema, Args}
use kubectl_mcp.Mcp.{ToolResult, plain}
use kubectl_mcp.Mcp.Handler.{ServerState, Clock, handle_tool_call}
use kubectl_mcp.Tools.{all_tools, init_tool_registry}
use kubectl_mcp.Tools.Query.Resources.{get_pods_tool}
use kubectl_mcp.Tools.Delete.{delete_pod_tool}
use kubectl_mcp.Tools.Table.{init_tool_registry_lem}
use kubectl_mcp.Tools.Schemas.{IsCoherent, registered-IsCoherent}
use kubectl_mcp.Tools.Confirmation.{Kept, execute_delete-token}
use kubectl_mcp.Tools.Serving.{mcp_handler, mcp_handler-total}

abbrev counting : String → ToolHandler ℕ String String
counting function args runs = (suc runs, inl function)

abbrev server : ServerState ℕ String String String
server = record {
  cluster = 0;
  manager = record {
    kubeconfig_path = "config";
    raw_config = record { contexts = []; clusters = []; current_context = "dev" };
    contexts = [];
    current_ctx = "dev";
    client_pool = [];
    service_indexers = [];
  };
}

abbrev serving :
    String → ToolHandler (ServerState ℕ String String String) (ToolResult String) String
serving function args s = (record s { cluster = suc s.cluster }, inl (plain function))

abbrev clock : Clock
clock = record { now = 10; duration = 2_000_000 }

registered_delete_pod :
    get_tool "delete_pod" (init_tool_registry counting).0 ≡ some (delete_pod_tool counting)
unfolding get_tool lookup
registered_delete_pod = rw (init_tool_registry_lem counting)

registered_get_pods :
    get_tool "get_pods" (init_tool_registry counting).0 ≡ some (get_pods_tool counting)
unfolding get_tool lookup
registered_get_pods = rw (init_tool_registry_lem counting)

init_tool_registry_lem_example :
    init_tool_registry counting ≡ (map (λ tool. (tool.name, tool)) (all_tools counting), none)
init_tool_registry_lem_example = init_tool_registry_lem counting

abbrev schema_or_empty : Option InputSchema → InputSchema
schema_or_empty none = record { kind = "object"; properties = []; required = [] }
schema_or_empty (some schema) = schema

registered-IsCoherent_example : IsCoherent (schema_or_empty (delete_pod_tool counting).input_schema)
registered-IsCoherent_example =
    registered-IsCoherent counting "delete_pod" (delete_pod_tool counting) _ registered_delete_pod
      refl

abbrev no_token : Args
no_token = ("name", Value.str "web") ∷ []

execute_delete-token_example :
    Kept 0 (execute_tool (init_tool_registry counting).0 "delete_pod" no_token 0)
    ⊎ ((t : String) × (lookup "confirmationToken" no_token ≡ some (Value.str t)))
execute_delete-token_example =
    execute_delete-token counting "delete_pod" (delete_pod_tool counting) no_token 0
      registered_delete_pod refl
      (λ e. ground (arith, str_eq_iff "delete_pod" "preview_delete_resources"))

mcp_handler-total_example :
    is_some
      (handle_tool_call
        (λ r. some "json")
        clock
        (mcp_handler serving "1.0.0" 0)
        none
        server
        (some [])).response
    ≡ true
mcp_handler-total_example =
    mcp_handler-total serving (λ r. some "json") clock "1.0.0" 0 none server (some [])
