-- ===== src/Tools.antt =====
-- internal/tools/register_query.go, register_inspect.go, register_create.go, register_update.go and
-- delete.go: the tools that the server offers, and cmd/server/main.go: `initToolRegistry`, which
-- registers them. `handlers` gives the function of internal/tools that has the name.
pub mod Schema
pub mod Query
pub mod Inspect
pub mod Create
pub mod Update
pub mod Delete
pub mod Table
pub mod Schemas
pub mod Confirmation
pub mod Caching
pub mod Serving
mod Tests
use kubectl_mcp.Prelude.{String, Option, none, some, List, [], ◌∷◌, ◌++◌}
use kubectl_mcp.Registry.{ToolHandler, Tool, ToolRegistry, ToolError, new_tool_registry}
use kubectl_mcp.Tools.Schema.{and_register, register_each}
use kubectl_mcp.Tools.Query.Resources.{
  get_nodes_tool, get_namespaces_tool, get_pods_tool, get_resource_filter_tool,
  get_deployments_tool, get_statefulsets_tool, get_daemonsets_tool,
}
use kubectl_mcp.Tools.Query.Objects.{
  get_services_tool, get_configmaps_tool, get_secrets_tool, describe_resource_tool,
  get_pod_logs_tool, get_events_tool, get_ingresses_tool,
}
use kubectl_mcp.Tools.Query.Traces.{
  find_service_by_nodeport_tool, find_service_by_ingress_tool, find_workload_by_service_tool,
  trace_by_nodeport_tool, trace_by_host_tool, top_pods_tool, top_nodes_tool,
}
use kubectl_mcp.Tools.Inspect.{
  inspect_cluster_overview_tool, inspect_node_health_tool, inspect_workload_health_tool,
  inspect_event_root_causes_tool, inspect_events_tool, inspect_workload_references_tool,
  inspect_pod_diagnostics_tool, inspect_service_connectivity_tool, inspect_storage_diagnostics_tool,
  inspect_node_pressure_tool, inspect_namespace_health_tool,
}
use kubectl_mcp.Tools.Create.{
  create_namespace_tool, create_pod_tool, create_deployment_tool, create_service_tool,
  create_configmap_tool, create_secret_tool, create_from_yaml_tool,
}
use kubectl_mcp.Tools.Update.{
  scale_deployment_tool, scale_statefulset_tool, update_deployment_image_tool,
  restart_deployment_tool, apply_yaml_tool, patch_resource_tool,
}
use kubectl_mcp.Tools.Delete.{
  delete_pod_tool, delete_deployment_tool, delete_service_tool, delete_configmap_tool,
  delete_secret_tool, delete_namespace_tool, delete_resources_tool, preview_delete_resources_tool,
}

module _ {W R E : Type 0} (handlers : String → ToolHandler W R E) where
  abbrev pub query_tools : List (Tool W R E)
  query_tools =
      get_nodes_tool handlers
      ∷ get_namespaces_tool handlers
      ∷ get_pods_tool handlers
      ∷ get_resource_filter_tool handlers
      ∷ get_deployments_tool handlers
      ∷ get_statefulsets_tool handlers
      ∷ get_daemonsets_tool handlers
      ∷ get_services_tool handlers
      ∷ get_configmaps_tool handlers
      ∷ get_secrets_tool handlers
      ∷ describe_resource_tool handlers
      ∷ get_pod_logs_tool handlers
      ∷ get_events_tool handlers
      ∷ get_ingresses_tool handlers
      ∷ find_service_by_nodeport_tool handlers
      ∷ find_service_by_ingress_tool handlers
      ∷ find_workload_by_service_tool handlers
      ∷ trace_by_nodeport_tool handlers
      ∷ trace_by_host_tool handlers
      ∷ top_pods_tool handlers
      ∷ top_nodes_tool handlers
      ∷ []

  abbrev pub inspect_tools : List (Tool W R E)
  inspect_tools =
      inspect_cluster_overview_tool handlers
      ∷ inspect_node_health_tool handlers
      ∷ inspect_workload_health_tool handlers
      ∷ inspect_event_root_causes_tool handlers
      ∷ inspect_events_tool handlers
      ∷ inspect_workload_references_tool handlers
      ∷ inspect_pod_diagnostics_tool handlers
      ∷ inspect_service_connectivity_tool handlers
      ∷ inspect_storage_diagnostics_tool handlers
      ∷ inspect_node_pressure_tool handlers
      ∷ inspect_namespace_health_tool handlers
      ∷ []

  abbrev pub create_tools : List (Tool W R E)
  create_tools =
      create_namespace_tool handlers
      ∷ create_pod_tool handlers
      ∷ create_deployment_tool handlers
      ∷ create_service_tool handlers
      ∷ create_configmap_tool handlers
      ∷ create_secret_tool handlers
      ∷ create_from_yaml_tool handlers
      ∷ []

  abbrev pub update_tools : List (Tool W R E)
  update_tools =
      scale_deployment_tool handlers
      ∷ scale_statefulset_tool handlers
      ∷ update_deployment_image_tool handlers
      ∷ restart_deployment_tool handlers
      ∷ apply_yaml_tool handlers
      ∷ patch_resource_tool handlers
      ∷ []

  abbrev pub delete_tools : List (Tool W R E)
  delete_tools =
      delete_pod_tool handlers
      ∷ delete_deployment_tool handlers
      ∷ delete_service_tool handlers
      ∷ delete_configmap_tool handlers
      ∷ delete_secret_tool handlers
      ∷ delete_namespace_tool handlers
      ∷ delete_resources_tool handlers
      ∷ preview_delete_resources_tool handlers
      ∷ []

  -- `RegisterQueryTools`
  unfoldable pub register_query_tools :
      ToolRegistry W R E → ToolRegistry W R E × Option (ToolError E)
  register_query_tools = register_each query_tools

  -- `RegisterInspectTools`
  unfoldable pub register_inspect_tools :
      ToolRegistry W R E → ToolRegistry W R E × Option (ToolError E)
  register_inspect_tools = register_each inspect_tools

  -- `RegisterCreateTools`
  unfoldable pub register_create_tools :
      ToolRegistry W R E → ToolRegistry W R E × Option (ToolError E)
  register_create_tools = register_each create_tools

  -- `RegisterUpdateTools`
  unfoldable pub register_update_tools :
      ToolRegistry W R E → ToolRegistry W R E × Option (ToolError E)
  register_update_tools = register_each update_tools

  -- `RegisterDeleteTools`
  unfoldable pub register_delete_tools :
      ToolRegistry W R E → ToolRegistry W R E × Option (ToolError E)
  register_delete_tools = register_each delete_tools

  -- every tool, in the order in which the server registers them
  abbrev pub all_tools : List (Tool W R E)
  all_tools = query_tools ++ (create_tools ++ (update_tools ++ (delete_tools ++ inspect_tools)))

-- the registry, or the error with what is registered by then
unfoldable pub init_tool_registry :
    {W R E : Type 0} → (String → ToolHandler W R E) → ToolRegistry W R E × Option (ToolError E)
init_tool_registry handlers = and_register (register_inspect_tools handlers) (
    and_register (register_delete_tools handlers) (
      and_register (register_update_tools handlers) (
        and_register (register_create_tools handlers)
          (register_query_tools handlers new_tool_registry))))
