-- ===== src/Http/Tables.antt =====
-- internal/server/cache.go: `CacheableTools`, `InvalidatingTools` and their lookups.
use kubectl_mcp.Prelude.{String, Bool, true, false, Option, none, some, List, [], ◌∷◌, string_eq}
use kubectl_mcp.GoMap.{GoMap, lookup}

abbrev pub cacheable_tools : GoMap String Bool
cacheable_tools =
    ("get_nodes", true)
    ∷ ("get_namespaces", true)
    ∷ ("get_pods", true)
    ∷ ("get_deployments", true)
    ∷ ("get_statefulsets", true)
    ∷ ("get_daemonsets", true)
    ∷ ("get_services", true)
    ∷ ("get_configmaps", true)
    ∷ ("get_secrets", true)
    ∷ ("get_events", true)
    ∷ ("describe_resource", true)
    ∷ []

abbrev pub invalidating_tools : GoMap String (List String)
invalidating_tools =
    ("create_namespace", "get_namespaces" ∷ [])
    ∷ ("create_pod", "get_pods" ∷ [])
    ∷ ("create_deployment", "get_deployments" ∷ "get_pods" ∷ [])
    ∷ ("create_service", "get_services" ∷ [])
    ∷ ("create_configmap", "get_configmaps" ∷ [])
    ∷ ("create_secret", "get_secrets" ∷ [])
    ∷ ("delete_namespace", "get_namespaces" ∷ [])
    ∷ ("delete_pod", "get_pods" ∷ [])
    ∷ ("delete_deployment", "get_deployments" ∷ "get_pods" ∷ [])
    ∷ ("delete_service", "get_services" ∷ [])
    ∷ ("delete_configmap", "get_configmaps" ∷ [])
    ∷ ("delete_secret", "get_secrets" ∷ [])
    ∷ ("scale_deployment", "get_deployments" ∷ "get_pods" ∷ [])
    ∷ ("scale_statefulset", "get_statefulsets" ∷ "get_pods" ∷ [])
    ∷ ("update_deployment_image", "get_deployments" ∷ "get_pods" ∷ [])
    ∷ ("restart_deployment", "get_deployments" ∷ "get_pods" ∷ [])
    ∷ ("apply_yaml", [])
    ∷ ("patch_resource", [])
    ∷ []

-- a missing key reads as false, and as the empty list
or_false : Option Bool → Bool
or_false none = false
or_false (some b) = b

unfoldable pub or_empty : Option (List String) → List String
or_empty none = []
or_empty (some tools) = tools

unfoldable pub is_cacheable : String → Bool
unfolding or_false
is_cacheable tool_name = or_false (lookup tool_name cacheable_tools)

unfoldable pub get_invalidated_tools : String → List String
unfolding or_empty
get_invalidated_tools tool_name = or_empty (lookup tool_name invalidating_tools)
