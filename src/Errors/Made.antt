-- ===== src/Errors/Made.antt =====
-- The errors that the constructors of pkg/utils/errors.go make.
use kubectl_mcp.Prelude.{String, true, some, string_eq, List, ◌≡◌, refl}
use kubectl_mcp.GoMap.{lookup}
use kubectl_mcp.Errors.Tables.{error_messages, suggestion_map}
use kubectl_mcp.Errors.{ErrorInfo, new_error_info}
use kubectl_mcp.Errors.Format.{get_suggestion}
use kubectl_mcp.Errors.Classify.Messages.{is_known}
use kubectl_mcp.Errors.Constructors.{
  new_kubeconfig_not_found_error, new_kubeconfig_invalid_error, new_context_not_found_error,
  new_cluster_unreachable_error, new_connection_timeout_error, new_auth_failed_error,
  new_permission_denied_error, new_resource_not_found_error, new_resource_already_exists_error,
  new_invalid_arguments_error, new_missing_arguments_error, new_tool_not_found_error,
  new_invalid_yaml_error, new_request_timeout_error, new_internal_error,
}

-- an error that one of the functions makes
pub data IsMade : ErrorInfo → Type 0 where
  is_kubeconfig_not_found : (path : String) → IsMade (new_kubeconfig_not_found_error path)
  is_kubeconfig_invalid : (details : String) → IsMade (new_kubeconfig_invalid_error details)
  is_context_not_found : (context_name : String) → IsMade (new_context_not_found_error context_name)
  is_cluster_unreachable : (details : String) → IsMade (new_cluster_unreachable_error details)
  is_connection_timeout : (details : String) → IsMade (new_connection_timeout_error details)
  is_auth_failed : (details : String) → IsMade (new_auth_failed_error details)
  is_permission_denied :
      (resource action : String) → IsMade (new_permission_denied_error resource action)
  is_resource_not_found :
      (resource_type resource_name namespace : String)
      → IsMade (new_resource_not_found_error resource_type resource_name namespace)
  is_resource_already_exists :
      (resource_type resource_name namespace : String)
      → IsMade (new_resource_already_exists_error resource_type resource_name namespace)
  is_invalid_arguments :
      (param_name reason : String) → IsMade (new_invalid_arguments_error param_name reason)
  is_missing_arguments :
      (param_names : List String) → IsMade (new_missing_arguments_error param_names)
  is_tool_not_found : (tool_name : String) → IsMade (new_tool_not_found_error tool_name)
  is_invalid_yaml : (details : String) → IsMade (new_invalid_yaml_error details)
  is_request_timeout : (operation : String) → IsMade (new_request_timeout_error operation)
  is_internal : (details : String) → IsMade (new_internal_error details)

-- the type and the code are known, and the message and the suggestion are those of the code
unfoldable pub IsOwn : ErrorInfo → Type 0
IsOwn e =
    (is_known (e.kind, e.code) ≡ true)
    × ((lookup e.code error_messages ≡ some e.message)
        × (lookup e.code suggestion_map ≡ some e.suggestion))

-- An error that one of the fifteen `New…Error` functions makes has a known type and code, and the
-- message and the suggestion that `getErrorMessage` and the `suggestionMap` have for the code.
pub IsMade-IsOwn : {e : ErrorInfo} → IsMade e → IsOwn e
unfolding IsOwn is_known lookup get_suggestion new_error_info new_kubeconfig_not_found_error
    new_kubeconfig_invalid_error new_context_not_found_error new_cluster_unreachable_error
    new_connection_timeout_error new_auth_failed_error new_permission_denied_error
    new_resource_not_found_error new_resource_already_exists_error new_invalid_arguments_error
    new_missing_arguments_error new_tool_not_found_error new_invalid_yaml_error
    new_request_timeout_error new_internal_error
IsMade-IsOwn (is_kubeconfig_not_found path) = (refl, (refl, refl))
IsMade-IsOwn (is_kubeconfig_invalid details) = (refl, (refl, refl))
IsMade-IsOwn (is_context_not_found context_name) = (refl, (refl, refl))
IsMade-IsOwn (is_cluster_unreachable details) = (refl, (refl, refl))
IsMade-IsOwn (is_connection_timeout details) = (refl, (refl, refl))
IsMade-IsOwn (is_auth_failed details) = (refl, (refl, refl))
IsMade-IsOwn (is_permission_denied resource action) = (refl, (refl, refl))
IsMade-IsOwn (is_resource_not_found resource_type resource_name namespace) = (refl, (refl, refl))
IsMade-IsOwn (is_resource_already_exists resource_type resource_name namespace) =
    (refl, (refl, refl))
IsMade-IsOwn (is_invalid_arguments param_name reason) = (refl, (refl, refl))
IsMade-IsOwn (is_missing_arguments param_names) = (refl, (refl, refl))
IsMade-IsOwn (is_tool_not_found tool_name) = (refl, (refl, refl))
IsMade-IsOwn (is_invalid_yaml details) = (refl, (refl, refl))
IsMade-IsOwn (is_request_timeout operation) = (refl, (refl, refl))
IsMade-IsOwn (is_internal details) = (refl, (refl, refl))
