-- ===== src/Errors/Constructors.antt =====
-- pkg/utils/errors.go: `NewKubeconfigNotFoundError` and the other functions that make an `ErrorInfo`.
use Prim.Native.String.{◌++◌}
use kubectl_mcp.Prelude.{String, List, [], ◌∷◌, str_eq, if◌then◌else◌}
use kubectl_mcp.Errors.{ErrorInfo, new_error_info}
use kubectl_mcp.Errors.Format.{get_suggestion}

with_details : ErrorInfo → String → ErrorInfo
with_details e details = record e { details = details }

with_suggestion : ErrorInfo → String → ErrorInfo
with_suggestion e suggestion = record e { suggestion = suggestion }

-- `strings.Join`
join_texts : String → List String → String
join_texts separator [] = ""
join_texts separator (t ∷ []) = t
join_texts separator (t ∷ u ∷ texts) = t ++ separator ++ join_texts separator (u ∷ texts)

-- the text of the details that two functions build
object_details : String → String → String → String
object_details resource_type resource_name namespace =
    let details : String = "类型: " ++ resource_type ++ ", 名称: " ++ resource_name in
    if str_eq namespace "" then details else details ++ ", 命名空间: " ++ namespace

unfoldable pub new_kubeconfig_not_found_error : String → ErrorInfo
unfolding with_suggestion with_details
new_kubeconfig_not_found_error path =
    with_suggestion
      (with_details (new_error_info "CLIENT_ERROR" "KUBECONFIG_NOT_FOUND" "kubeconfig 文件未找到")
        ("路径: " ++ path))
      (get_suggestion "KUBECONFIG_NOT_FOUND")

unfoldable pub new_kubeconfig_invalid_error : String → ErrorInfo
unfolding with_suggestion with_details
new_kubeconfig_invalid_error details =
    with_suggestion
      (with_details (new_error_info "CLIENT_ERROR" "KUBECONFIG_INVALID" "kubeconfig 文件格式无效")
        details)
      (get_suggestion "KUBECONFIG_INVALID")

unfoldable pub new_context_not_found_error : String → ErrorInfo
unfolding with_suggestion with_details
new_context_not_found_error context_name =
    with_suggestion
      (with_details (new_error_info "CLIENT_ERROR" "CONTEXT_NOT_FOUND" "指定的 context 不存在")
        ("context: " ++ context_name))
      (get_suggestion "CONTEXT_NOT_FOUND")

unfoldable pub new_cluster_unreachable_error : String → ErrorInfo
unfolding with_suggestion with_details
new_cluster_unreachable_error details =
    with_suggestion
      (with_details (new_error_info "NETWORK_ERROR" "CLUSTER_UNREACHABLE" "无法连接到 Kubernetes 集群")
        details)
      (get_suggestion "CLUSTER_UNREACHABLE")

unfoldable pub new_connection_timeout_error : String → ErrorInfo
unfolding with_suggestion with_details
new_connection_timeout_error details =
    with_suggestion (with_details (new_error_info "TIMEOUT" "CONNECTION_TIMEOUT" "连接集群超时") details)
      (get_suggestion "CONNECTION_TIMEOUT")

unfoldable pub new_auth_failed_error : String → ErrorInfo
unfolding with_suggestion with_details
new_auth_failed_error details =
    with_suggestion (with_details (new_error_info "AUTH_ERROR" "AUTH_FAILED" "集群认证失败") details)
      (get_suggestion "AUTH_FAILED")

unfoldable pub new_permission_denied_error : String → String → ErrorInfo
unfolding with_suggestion with_details
new_permission_denied_error resource action =
    with_suggestion
      (with_details (new_error_info "AUTH_ERROR" "PERMISSION_DENIED" "权限不足")
        ("无法对资源 " ++ resource ++ " 执行 " ++ action ++ " 操作"))
      (get_suggestion "PERMISSION_DENIED")

unfoldable pub new_resource_not_found_error : String → String → String → ErrorInfo
unfolding with_suggestion with_details object_details
new_resource_not_found_error resource_type resource_name namespace =
    with_suggestion
      (with_details (new_error_info "NOT_FOUND" "RESOURCE_NOT_FOUND" "资源不存在")
        (object_details resource_type resource_name namespace))
      (get_suggestion "RESOURCE_NOT_FOUND")

unfoldable pub new_resource_already_exists_error : String → String → String → ErrorInfo
unfolding with_suggestion with_details object_details
new_resource_already_exists_error resource_type resource_name namespace =
    with_suggestion
      (with_details (new_error_info "CONFLICT" "RESOURCE_ALREADY_EXISTS" "资源已存在")
        (object_details resource_type resource_name namespace))
      (get_suggestion "RESOURCE_ALREADY_EXISTS")

unfoldable pub new_invalid_arguments_error : String → String → ErrorInfo
unfolding with_suggestion with_details
new_invalid_arguments_error param_name reason =
    with_suggestion
      (with_details (new_error_info "CLIENT_ERROR" "INVALID_ARGUMENTS" "参数无效")
        ("参数: " ++ param_name ++ ", 原因: " ++ reason))
      (get_suggestion "INVALID_ARGUMENTS")

unfoldable pub new_missing_arguments_error : List String → ErrorInfo
unfolding with_suggestion with_details join_texts
new_missing_arguments_error param_names =
    with_suggestion
      (with_details (new_error_info "CLIENT_ERROR" "MISSING_ARGUMENTS" "缺少必填参数")
        ("缺少参数: " ++ join_texts ", " param_names))
      (get_suggestion "MISSING_ARGUMENTS")

unfoldable pub new_tool_not_found_error : String → ErrorInfo
unfolding with_suggestion with_details
new_tool_not_found_error tool_name =
    with_suggestion
      (with_details (new_error_info "CLIENT_ERROR" "TOOL_NOT_FOUND" "工具不存在")
        ("工具名称: " ++ tool_name))
      (get_suggestion "TOOL_NOT_FOUND")

unfoldable pub new_invalid_yaml_error : String → ErrorInfo
unfolding with_suggestion with_details
new_invalid_yaml_error details =
    with_suggestion
      (with_details (new_error_info "CLIENT_ERROR" "INVALID_YAML" "YAML 格式无效") details)
      (get_suggestion "INVALID_YAML")

unfoldable pub new_request_timeout_error : String → ErrorInfo
unfolding with_suggestion with_details
new_request_timeout_error operation =
    with_suggestion
      (with_details (new_error_info "TIMEOUT" "REQUEST_TIMEOUT" "请求处理超时") ("操作: " ++ operation))
      (get_suggestion "REQUEST_TIMEOUT")

unfoldable pub new_internal_error : String → ErrorInfo
unfolding with_suggestion with_details
new_internal_error details =
    with_suggestion
      (with_details (new_error_info "SERVER_ERROR" "INTERNAL_ERROR" "服务器内部错误") details)
      (get_suggestion "INTERNAL_ERROR")
