-- ===== src/Mcp/Message.antt =====
-- The messages of the registry's errors, and `classifyError`, which reads messages.
use text.Mathlib.Text.{find?}
use Prim.Native.String.{◌++◌}
use kubectl_mcp.Prelude.{String, Bool, ◌||◌, is_some, if◌then◌else◌}
use kubectl_mcp.Registry.{
  ArgError, missing_required, must_not_be_nil, not_a_string, not_an_integer, not_a_boolean,
  not_an_array, not_an_object, not_in_enum, ToolError, tool_nil, name_empty, handler_nil,
  schema_nil, already_exists, not_exists, invalid, from_handler,
}
use kubectl_mcp.Mcp.{ErrorInfo}

-- `strings.Contains(s, t)`
abbrev pub contains : String → String → Bool
contains s t = is_some (find? s t)

-- a format with one `'%s'` in it
quoting : String → String → String → String
quoting before name after = before ++ " '" ++ name ++ "' " ++ after

unfoldable pub arg_error_message : ArgError → String
unfolding quoting
arg_error_message (missing_required name) = "缺少必填参数: " ++ name
arg_error_message (must_not_be_nil name) = quoting "参数" name "不能为空"
arg_error_message (not_a_string name) = quoting "参数" name "应为字符串类型"
arg_error_message (not_an_integer name) = quoting "参数" name "应为整数类型"
arg_error_message (not_a_boolean name) = quoting "参数" name "应为布尔类型"
arg_error_message (not_an_array name) = quoting "参数" name "应为数组类型"
arg_error_message (not_an_object name) = quoting "参数" name "应为对象类型"
arg_error_message (not_in_enum name) = quoting "参数" name "的值不在允许的枚举范围内"

-- `err.Error()`
unfoldable pub error_message : ToolError String → String
unfolding quoting
error_message tool_nil = "工具定义不能为空"
error_message name_empty = "工具名称不能为空"
error_message (handler_nil name) = quoting "工具" name "的处理函数不能为空"
error_message (schema_nil name) = quoting "工具" name "的输入 Schema 不能为空"
error_message (already_exists name) = quoting "工具" name "已存在"
error_message (not_exists name) = quoting "工具" name "不存在"
error_message (invalid e) = "参数验证失败: " ++ arg_error_message e
error_message (from_handler message) = message

classified : String → String → String → String → ErrorInfo
classified kind code message suggestion = record {
  kind = kind;
  code = code;
  message = message;
  details = "";
  suggestion = suggestion;
}

-- either of two words
has_either : String → String → String → Bool
has_either message s t = contains message s || contains message t

unfoldable pub classify_error : String → ErrorInfo
unfolding classified has_either
classify_error message =
    if has_either message "not found" "不存在"
    then classified "NOT_FOUND" "RESOURCE_NOT_FOUND" message "请检查资源名称和命名空间是否正确"
    else if has_either message "already exists" "已存在"
    then classified "CONFLICT" "RESOURCE_ALREADY_EXISTS" message "资源已存在，请使用更新操作或删除后重新创建"
    else if has_either message "forbidden" "权限"
    then classified "AUTH_ERROR" "PERMISSION_DENIED" message "请检查 kubeconfig 中的用户是否有足够的权限"
    else if has_either message "unauthorized" "认证"
    then classified "AUTH_ERROR" "AUTH_FAILED" message "请检查 kubeconfig 中的认证信息是否正确"
    else if has_either message "timeout" "超时"
    then classified "TIMEOUT" "CONNECTION_TIMEOUT" message "请检查网络连接和集群状态"
    else if has_either message "connection refused" "连接"
    then classified "NETWORK_ERROR" "CLUSTER_UNREACHABLE" message "请检查集群是否可达，API server 是否正常运行"
    else if has_either message "参数" "argument"
    then classified "CLIENT_ERROR" "INVALID_ARGUMENTS" message "请检查参数格式和类型是否正确"
    else classified "SERVER_ERROR" "INTERNAL_ERROR" message ""
