-- ===== src/Errors/Tables.antt =====
-- pkg/utils/errors.go: the messages of `getErrorMessage` and the `suggestionMap`, by error code.
use kubectl_mcp.Prelude.{String, [], ◌∷◌}
use kubectl_mcp.GoMap.{GoMap}

-- the cases of the `switch errCode`
abbrev pub error_messages : GoMap String String
error_messages =
    ("KUBECONFIG_NOT_FOUND", "kubeconfig 文件未找到")
    ∷ ("KUBECONFIG_INVALID", "kubeconfig 文件格式无效")
    ∷ ("CONTEXT_NOT_FOUND", "指定的 context 不存在")
    ∷ ("CLUSTER_UNREACHABLE", "无法连接到 Kubernetes 集群")
    ∷ ("CONNECTION_TIMEOUT", "连接集群超时")
    ∷ ("CONNECTION_REFUSED", "集群连接被拒绝")
    ∷ ("DNS_ERROR", "无法解析集群地址")
    ∷ ("AUTH_FAILED", "集群认证失败")
    ∷ ("UNAUTHORIZED", "未授权访问")
    ∷ ("PERMISSION_DENIED", "权限不足")
    ∷ ("FORBIDDEN", "禁止访问该资源")
    ∷ ("RESOURCE_NOT_FOUND", "资源不存在")
    ∷ ("RESOURCE_ALREADY_EXISTS", "资源已存在")
    ∷ ("RESOURCE_CONFLICT", "资源冲突")
    ∷ ("INVALID_RESOURCE", "资源定义无效")
    ∷ ("INVALID_ARGUMENTS", "参数无效")
    ∷ ("MISSING_ARGUMENTS", "缺少必填参数")
    ∷ ("INVALID_TOOL_NAME", "工具名称无效")
    ∷ ("TOOL_NOT_FOUND", "工具不存在")
    ∷ ("INVALID_NAMESPACE", "命名空间无效")
    ∷ ("INVALID_YAML", "YAML 格式无效")
    ∷ ("INVALID_REQUEST", "请求格式无效")
    ∷ ("REQUEST_TIMEOUT", "请求处理超时")
    ∷ ("TOO_MANY_REQUESTS", "请求过于频繁")
    ∷ ("INTERNAL_ERROR", "服务器内部错误")
    ∷ ("SERVICE_UNAVAIL", "服务暂时不可用")
    ∷ ("CONFIG_ERROR", "配置错误")
    ∷ ("INITIALIZE_FAILED", "初始化失败")
    ∷ []

abbrev pub suggestion_map : GoMap String String
suggestion_map =
    ("KUBECONFIG_NOT_FOUND", "请检查 kubeconfig 文件路径是否正确，或设置 KUBECONFIG 环境变量")
    ∷ ("KUBECONFIG_INVALID", "请检查 kubeconfig 文件格式是否正确，可使用 kubectl config view 验证")
    ∷ ("CONTEXT_NOT_FOUND", "请使用 kubectl config get-contexts 查看可用的 context 列表")
    ∷ ("CLUSTER_UNREACHABLE", "请检查集群地址是否正确，网络是否可达，可使用 kubectl cluster-info 测试连接")
    ∷ ("CONNECTION_TIMEOUT", "请检查网络连接和集群状态，可能需要增加超时时间或检查防火墙设置")
    ∷ ("CONNECTION_REFUSED", "请确认 Kubernetes API Server 是否正在运行，端口是否正确")
    ∷ ("DNS_ERROR", "请检查集群地址是否正确，DNS 服务是否正常")
    ∷ ("AUTH_FAILED", "请检查 kubeconfig 中的认证信息是否有效，证书是否过期")
    ∷ ("UNAUTHORIZED", "请检查是否已正确配置认证信息，或联系管理员获取访问权限")
    ∷ ("PERMISSION_DENIED", "当前用户没有执行此操作的权限，请联系集群管理员配置 RBAC 权限")
    ∷ ("FORBIDDEN", "访问被禁止，请检查 RBAC 配置或联系管理员")
    ∷ ("RESOURCE_NOT_FOUND", "请检查资源名称和命名空间是否正确，可使用 kubectl get 命令确认资源是否存在")
    ∷ ("RESOURCE_ALREADY_EXISTS", "资源已存在，如需更新请使用 update 或 apply 操作")
    ∷ ("RESOURCE_CONFLICT", "资源版本冲突，请获取最新版本后重试")
    ∷ ("INVALID_RESOURCE", "请检查资源定义是否符合 Kubernetes API 规范")
    ∷ ("INVALID_ARGUMENTS", "请检查参数格式和类型是否正确")
    ∷ ("MISSING_ARGUMENTS", "请提供所有必填参数")
    ∷ ("INVALID_TOOL_NAME", "请检查工具名称是否正确，可使用 GET /tools 获取可用工具列表")
    ∷ ("TOOL_NOT_FOUND", "请使用 GET /tools 获取可用工具列表")
    ∷ ("INVALID_NAMESPACE", "请检查命名空间名称是否正确，可使用 get_namespaces 工具查看可用命名空间")
    ∷ ("INVALID_YAML", "请检查 YAML 格式是否正确，确保缩进和语法无误")
    ∷ ("INVALID_REQUEST", "请检查请求格式是否符合 API 规范")
    ∷ ("REQUEST_TIMEOUT", "请求处理超时，请稍后重试或检查集群状态")
    ∷ ("TOO_MANY_REQUESTS", "请求过于频繁，请稍后重试")
    ∷ ("INTERNAL_ERROR", "服务器内部错误，请查看服务器日志获取详细信息")
    ∷ ("SERVICE_UNAVAIL", "服务暂时不可用，请稍后重试")
    ∷ ("CONFIG_ERROR", "请检查服务器配置是否正确")
    ∷ ("INITIALIZE_FAILED", "服务初始化失败，请检查配置和依赖服务")
    ∷ []
