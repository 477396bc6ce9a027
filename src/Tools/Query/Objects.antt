-- ===== src/Tools/Query/Objects.antt =====
-- internal/tools/register_query.go: tools of `RegisterQueryTools`.
use kubectl_mcp.Prelude.{String, some, [], ◌∷◌, true, false}
use kubectl_mcp.Prelude.Int.{pos}
use kubectl_mcp.Value.{Value}
use kubectl_mcp.Registry.{ToolCategory, ToolHandler, Tool}
use kubectl_mcp.Tools.Schema.{param, param_of}

module _ {W R E : Type 0} (handlers : String → ToolHandler W R E) where
  abbrev pub get_services_tool : Tool W R E
  get_services_tool = record {
    name = "get_services";
    description = "查询 Service 列表，支持按命名空间、名称、标签过滤，返回类型、ClusterIP、端口等信息。默认搜索所有命名空间";
    category = ToolCategory.query;
    requires_confirmation = false;
    input_schema = some (record {
      kind = "object";
      properties =
          ("context", param "string" "Kubernetes context 名称，不指定则使用当前 context" false)
          ∷ ("namespace", param "string" "命名空间名称。留空将搜索所有命名空间（推荐），只有当用户明确指定命名空间时才传递此参数" false)
          ∷ ("name", param "string" "Service 名称，用于精确匹配" false)
          ∷ ("labelSelector", param "string" "标签选择器" false)
          ∷ (
            "verbose",
            param_of "boolean" "是否返回详细信息（labels、selector、createdAt 等），默认 false 返回精简数据" false
                (some (Value.bool false)) [],
          )
          ∷ [];
      required = [];
    });
    handler = some (handlers "GetServices");
    example = "{\"tool\": \"get_services\", \"arguments\": {\"labelSelector\": \"app=nginx\"}}";
    risk_level = "low";
  }

  abbrev pub get_configmaps_tool : Tool W R E
  get_configmaps_tool = record {
    name = "get_configmaps";
    description = "查询 ConfigMap 列表，支持按命名空间、名称、标签过滤，返回名称、数据键列表等信息";
    category = ToolCategory.query;
    requires_confirmation = false;
    input_schema = some (record {
      kind = "object";
      properties =
          ("context", param "string" "Kubernetes context 名称，不指定则使用当前 context" false)
          ∷ ("namespace", param "string" "命名空间，不指定则查询所有命名空间" false)
          ∷ ("name", param "string" "ConfigMap 名称，用于精确匹配" false)
          ∷ ("labelSelector", param "string" "标签选择器" false)
          ∷ (
            "verbose",
            param_of "boolean" "是否返回详细信息（labels、createdAt 等），默认 false 返回精简数据" false
                (some (Value.bool false)) [],
          )
          ∷ [];
      required = [];
    });
    handler = some (handlers "GetConfigMaps");
    example = "{\"tool\": \"get_configmaps\", \"arguments\": {\"namespace\": \"default\"}}";
    risk_level = "low";
  }

  abbrev pub get_secrets_tool : Tool W R E
  get_secrets_tool = record {
    name = "get_secrets";
    description = "查询 Secret 列表（脱敏处理，只返回键名不返回值），支持按命名空间、名称、标签过滤";
    category = ToolCategory.query;
    requires_confirmation = false;
    input_schema = some (record {
      kind = "object";
      properties =
          ("context", param "string" "Kubernetes context 名称，不指定则使用当前 context" false)
          ∷ ("namespace", param "string" "命名空间，不指定则查询所有命名空间" false)
          ∷ ("name", param "string" "Secret 名称，用于精确匹配" false)
          ∷ ("labelSelector", param "string" "标签选择器" false)
          ∷ (
            "verbose",
            param_of "boolean" "是否返回详细信息（labels、createdAt 等），默认 false 返回精简数据" false
                (some (Value.bool false)) [],
          )
          ∷ [];
      required = [];
    });
    handler = some (handlers "GetSecrets");
    example = "{\"tool\": \"get_secrets\", \"arguments\": {\"namespace\": \"default\"}}";
    risk_level = "low";
  }

  abbrev pub describe_resource_tool : Tool W R E
  describe_resource_tool = record {
    name = "describe_resource";
    description =
        "获取 Kubernetes 资源的详细信息，支持 Pod、Deployment、Service、ConfigMap、Secret、Node、Namespace、StatefulSet、DaemonSet";
    category = ToolCategory.query;
    requires_confirmation = false;
    input_schema = some (record {
      kind = "object";
      properties =
          ("context", param "string" "Kubernetes context 名称，不指定则使用当前 context" false)
          ∷ (
            "kind",
            param "string"
                "资源类型，支持: pod, deployment, service, configmap, secret, node, namespace, statefulset, daemonset"
                true,
          )
          ∷ ("name", param "string" "资源名称" true)
          ∷ ("namespace", param "string" "命名空间（Node 和 Namespace 类型不需要）" false)
          ∷ (
            "verbose",
            param_of "boolean" "是否返回详细信息（完整 Spec、Status、Labels、Annotations），默认 false 返回关键字段" false
                (some (Value.bool false)) [],
          )
          ∷ [];
      required = "kind" ∷ "name" ∷ [];
    });
    handler = some (handlers "DescribeResource");
    example =
        "{\"tool\": \"describe_resource\", \"arguments\": {\"kind\": \"pod\", \"name\": \"nginx-xxx\", \"namespace\": \"default\"}}";
    risk_level = "low";
  }

  abbrev pub get_pod_logs_tool : Tool W R E
  get_pod_logs_tool = record {
    name = "get_pod_logs";
    description = "获取 Pod 的日志，支持指定容器、tailLines 行数限制、previous 崩溃前日志、since/sinceMinutes 时间窗口";
    category = ToolCategory.query;
    requires_confirmation = false;
    input_schema = some (record {
      kind = "object";
      properties =
          ("context", param "string" "Kubernetes context 名称，不指定则使用当前 context" false)
          ∷ ("name", param "string" "Pod 名称" true)
          ∷ ("namespace", param "string" "命名空间，默认为 default" false)
          ∷ ("container", param "string" "容器名称，多容器 Pod 时需要指定" false)
          ∷ ("tailLines", param_of "integer" "返回的日志行数，默认 100" false (some (Value.int (pos 100))) [])
          ∷ (
            "previous",
            param_of "boolean" "是否查看前一个容器的日志（容器重启后）" false (some (Value.bool false)) [],
          )
          ∷ (
            "since",
            param "string" "仅返回该 RFC3339 时间之后的日志，如 2026-07-08T08:00:00Z；优先级高于 sinceMinutes" false,
          )
          ∷ ("sinceMinutes", param "integer" "仅返回最近多少分钟日志" false)
          ∷ [];
      required = "name" ∷ [];
    });
    handler = some (handlers "GetPodLogs");
    example =
        "{\"tool\": \"get_pod_logs\", \"arguments\": {\"name\": \"nginx-xxx\", \"namespace\": \"default\", \"tailLines\": 100}}";
    risk_level = "low";
  }

  abbrev pub get_events_tool : Tool W R E
  get_events_tool = record {
    name = "get_events";
    description = "查询 Kubernetes 事件列表，支持按命名空间、资源类型和名称过滤";
    category = ToolCategory.query;
    requires_confirmation = false;
    input_schema = some (record {
      kind = "object";
      properties =
          ("context", param "string" "Kubernetes context 名称，不指定则使用当前 context" false)
          ∷ ("namespace", param "string" "命名空间，不指定则查询所有命名空间" false)
          ∷ ("labelSelector", param "string" "标签选择器" false)
          ∷ ("involvedObjectKind", param "string" "关联对象类型，如 Pod、Deployment、Node 等" false)
          ∷ ("involvedObjectName", param "string" "关联对象名称，需要与 involvedObjectKind 一起使用" false)
          ∷ (
            "verbose",
            param_of "boolean" "是否返回详细信息（name、source、firstTimestamp、完整 message），默认 false 返回精简数据"
                false (some (Value.bool false)) [],
          )
          ∷ [];
      required = [];
    });
    handler = some (handlers "GetEvents");
    example =
        "{\"tool\": \"get_events\", \"arguments\": {\"namespace\": \"default\", \"involvedObjectKind\": \"Pod\", \"involvedObjectName\": \"nginx-xxx\"}}";
    risk_level = "low";
  }

  abbrev pub get_ingresses_tool : Tool W R E
  get_ingresses_tool = record {
    name = "get_ingresses";
    description = "查询 Ingress 列表，返回域名、路径、后端 Service 等信息";
    category = ToolCategory.query;
    requires_confirmation = false;
    input_schema = some (record {
      kind = "object";
      properties =
          ("context", param "string" "Kubernetes context 名称，不指定则使用当前 context" false)
          ∷ ("namespace", param "string" "命名空间，不指定则查询所有命名空间" false)
          ∷ ("name", param "string" "Ingress 名称，用于精确匹配" false)
          ∷ ("labelSelector", param "string" "标签选择器" false)
          ∷ (
            "verbose",
            param_of "boolean" "是否返回详细信息（labels、annotations、createdAt），默认 false 返回精简数据" false
                (some (Value.bool false)) [],
          )
          ∷ [];
      required = [];
    });
    handler = some (handlers "GetIngresses");
    example = "{\"tool\": \"get_ingresses\", \"arguments\": {\"namespace\": \"default\"}}";
    risk_level = "low";
  }
