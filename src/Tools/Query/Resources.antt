-- ===== src/Tools/Query/Resources.antt =====
-- internal/tools/register_query.go: tools of `RegisterQueryTools`.
use kubectl_mcp.Prelude.{String, some, none, [], ◌∷◌, true, false}
use kubectl_mcp.Value.{Value}
use kubectl_mcp.Registry.{ToolCategory, ToolHandler, Tool}
use kubectl_mcp.Tools.Schema.{param, param_of, texts}

module _ {W R E : Type 0} (handlers : String → ToolHandler W R E) where
  abbrev pub get_nodes_tool : Tool W R E
  get_nodes_tool = record {
    name = "get_nodes";
    description = "查询 Kubernetes 集群的节点列表，返回节点名称、状态、角色、版本、IP 地址等信息";
    category = ToolCategory.query;
    requires_confirmation = false;
    input_schema = some (record {
      kind = "object";
      properties =
          ("context", param "string" "Kubernetes context 名称，不指定则使用当前 context" false)
          ∷ (
            "labelSelector",
            param "string" "标签选择器，格式如 'key=value' 或 'key1=value1,key2=value2'" false,
          )
          ∷ (
            "verbose",
            param_of "boolean" "是否返回详细信息（labels、annotations、createdAt 等），默认 false 返回精简数据" false
                (some (Value.bool false)) [],
          )
          ∷ [];
      required = [];
    });
    handler = some (handlers "GetNodes");
    example =
        "{\"tool\": \"get_nodes\", \"arguments\": {\"labelSelector\": \"node-role.kubernetes.io/master=\"}}";
    risk_level = "low";
  }

  abbrev pub get_namespaces_tool : Tool W R E
  get_namespaces_tool = record {
    name = "get_namespaces";
    description = "查询 Kubernetes 集群的命名空间列表，返回命名空间名称、状态、标签等信息";
    category = ToolCategory.query;
    requires_confirmation = false;
    input_schema = some (record {
      kind = "object";
      properties =
          ("context", param "string" "Kubernetes context 名称，不指定则使用当前 context" false)
          ∷ ("labelSelector", param "string" "标签选择器，格式如 'key=value'" false)
          ∷ (
            "verbose",
            param_of "boolean" "是否返回详细信息（labels、createdAt 等），默认 false 返回精简数据" false
                (some (Value.bool false)) [],
          )
          ∷ [];
      required = [];
    });
    handler = some (handlers "GetNamespaces");
    example = "{\"tool\": \"get_namespaces\", \"arguments\": {}}";
    risk_level = "low";
  }

  abbrev pub get_pods_tool : Tool W R E
  get_pods_tool = record {
    name = "get_pods";
    description =
        "查询 Pod 列表，支持按命名空间、名称、标签过滤，返回 Pod 名称、状态、IP、节点、容器信息等。默认搜索所有命名空间，只有在用户明确指定命名空间时才传递namespace参数";
    category = ToolCategory.query;
    requires_confirmation = false;
    input_schema = some (record {
      kind = "object";
      properties =
          ("context", param "string" "Kubernetes context 名称，不指定则使用当前 context" false)
          ∷ (
            "namespace",
            param "string" "命名空间名称。留空（不传递此参数）将自动搜索所有命名空间，这是推荐的默认行为。只有当用户明确指定命名空间时才传递此参数" false,
          )
          ∷ ("name", param "string" "Pod 名称，用于精确匹配" false)
          ∷ ("labelSelector", param "string" "标签选择器，格式如 'app=nginx' 或 'app=nginx,version=v1'" false)
          ∷ (
            "verbose",
            param_of "boolean" "是否返回详细信息（labels、phase、createdAt 等），默认 false 返回精简数据" false
                (some (Value.bool false)) [],
          )
          ∷ [];
      required = [];
    });
    handler = some (handlers "GetPods");
    example = "{\"tool\": \"get_pods\", \"arguments\": {\"labelSelector\": \"app=nginx\"}}";
    risk_level = "low";
  }

  abbrev pub get_resource_filter_tool : Tool W R E
  get_resource_filter_tool = record {
    name = "get_resource_filter";
    description =
        "在整个集群的所有命名空间中快速查找指定类型的资源，返回资源的详细信息和所在命名空间。支持精确匹配和模糊匹配两种模式。支持的资源类型：Pod、Deployment、Service、StatefulSet、DaemonSet、ConfigMap、Secret。适用于需要快速定位特定资源位置的场景，特别是删除操作前的查询确认";
    category = ToolCategory.query;
    requires_confirmation = false;
    input_schema = some (record {
      kind = "object";
      properties =
          ("context", param "string" "Kubernetes context 名称，不指定则使用当前 context" false)
          ∷ (
            "kind",
            param_of "string"
                "资源类型（必填）。支持：Pod、Deployment、Service、StatefulSet、DaemonSet、ConfigMap、Secret" true
                none
                (texts (
                  "Pod" ∷ "Deployment" ∷ "Service" ∷ "StatefulSet" ∷ "DaemonSet" ∷ "ConfigMap"
                  ∷ "Secret" ∷ [])),
          )
          ∷ ("name", param "string" "资源名称（必填）。根据 matchMode 参数决定匹配方式" true)
          ∷ (
            "matchMode",
            param_of "string"
                "匹配模式：exact(精确匹配，默认) 或 fuzzy(模糊匹配)。精确匹配用于已知完整资源名称的场景（如删除操作前确认），模糊匹配用于搜索相关资源" false
                (some (Value.str "exact")) (texts ("exact" ∷ "fuzzy" ∷ [])),
          )
          ∷ (
            "verbose",
            param_of "boolean" "是否返回详细信息（labels、createdAt、selector 等），默认 false 返回精简数据" false
                (some (Value.bool false)) [],
          )
          ∷ [];
      required = "kind" ∷ "name" ∷ [];
    });
    handler = some (handlers "GetResourceFilter");
    example =
        "{\"tool\": \"get_resource_filter\", \"arguments\": {\"kind\": \"Pod\", \"name\": \"nginx-deployment-7d64c8d-abc123\", \"matchMode\": \"exact\"}}";
    risk_level = "low";
  }

  abbrev pub get_deployments_tool : Tool W R E
  get_deployments_tool = record {
    name = "get_deployments";
    description = "查询 Deployment 列表，支持按命名空间、名称、标签过滤，返回副本数、镜像、策略等信息。默认搜索所有命名空间";
    category = ToolCategory.query;
    requires_confirmation = false;
    input_schema = some (record {
      kind = "object";
      properties =
          ("context", param "string" "Kubernetes context 名称，不指定则使用当前 context" false)
          ∷ ("namespace", param "string" "命名空间名称。留空将搜索所有命名空间（推荐），只有当用户明确指定命名空间时才传递此参数" false)
          ∷ ("name", param "string" "Deployment 名称，用于精确匹配" false)
          ∷ ("labelSelector", param "string" "标签选择器" false)
          ∷ (
            "verbose",
            param_of "boolean" "是否返回详细信息（labels、selector、createdAt、strategy 等），默认 false 返回精简数据"
                false (some (Value.bool false)) [],
          )
          ∷ [];
      required = [];
    });
    handler = some (handlers "GetDeployments");
    example = "{\"tool\": \"get_deployments\", \"arguments\": {\"labelSelector\": \"app=nginx\"}}";
    risk_level = "low";
  }

  abbrev pub get_statefulsets_tool : Tool W R E
  get_statefulsets_tool = record {
    name = "get_statefulsets";
    description = "查询 StatefulSet 列表，支持按命名空间、名称、标签过滤，返回副本数、镜像、服务名等信息";
    category = ToolCategory.query;
    requires_confirmation = false;
    input_schema = some (record {
      kind = "object";
      properties =
          ("context", param "string" "Kubernetes context 名称，不指定则使用当前 context" false)
          ∷ ("namespace", param "string" "命名空间，不指定则查询所有命名空间" false)
          ∷ ("name", param "string" "StatefulSet 名称，用于精确匹配" false)
          ∷ ("labelSelector", param "string" "标签选择器" false)
          ∷ (
            "verbose",
            param_of "boolean" "是否返回详细信息（labels、createdAt 等），默认 false 返回精简数据" false
                (some (Value.bool false)) [],
          )
          ∷ [];
      required = [];
    });
    handler = some (handlers "GetStatefulSets");
    example = "{\"tool\": \"get_statefulsets\", \"arguments\": {\"namespace\": \"default\"}}";
    risk_level = "low";
  }

  abbrev pub get_daemonsets_tool : Tool W R E
  get_daemonsets_tool = record {
    name = "get_daemonsets";
    description = "查询 DaemonSet 列表，支持按命名空间、名称、标签过滤，返回调度数量、镜像、节点选择器等信息";
    category = ToolCategory.query;
    requires_confirmation = false;
    input_schema = some (record {
      kind = "object";
      properties =
          ("context", param "string" "Kubernetes context 名称，不指定则使用当前 context" false)
          ∷ ("namespace", param "string" "命名空间，不指定则查询所有命名空间" false)
          ∷ ("name", param "string" "DaemonSet 名称，用于精确匹配" false)
          ∷ ("labelSelector", param "string" "标签选择器" false)
          ∷ (
            "verbose",
            param_of "boolean" "是否返回详细信息（labels、nodeSelector、createdAt 等），默认 false 返回精简数据" false
                (some (Value.bool false)) [],
          )
          ∷ [];
      required = [];
    });
    handler = some (handlers "GetDaemonSets");
    example = "{\"tool\": \"get_daemonsets\", \"arguments\": {\"namespace\": \"kube-system\"}}";
    risk_level = "low";
  }
