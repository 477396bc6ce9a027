-- ===== src/Tools/Query/Traces.antt =====
-- internal/tools/register_query.go: tools of `RegisterQueryTools`.
use kubectl_mcp.Prelude.{String, some, [], ◌∷◌, true, false}
use kubectl_mcp.Prelude.Int.{pos}
use kubectl_mcp.Value.{Value}
use kubectl_mcp.Registry.{ToolCategory, ToolHandler, Tool}
use kubectl_mcp.Tools.Schema.{param, param_of, texts}

module _ {W R E : Type 0} (handlers : String → ToolHandler W R E) where
  abbrev pub find_service_by_nodeport_tool : Tool W R E
  find_service_by_nodeport_tool = record {
    name = "find_service_by_nodeport";
    description = "通过 NodePort 端口号反向查找对应的 Service，用于快速定位使用特定端口的服务";
    category = ToolCategory.query;
    requires_confirmation = false;
    input_schema = some (record {
      kind = "object";
      properties =
          ("context", param "string" "Kubernetes context 名称，不指定则使用当前 context" false)
          ∷ ("namespace", param "string" "命名空间，不指定则查询所有命名空间" false)
          ∷ ("nodePort", param "integer" "NodePort 端口号（默认范围 30000-32767，支持自定义范围）" true)
          ∷ (
            "includeEndpoints",
            param_of "boolean" "是否包含 Endpoints 信息（Pod IP 和端口），默认 false" false
                (some (Value.bool false)) [],
          )
          ∷ (
            "verbose",
            param_of "boolean" "是否返回详细信息（labels、selector、createdAt 等），默认 false 返回精简数据" false
                (some (Value.bool false)) [],
          )
          ∷ [];
      required = "nodePort" ∷ [];
    });
    handler = some (handlers "FindServiceByNodePort");
    example =
        "{\"tool\": \"find_service_by_nodeport\", \"arguments\": {\"nodePort\": 30080, \"includeEndpoints\": true}}";
    risk_level = "low";
  }

  abbrev pub find_service_by_ingress_tool : Tool W R E
  find_service_by_ingress_tool = record {
    name = "find_service_by_ingress";
    description = "通过 Ingress 域名反向查找对应的 Service，支持多种域名匹配模式和路径过滤";
    category = ToolCategory.query;
    requires_confirmation = false;
    input_schema = some (record {
      kind = "object";
      properties =
          ("context", param "string" "Kubernetes context 名称，不指定则使用当前 context" false)
          ∷ ("namespace", param "string" "命名空间，不指定则查询所有命名空间" false)
          ∷ ("host", param "string" "Ingress 域名" true)
          ∷ ("path", param "string" "路径前缀过滤（可选），如 '/api' 或 '/v1'" false)
          ∷ (
            "matchMode",
            param_of "string"
                "域名匹配模式: exact(精确), prefix(前缀), suffix(后缀), contains(包含), wildcard(通配符), smart(智能，默认)"
                false (some (Value.str "smart"))
                (texts ("exact" ∷ "prefix" ∷ "suffix" ∷ "contains" ∷ "wildcard" ∷ "smart" ∷ [])),
          )
          ∷ (
            "includeEndpoints",
            param_of "boolean" "是否包含 Endpoints 信息（Pod IP 和端口），默认 false" false
                (some (Value.bool false)) [],
          )
          ∷ (
            "verbose",
            param_of "boolean" "是否返回详细信息（labels、selector、createdAt 等），默认 false 返回精简数据" false
                (some (Value.bool false)) [],
          )
          ∷ [];
      required = "host" ∷ [];
    });
    handler = some (handlers "FindServiceByIngress");
    example =
        "{\"tool\": \"find_service_by_ingress\", \"arguments\": {\"host\": \"api.example.com\", \"path\": \"/v1\", \"matchMode\": \"smart\"}}";
    risk_level = "low";
  }

  abbrev pub find_workload_by_service_tool : Tool W R E
  find_workload_by_service_tool = record {
    name = "find_workload_by_service";
    description =
        "通过 Service 名称反向查找对应的工作负载（Deployment、StatefulSet、DaemonSet），基于 Service selector 匹配";
    category = ToolCategory.query;
    requires_confirmation = false;
    input_schema = some (record {
      kind = "object";
      properties =
          ("context", param "string" "Kubernetes context 名称，不指定则使用当前 context" false)
          ∷ ("namespace", param "string" "命名空间，默认为 default" false)
          ∷ ("serviceName", param "string" "Service 名称" true)
          ∷ (
            "includeEndpoints",
            param_of "boolean" "是否包含 Endpoints 信息（Pod IP 和端口），默认 false" false
                (some (Value.bool false)) [],
          )
          ∷ (
            "verbose",
            param_of "boolean" "是否返回详细信息（labels、selector、createdAt 等），默认 false 返回精简数据" false
                (some (Value.bool false)) [],
          )
          ∷ [];
      required = "serviceName" ∷ [];
    });
    handler = some (handlers "FindWorkloadByService");
    example =
        "{\"tool\": \"find_workload_by_service\", \"arguments\": {\"serviceName\": \"nginx-service\", \"namespace\": \"default\", \"includeEndpoints\": true}}";
    risk_level = "low";
  }

  abbrev pub trace_by_nodeport_tool : Tool W R E
  trace_by_nodeport_tool = record {
    name = "trace_by_nodeport";
    description = "通过 NodePort 端口号追踪完整链路，一次调用返回 NodePort → Service → Workload 的完整关系链";
    category = ToolCategory.query;
    requires_confirmation = false;
    input_schema = some (record {
      kind = "object";
      properties =
          ("context", param "string" "Kubernetes context 名称，不指定则使用当前 context" false)
          ∷ ("namespace", param "string" "命名空间，不指定则查询所有命名空间" false)
          ∷ ("nodePort", param "integer" "NodePort 端口号" true)
          ∷ (
            "verbose",
            param_of "boolean" "是否返回详细信息（labels、selector、createdAt 等），默认 false 返回精简数据" false
                (some (Value.bool false)) [],
          )
          ∷ [];
      required = "nodePort" ∷ [];
    });
    handler = some (handlers "TraceByNodePort");
    example = "{\"tool\": \"trace_by_nodeport\", \"arguments\": {\"nodePort\": 30080}}";
    risk_level = "low";
  }

  abbrev pub trace_by_host_tool : Tool W R E
  trace_by_host_tool = record {
    name = "trace_by_host";
    description = "通过域名追踪完整链路，一次调用返回 Host → Ingress → Service → Workload 的完整关系链";
    category = ToolCategory.query;
    requires_confirmation = false;
    input_schema = some (record {
      kind = "object";
      properties =
          ("context", param "string" "Kubernetes context 名称，不指定则使用当前 context" false)
          ∷ ("namespace", param "string" "命名空间，不指定则查询所有命名空间" false)
          ∷ ("host", param "string" "域名" true)
          ∷ ("path", param "string" "路径前缀过滤（可选）" false)
          ∷ (
            "matchMode",
            param_of "string" "域名匹配模式: exact, prefix, suffix, contains, wildcard, smart(默认)" false
                (some (Value.str "smart"))
                (texts ("exact" ∷ "prefix" ∷ "suffix" ∷ "contains" ∷ "wildcard" ∷ "smart" ∷ [])),
          )
          ∷ (
            "verbose",
            param_of "boolean" "是否返回详细信息（labels、annotations、selector、createdAt 等），默认 false 返回精简数据"
                false (some (Value.bool false)) [],
          )
          ∷ [];
      required = "host" ∷ [];
    });
    handler = some (handlers "TraceByHost");
    example =
        "{\"tool\": \"trace_by_host\", \"arguments\": {\"host\": \"api.example.com\", \"path\": \"/v1\"}}";
    risk_level = "low";
  }

  abbrev pub top_pods_tool : Tool W R E
  top_pods_tool = record {
    name = "top_pods";
    description =
        "查看 Pod 实时资源用量排行（metrics.k8s.io），支持 namespace、limit；metrics API 不可用时返回明确 unavailable 降级结果";
    category = ToolCategory.query;
    requires_confirmation = false;
    input_schema = some (record {
      kind = "object";
      properties =
          ("context", param "string" "Kubernetes context 名称，不指定则使用当前 context" false)
          ∷ ("namespace", param "string" "命名空间，不指定则使用当前 context 默认 namespace" false)
          ∷ ("limit", param_of "integer" "返回数量，默认 20" false (some (Value.int (pos 20))) [])
          ∷ [];
      required = [];
    });
    handler = some (handlers "TopPods");
    example =
        "{\"tool\": \"top_pods\", \"arguments\": {\"namespace\": \"default\", \"limit\": 10}}";
    risk_level = "low";
  }

  abbrev pub top_nodes_tool : Tool W R E
  top_nodes_tool = record {
    name = "top_nodes";
    description = "查看 Node 实时资源用量排行（metrics.k8s.io），支持 limit；metrics API 不可用时返回明确 unavailable 降级结果";
    category = ToolCategory.query;
    requires_confirmation = false;
    input_schema = some (record {
      kind = "object";
      properties =
          ("context", param "string" "Kubernetes context 名称，不指定则使用当前 context" false)
          ∷ ("limit", param_of "integer" "返回数量，默认 20" false (some (Value.int (pos 20))) [])
          ∷ [];
      required = [];
    });
    handler = some (handlers "TopNodes");
    example = "{\"tool\": \"top_nodes\", \"arguments\": {\"limit\": 10}}";
    risk_level = "low";
  }
