-- ===== src/Tools/Inspect.antt =====
-- internal/tools/register_inspect.go: the tools of `RegisterInspectTools`.
use kubectl_mcp.Prelude.{String, some, [], ◌∷◌, true, false}
use kubectl_mcp.Prelude.Int.{pos}
use kubectl_mcp.Value.{Value}
use kubectl_mcp.Registry.{ToolCategory, ToolHandler, Tool}
use kubectl_mcp.Tools.Schema.{param, param_of}

module _ {W R E : Type 0} (handlers : String → ToolHandler W R E) where
  abbrev pub inspect_cluster_overview_tool : Tool W R E
  inspect_cluster_overview_tool = record {
    name = "inspect_cluster_overview";
    description = "集群概览巡检，返回节点/Pod/工作负载/事件的数量统计和健康评分，用于快速判断集群整体健康状态。数据量极小，建议作为巡检的第一步调用";
    category = ToolCategory.query;
    requires_confirmation = false;
    input_schema = some (record {
      kind = "object";
      properties = ("context", param "string" "Kubernetes context 名称，不指定则使用当前 context" false) ∷ [];
      required = [];
    });
    handler = some (handlers "InspectClusterOverview");
    example = "{\"tool\": \"inspect_cluster_overview\", \"arguments\": {}}";
    risk_level = "low";
  }

  abbrev pub inspect_node_health_tool : Tool W R E
  inspect_node_health_tool = record {
    name = "inspect_node_health";
    description = "节点健康巡检，返回每个节点的状态、资源分配量、Pod 数量，以及不健康节点的详细原因。适用于 overview 发现节点异常后的深入排查";
    category = ToolCategory.query;
    requires_confirmation = false;
    input_schema = some (record {
      kind = "object";
      properties = ("context", param "string" "Kubernetes context 名称，不指定则使用当前 context" false) ∷ [];
      required = [];
    });
    handler = some (handlers "InspectNodeHealth");
    example = "{\"tool\": \"inspect_node_health\", \"arguments\": {}}";
    risk_level = "low";
  }

  abbrev pub inspect_workload_health_tool : Tool W R E
  inspect_workload_health_tool = record {
    name = "inspect_workload_health";
    description =
        "工作负载健康巡检，返回副本不一致的 Deployment/StatefulSet/DaemonSet、异常状态的 Pod（Pending/Failed/CrashLoopBackOff 等）、高重启 Pod（重启次数>=10）。支持按 namespace 过滤";
    category = ToolCategory.query;
    requires_confirmation = false;
    input_schema = some (record {
      kind = "object";
      properties =
          ("context", param "string" "Kubernetes context 名称，不指定则使用当前 context" false)
          ∷ ("namespace", param "string" "命名空间，不指定则检查所有命名空间" false)
          ∷ [];
      required = [];
    });
    handler = some (handlers "InspectWorkloadHealth");
    example =
        "{\"tool\": \"inspect_workload_health\", \"arguments\": {\"namespace\": \"production\"}}";
    risk_level = "low";
  }

  abbrev pub inspect_event_root_causes_tool : Tool W R E
  inspect_event_root_causes_tool = record {
    name = "inspect_event_root_causes";
    description =
        "事件根因巡检，分析 Warning Events 并按 reason+involvedObject 聚合为结构化 findings，识别探针失败、调度失败、挂载失败、镜像拉取失败、HPA 目标缺失等根因。只读诊断工具，适合作为 K8S 深度巡检事件根因分析步骤";
    category = ToolCategory.query;
    requires_confirmation = false;
    input_schema = some (record {
      kind = "object";
      properties =
          ("context", param "string" "Kubernetes context 名称，不指定则使用当前 context" false)
          ∷ ("namespace", param "string" "命名空间，不指定则查询所有命名空间" false)
          ∷ ("limit", param_of "integer" "返回根因数量上限，默认 100" false (some (Value.int (pos 100))) [])
          ∷ (
            "sinceMinutes",
            param_of "integer" "只分析最近多少分钟内的 Warning Events，默认 1440" false
                (some (Value.int (pos 1440))) [],
          )
          ∷ [];
      required = [];
    });
    handler = some (handlers "InspectEventRootCauses");
    example =
        "{\"tool\": \"inspect_event_root_causes\", \"arguments\": {\"namespace\": \"default\", \"limit\": 20, \"sinceMinutes\": 1440}}";
    risk_level = "low";
  }

  abbrev pub inspect_events_tool : Tool W R E
  inspect_events_tool = record {
    name = "inspect_events";
    description = "事件巡检，返回最近的 Warning 事件，按 Reason+资源 聚合去重，按时间倒序排列。消息自动截断避免过长。支持按 namespace 过滤和数量限制";
    category = ToolCategory.query;
    requires_confirmation = false;
    input_schema = some (record {
      kind = "object";
      properties =
          ("context", param "string" "Kubernetes context 名称，不指定则使用当前 context" false)
          ∷ ("namespace", param "string" "命名空间，不指定则查询所有命名空间" false)
          ∷ ("limit", param_of "integer" "返回事件数量上限，默认 50" false (some (Value.int (pos 50))) [])
          ∷ [];
      required = [];
    });
    handler = some (handlers "InspectEvents");
    example =
        "{\"tool\": \"inspect_events\", \"arguments\": {\"namespace\": \"default\", \"limit\": 30}}";
    risk_level = "low";
  }

  abbrev pub inspect_workload_references_tool : Tool W R E
  inspect_workload_references_tool = record {
    name = "inspect_workload_references";
    description =
        "工作负载引用一致性巡检，检查 StatefulSet serviceName、Service selector/Endpoints、Ingress backend、HPA scaleTargetRef、PDB selector 等跨资源引用是否缺失或不一致。只读诊断工具";
    category = ToolCategory.query;
    requires_confirmation = false;
    input_schema = some (record {
      kind = "object";
      properties =
          ("context", param "string" "Kubernetes context 名称，不指定则使用当前 context" false)
          ∷ ("namespace", param "string" "命名空间，不指定则检查所有命名空间" false)
          ∷ (
            "includeIngress",
            param_of "boolean" "是否检查 Ingress backend 引用，默认 true" false (some (Value.bool true)) [],
          )
          ∷ (
            "includeHPA",
            param_of "boolean" "是否检查 HPA scaleTargetRef 引用，默认 true" false (some (Value.bool true))
                [],
          )
          ∷ (
            "includePDB",
            param_of "boolean" "是否检查 PDB selector 引用，默认 true" false (some (Value.bool true)) [],
          )
          ∷ [];
      required = [];
    });
    handler = some (handlers "InspectWorkloadReferences");
    example =
        "{\"tool\": \"inspect_workload_references\", \"arguments\": {\"namespace\": \"middleware\", \"includeIngress\": true, \"includeHPA\": true, \"includePDB\": true}}";
    risk_level = "low";
  }

  abbrev pub inspect_pod_diagnostics_tool : Tool W R E
  inspect_pod_diagnostics_tool = record {
    name = "inspect_pod_diagnostics";
    description =
        "Pod 深度诊断，只读检查 Pending/Failed/CrashLoopBackOff/ImagePullBackOff/OOMKilled、高重启与相关事件；不默认拉全量日志，必要时建议 get_pod_logs。支持 namespace、podName、labelSelector、topN";
    category = ToolCategory.query;
    requires_confirmation = false;
    input_schema = some (record {
      kind = "object";
      properties =
          ("context", param "string" "Kubernetes context 名称，不指定则使用当前 context" false)
          ∷ ("namespace", param "string" "命名空间，建议显式指定" false)
          ∷ ("podName", param "string" "Pod 名称；不指定则按 labelSelector 或 namespace 扫描" false)
          ∷ ("labelSelector", param "string" "Pod 标签选择器，如 app=api" false)
          ∷ ("topN", param_of "integer" "返回 findings 上限，默认 20" false (some (Value.int (pos 20))) [])
          ∷ [];
      required = [];
    });
    handler = some (handlers "InspectPodDiagnostics");
    example =
        "{\"tool\": \"inspect_pod_diagnostics\", \"arguments\": {\"namespace\": \"default\", \"podName\": \"nginx-abc\", \"topN\": 20}}";
    risk_level = "low";
  }

  abbrev pub inspect_service_connectivity_tool : Tool W R E
  inspect_service_connectivity_tool = record {
    name = "inspect_service_connectivity";
    description =
        "Service 连通性诊断，只读检查 selector 是否匹配 Pod、Endpoints 是否为空、targetPort 是否匹配容器端口、后端 Pod 是否 Ready。支持 namespace、serviceName、topN";
    category = ToolCategory.query;
    requires_confirmation = false;
    input_schema = some (record {
      kind = "object";
      properties =
          ("context", param "string" "Kubernetes context 名称，不指定则使用当前 context" false)
          ∷ ("namespace", param "string" "命名空间，建议显式指定" false)
          ∷ ("serviceName", param "string" "Service 名称；不指定则扫描 namespace 内所有 Service" false)
          ∷ ("topN", param_of "integer" "返回 findings 上限，默认 20" false (some (Value.int (pos 20))) [])
          ∷ [];
      required = [];
    });
    handler = some (handlers "InspectServiceConnectivity");
    example =
        "{\"tool\": \"inspect_service_connectivity\", \"arguments\": {\"namespace\": \"default\", \"serviceName\": \"api\"}}";
    risk_level = "low";
  }

  abbrev pub inspect_storage_diagnostics_tool : Tool W R E
  inspect_storage_diagnostics_tool = record {
    name = "inspect_storage_diagnostics";
    description =
        "存储诊断，只读检查 PVC Pending、PV Released/Failed、StorageClass 缺失，以及 FailedMount/FailedAttachVolume 事件并关联 Pod/PVC。支持 namespace、topN";
    category = ToolCategory.query;
    requires_confirmation = false;
    input_schema = some (record {
      kind = "object";
      properties =
          ("context", param "string" "Kubernetes context 名称，不指定则使用当前 context" false)
          ∷ ("namespace", param "string" "命名空间，建议显式指定" false)
          ∷ ("topN", param_of "integer" "返回 findings 上限，默认 20" false (some (Value.int (pos 20))) [])
          ∷ [];
      required = [];
    });
    handler = some (handlers "InspectStorageDiagnostics");
    example =
        "{\"tool\": \"inspect_storage_diagnostics\", \"arguments\": {\"namespace\": \"default\", \"topN\": 20}}";
    risk_level = "low";
  }

  abbrev pub inspect_node_pressure_tool : Tool W R E
  inspect_node_pressure_tool = record {
    name = "inspect_node_pressure";
    description =
        "节点压力诊断，只读检查 Memory/Disk/PIDPressure、allocatable vs requests、节点上异常/高重启 Pod、节点事件。支持 nodeName、topN";
    category = ToolCategory.query;
    requires_confirmation = false;
    input_schema = some (record {
      kind = "object";
      properties =
          ("context", param "string" "Kubernetes context 名称，不指定则使用当前 context" false)
          ∷ ("nodeName", param "string" "节点名称；不指定则扫描所有节点" false)
          ∷ ("topN", param_of "integer" "返回 findings 上限，默认 20" false (some (Value.int (pos 20))) [])
          ∷ [];
      required = [];
    });
    handler = some (handlers "InspectNodePressure");
    example =
        "{\"tool\": \"inspect_node_pressure\", \"arguments\": {\"nodeName\": \"node-1\", \"topN\": 20}}";
    risk_level = "low";
  }

  abbrev pub inspect_namespace_health_tool : Tool W R E
  inspect_namespace_health_tool = record {
    name = "inspect_namespace_health";
    description =
        "命名空间健康聚合，只读汇总该 namespace 内异常 Pod、无后端 Service、Pending PVC、Warning Events 并给出 Top findings。支持 namespace、topN";
    category = ToolCategory.query;
    requires_confirmation = false;
    input_schema = some (record {
      kind = "object";
      properties =
          ("context", param "string" "Kubernetes context 名称，不指定则使用当前 context" false)
          ∷ ("namespace", param "string" "命名空间，必填或使用当前 context 默认 namespace" false)
          ∷ ("topN", param_of "integer" "返回 findings 上限，默认 20" false (some (Value.int (pos 20))) [])
          ∷ [];
      required = [];
    });
    handler = some (handlers "InspectNamespaceHealth");
    example =
        "{\"tool\": \"inspect_namespace_health\", \"arguments\": {\"namespace\": \"default\", \"topN\": 20}}";
    risk_level = "low";
  }
