-- ===== src/Tools/Delete.antt =====
-- internal/tools/delete.go: the tools of `RegisterDeleteTools`.
use kubectl_mcp.Prelude.{String, some, none, [], ◌∷◌, true, false}
use kubectl_mcp.Prelude.Int.{pos}
use kubectl_mcp.Value.{Value}
use kubectl_mcp.Registry.{ToolCategory, ToolHandler, Tool}
use kubectl_mcp.Tools.Schema.{param, param_of, texts}

module _ {W R E : Type 0} (handlers : String → ToolHandler W R E) where
  abbrev pub delete_pod_tool : Tool W R E
  delete_pod_tool = record {
    name = "delete_pod";
    description =
        "【危险操作】删除指定的 Pod。⚠\u{fe0f} 强制要求：在执行删除之前，必须先调用 preview_delete_resources 工具（kind=Pod）进行预检查，获取风险评估，并向用户展示预检查结果，等待用户明确确认后才能执行删除。支持强制删除和自定义优雅删除时间。";
    category = ToolCategory.delete_category;
    requires_confirmation = true;
    input_schema = some (record {
      kind = "object";
      properties =
          ("name", param "string" "Pod 名称" true)
          ∷ ("namespace", param "string" "命名空间（必填）。必须先通过 get_pods 查询确定 Pod 所在的命名空间，不能猜测或使用默认值" true)
          ∷ (
            "force",
            param_of "boolean" "是否强制删除（grace period 为 0）" false (some (Value.bool false)) [],
          )
          ∷ (
            "gracePeriod",
            param_of "integer" "优雅删除时间（秒），默认 30 秒" false (some (Value.int (pos 30))) [],
          )
          ∷ (
            "confirmationToken",
            param "string" "预检查确认令牌。必须先调用 preview_delete_resources 获取此令牌" true,
          )
          ∷ ("context", param "string" "K8S context 名称，不指定则使用当前 context" false)
          ∷ [];
      required = "name" ∷ "namespace" ∷ "confirmationToken" ∷ [];
    });
    handler = some (handlers "DeletePod");
    example =
        "{\"name\": \"nginx-pod\", \"namespace\": \"production\", \"force\": false, \"confirmationToken\": \"1234567890\"}";
    risk_level = "medium";
  }

  abbrev pub delete_deployment_tool : Tool W R E
  delete_deployment_tool = record {
    name = "delete_deployment";
    description =
        "【危险操作】删除指定的 Deployment。⚠\u{fe0f} 强制要求：在执行删除之前，必须先调用 preview_delete_resources 工具（kind=Deployment）进行预检查，获取风险评估和关联资源（Pod、ReplicaSet）影响分析，并向用户展示预检查结果，等待用户明确确认后才能执行删除。可选择是否级联删除关联的 ReplicaSet 和 Pod。";
    category = ToolCategory.delete_category;
    requires_confirmation = true;
    input_schema = some (record {
      kind = "object";
      properties =
          ("name", param "string" "Deployment 名称" true)
          ∷ (
            "namespace",
            param "string" "命名空间（必填）。必须先通过 get_deployments 查询确定 Deployment 所在的命名空间，不能猜测或使用默认值" true,
          )
          ∷ (
            "cascade",
            param_of "boolean" "是否级联删除关联的 ReplicaSet 和 Pod，默认为 true" false (some (Value.bool true))
                [],
          )
          ∷ (
            "confirmationToken",
            param "string" "预检查确认令牌。必须先调用 preview_delete_resources 获取此令牌" true,
          )
          ∷ ("context", param "string" "K8S context 名称，不指定则使用当前 context" false)
          ∷ [];
      required = "name" ∷ "namespace" ∷ "confirmationToken" ∷ [];
    });
    handler = some (handlers "DeleteDeployment");
    example =
        "{\"name\": \"nginx-deployment\", \"namespace\": \"production\", \"cascade\": true, \"confirmationToken\": \"1234567890\"}";
    risk_level = "high";
  }

  abbrev pub delete_service_tool : Tool W R E
  delete_service_tool = record {
    name = "delete_service";
    description =
        "【危险操作】删除指定的 Service。⚠\u{fe0f} 强制要求：在执行删除之前，必须先调用 preview_delete_resources 工具（kind=Service）进行预检查，获取风险评估和关联资源（Ingress、Endpoint）影响分析，并向用户展示预检查结果，等待用户明确确认后才能执行删除。";
    category = ToolCategory.delete_category;
    requires_confirmation = true;
    input_schema = some (record {
      kind = "object";
      properties =
          ("name", param "string" "Service 名称" true)
          ∷ (
            "namespace",
            param "string" "命名空间（必填）。必须先通过 get_services 查询确定 Service 所在的命名空间，不能猜测或使用默认值" true,
          )
          ∷ (
            "confirmationToken",
            param "string" "预检查确认令牌。必须先调用 preview_delete_resources 获取此令牌" true,
          )
          ∷ ("context", param "string" "K8S context 名称，不指定则使用当前 context" false)
          ∷ [];
      required = "name" ∷ "namespace" ∷ "confirmationToken" ∷ [];
    });
    handler = some (handlers "DeleteService");
    example =
        "{\"name\": \"nginx-service\", \"namespace\": \"production\", \"confirmationToken\": \"1234567890\"}";
    risk_level = "medium";
  }

  abbrev pub delete_configmap_tool : Tool W R E
  delete_configmap_tool = record {
    name = "delete_configmap";
    description =
        "【危险操作】删除指定的 ConfigMap。⚠\u{fe0f} 强制要求：在执行删除之前，必须先调用 preview_delete_resources 工具（kind=ConfigMap）进行预检查，获取风险评估和关联资源（使用该 ConfigMap 的 Pod）影响分析，并向用户展示预检查结果，等待用户明确确认后才能执行删除。";
    category = ToolCategory.delete_category;
    requires_confirmation = true;
    input_schema = some (record {
      kind = "object";
      properties =
          ("name", param "string" "ConfigMap 名称" true)
          ∷ (
            "namespace",
            param "string" "命名空间（必填）。必须先通过 get_configmaps 查询确定 ConfigMap 所在的命名空间，不能猜测或使用默认值" true,
          )
          ∷ (
            "confirmationToken",
            param "string" "预检查确认令牌。必须先调用 preview_delete_resources 获取此令牌" true,
          )
          ∷ ("context", param "string" "K8S context 名称，不指定则使用当前 context" false)
          ∷ [];
      required = "name" ∷ "namespace" ∷ "confirmationToken" ∷ [];
    });
    handler = some (handlers "DeleteConfigMap");
    example =
        "{\"name\": \"app-config\", \"namespace\": \"production\", \"confirmationToken\": \"1234567890\"}";
    risk_level = "medium";
  }

  abbrev pub delete_secret_tool : Tool W R E
  delete_secret_tool = record {
    name = "delete_secret";
    description =
        "【危险操作】删除指定的 Secret。⚠\u{fe0f} 强制要求：在执行删除之前，必须先调用 preview_delete_resources 工具（kind=Secret）进行预检查，获取风险评估和关联资源（使用该 Secret 的 Pod）影响分析，并向用户展示预检查结果，等待用户明确确认后才能执行删除。";
    category = ToolCategory.delete_category;
    requires_confirmation = true;
    input_schema = some (record {
      kind = "object";
      properties =
          ("name", param "string" "Secret 名称" true)
          ∷ (
            "namespace",
            param "string" "命名空间（必填）。必须先通过 get_secrets 查询确定 Secret 所在的命名空间，不能猜测或使用默认值" true,
          )
          ∷ (
            "confirmationToken",
            param "string" "预检查确认令牌。必须先调用 preview_delete_resources 获取此令牌" true,
          )
          ∷ ("context", param "string" "K8S context 名称，不指定则使用当前 context" false)
          ∷ [];
      required = "name" ∷ "namespace" ∷ "confirmationToken" ∷ [];
    });
    handler = some (handlers "DeleteSecret");
    example =
        "{\"name\": \"db-secret\", \"namespace\": \"production\", \"confirmationToken\": \"1234567890\"}";
    risk_level = "high";
  }

  abbrev pub delete_namespace_tool : Tool W R E
  delete_namespace_tool = record {
    name = "delete_namespace";
    description =
        "【极度危险操作】删除指定的 Namespace。⚠\u{fe0f} 强制要求：这是最高风险的操作，会删除 namespace 下的所有资源！在执行删除之前，必须先调用 preview_delete_resources 工具进行预检查，获取该命名空间下所有资源的详细列表和风险评估，并向用户展示完整的预检查结果，等待用户明确确认后才能执行删除。系统 namespace（default、kube-system、kube-public、kube-node-lease）不允许删除。";
    category = ToolCategory.delete_category;
    requires_confirmation = true;
    input_schema = some (record {
      kind = "object";
      properties =
          ("name", param "string" "Namespace 名称" true)
          ∷ (
            "confirmationToken",
            param "string" "预检查确认令牌。必须先调用 preview_delete_resources 获取此令牌" true,
          )
          ∷ ("context", param "string" "K8S context 名称，不指定则使用当前 context" false)
          ∷ [];
      required = "name" ∷ "confirmationToken" ∷ [];
    });
    handler = some (handlers "DeleteNamespace");
    example = "{\"name\": \"test-namespace\", \"confirmationToken\": \"1234567890\"}";
    risk_level = "critical";
  }

  abbrev pub delete_resources_tool : Tool W R E
  delete_resources_tool = record {
    name = "delete_resources";
    description =
        "【危险操作】批量删除指定类型的资源。⚠\u{fe0f} 强制要求：在调用此工具之前，必须先调用 preview_delete_resources 工具进行预检查，获取风险评估和关联资源影响分析，并向用户展示预检查结果，等待用户明确确认后才能执行删除。禁止跳过预检查直接删除！支持的资源类型：Pod、Deployment、StatefulSet、DaemonSet、Service、ConfigMap、Secret。";
    category = ToolCategory.delete_category;
    requires_confirmation = true;
    input_schema = some (record {
      kind = "object";
      properties =
          (
            "kind",
            param_of "string" "资源类型，如 Pod、Deployment、Service 等" true none (
                texts (
                  "Pod" ∷ "Deployment" ∷ "StatefulSet" ∷ "DaemonSet" ∷ "Service" ∷ "ConfigMap"
                  ∷ "Secret" ∷ [])),
          )
          ∷ ("namespace", param "string" "命名空间（必填）。必须先查询确定资源所在的命名空间，不能猜测或使用默认值" true)
          ∷ ("names", param "array" "要删除的资源名称列表" false)
          ∷ ("labelSelector", param "string" "标签选择器，用于筛选要删除的资源，如 app=nginx" false)
          ∷ (
            "confirmationToken",
            param "string" "预检查确认令牌（必填）。必须先调用 preview_delete_resources 获取此令牌，证明已完成预检查" true,
          )
          ∷ ("context", param "string" "K8S context 名称，不指定则使用当前 context" false)
          ∷ [];
      required = "kind" ∷ "namespace" ∷ "confirmationToken" ∷ [];
    });
    handler = some (handlers "DeleteResources");
    example =
        "{\"kind\": \"Pod\", \"namespace\": \"production\", \"labelSelector\": \"app=nginx\", \"confirmationToken\": \"1234567890\"}";
    risk_level = "high";
  }

  abbrev pub preview_delete_resources_tool : Tool W R E
  preview_delete_resources_tool = record {
    name = "preview_delete_resources";
    description =
        "预检查删除资源（不执行真正的删除）。分析将要删除的资源详细信息、风险等级和关联资源影响。支持的资源类型：Pod、Deployment、StatefulSet、DaemonSet、Service、ConfigMap、Secret。";
    category = ToolCategory.delete_category;
    requires_confirmation = false;
    input_schema = some (record {
      kind = "object";
      properties =
          (
            "kind",
            param_of "string" "资源类型，如 Pod、Deployment、Service 等" true none (
                texts (
                  "Pod" ∷ "Deployment" ∷ "StatefulSet" ∷ "DaemonSet" ∷ "Service" ∷ "ConfigMap"
                  ∷ "Secret" ∷ [])),
          )
          ∷ ("namespace", param "string" "命名空间（必填）" true)
          ∷ ("names", param "array" "要检查的资源名称列表" false)
          ∷ ("labelSelector", param "string" "标签选择器，用于筛选要检查的资源，如 app=nginx" false)
          ∷ ("context", param "string" "K8S context 名称，不指定则使用当前 context" false)
          ∷ [];
      required = "kind" ∷ "namespace" ∷ [];
    });
    handler = some (handlers "PreviewDeleteResources");
    example =
        "{\"kind\": \"Deployment\", \"namespace\": \"production\", \"names\": [\"nginx-deployment\"]}";
    risk_level = "low";
  }
