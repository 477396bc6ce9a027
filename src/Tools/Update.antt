-- ===== src/Tools/Update.antt =====
-- internal/tools/register_update.go: the tools of `RegisterUpdateTools`.
use kubectl_mcp.Prelude.{String, some, [], ◌∷◌, true, false}
use kubectl_mcp.Value.{Value}
use kubectl_mcp.Registry.{ToolCategory, ToolHandler, Tool}
use kubectl_mcp.Tools.Schema.{param, param_of, texts}

module _ {W R E : Type 0} (handlers : String → ToolHandler W R E) where
  abbrev pub scale_deployment_tool : Tool W R E
  scale_deployment_tool = record {
    name = "scale_deployment";
    description = "扩缩容 Kubernetes Deployment，调整副本数量";
    category = ToolCategory.update;
    requires_confirmation = true;
    input_schema = some (record {
      kind = "object";
      properties =
          ("context", param "string" "Kubernetes context 名称，不指定则使用当前 context" false)
          ∷ ("name", param "string" "Deployment 名称" true)
          ∷ ("namespace", param "string" "命名空间，默认为 default" false)
          ∷ ("replicas", param "integer" "目标副本数（必须大于等于 0）" true)
          ∷ [];
      required = "name" ∷ "replicas" ∷ [];
    });
    handler = some (handlers "ScaleDeployment");
    example =
        "{\"tool\": \"scale_deployment\", \"arguments\": {\"name\": \"nginx\", \"namespace\": \"default\", \"replicas\": 5}}";
    risk_level = "medium";
  }

  abbrev pub scale_statefulset_tool : Tool W R E
  scale_statefulset_tool = record {
    name = "scale_statefulset";
    description = "扩缩容 Kubernetes StatefulSet，调整副本数量";
    category = ToolCategory.update;
    requires_confirmation = true;
    input_schema = some (record {
      kind = "object";
      properties =
          ("context", param "string" "Kubernetes context 名称，不指定则使用当前 context" false)
          ∷ ("name", param "string" "StatefulSet 名称" true)
          ∷ ("namespace", param "string" "命名空间，默认为 default" false)
          ∷ ("replicas", param "integer" "目标副本数（必须大于等于 0）" true)
          ∷ [];
      required = "name" ∷ "replicas" ∷ [];
    });
    handler = some (handlers "ScaleStatefulSet");
    example =
        "{\"tool\": \"scale_statefulset\", \"arguments\": {\"name\": \"mysql\", \"namespace\": \"default\", \"replicas\": 3}}";
    risk_level = "high";
  }

  abbrev pub update_deployment_image_tool : Tool W R E
  update_deployment_image_tool = record {
    name = "update_deployment_image";
    description = "更新 Kubernetes Deployment 的容器镜像，触发滚动更新";
    category = ToolCategory.update;
    requires_confirmation = true;
    input_schema = some (record {
      kind = "object";
      properties =
          ("context", param "string" "Kubernetes context 名称，不指定则使用当前 context" false)
          ∷ ("name", param "string" "Deployment 名称" true)
          ∷ ("namespace", param "string" "命名空间，默认为 default" false)
          ∷ ("image", param "string" "新的容器镜像（格式: image:tag）" true)
          ∷ ("containerName", param "string" "容器名称（可选，不指定则更新第一个容器）" false)
          ∷ [];
      required = "name" ∷ "image" ∷ [];
    });
    handler = some (handlers "UpdateDeploymentImage");
    example =
        "{\"tool\": \"update_deployment_image\", \"arguments\": {\"name\": \"nginx\", \"namespace\": \"default\", \"image\": \"nginx:1.21\"}}";
    risk_level = "high";
  }

  abbrev pub restart_deployment_tool : Tool W R E
  restart_deployment_tool = record {
    name = "restart_deployment";
    description = "重启 Kubernetes Deployment，通过滚动更新重启所有 Pod";
    category = ToolCategory.update;
    requires_confirmation = true;
    input_schema = some (record {
      kind = "object";
      properties =
          ("context", param "string" "Kubernetes context 名称，不指定则使用当前 context" false)
          ∷ ("name", param "string" "Deployment 名称" true)
          ∷ ("namespace", param "string" "命名空间，默认为 default" false)
          ∷ [];
      required = "name" ∷ [];
    });
    handler = some (handlers "RestartDeployment");
    example =
        "{\"tool\": \"restart_deployment\", \"arguments\": {\"name\": \"nginx\", \"namespace\": \"default\"}}";
    risk_level = "high";
  }

  abbrev pub apply_yaml_tool : Tool W R E
  apply_yaml_tool = record {
    name = "apply_yaml";
    description = "通过 YAML 应用 Kubernetes 资源（类似 kubectl apply），如果资源存在则更新，不存在则创建";
    category = ToolCategory.update;
    requires_confirmation = true;
    input_schema = some (record {
      kind = "object";
      properties =
          ("context", param "string" "Kubernetes context 名称，不指定则使用当前 context" false)
          ∷ ("yaml", param "string" "YAML 格式的资源定义" true)
          ∷ ("namespace", param "string" "命名空间（如果 YAML 中未指定则使用此值）" false)
          ∷ [];
      required = "yaml" ∷ [];
    });
    handler = some (handlers "ApplyYAML");
    example =
        "{\"tool\": \"apply_yaml\", \"arguments\": {\"yaml\": \"apiVersion: v1\\nkind: ConfigMap\\nmetadata:\\n  name: test-config\\ndata:\\n  key: value\"}}";
    risk_level = "high";
  }

  abbrev pub patch_resource_tool : Tool W R E
  patch_resource_tool = record {
    name = "patch_resource";
    description = "使用 JSON Patch 修改 Kubernetes 资源，支持精细化的资源修改";
    category = ToolCategory.update;
    requires_confirmation = true;
    input_schema = some (record {
      kind = "object";
      properties =
          ("context", param "string" "Kubernetes context 名称，不指定则使用当前 context" false)
          ∷ ("kind", param "string" "资源类型（如 Deployment, Service, Pod 等）" true)
          ∷ ("name", param "string" "资源名称" true)
          ∷ ("namespace", param "string" "命名空间（对于 namespace-scoped 资源）" false)
          ∷ ("patch", param "string" "Patch 内容（JSON 格式字符串）" true)
          ∷ (
            "patchType",
            param_of "string" "Patch 类型: json, merge, strategic（默认 strategic）" false
                (some (Value.str "strategic")) (texts ("json" ∷ "merge" ∷ "strategic" ∷ [])),
          )
          ∷ [];
      required = "kind" ∷ "name" ∷ "patch" ∷ [];
    });
    handler = some (handlers "PatchResource");
    example =
        "{\"tool\": \"patch_resource\", \"arguments\": {\"kind\": \"Deployment\", \"name\": \"nginx\", \"namespace\": \"default\", \"patch\": \"{\\\"spec\\\":{\\\"replicas\\\":3}}\", \"patchType\": \"strategic\"}}";
    risk_level = "high";
  }
