-- ===== src/Tools/Create.antt =====
-- internal/tools/register_create.go: the tools of `RegisterCreateTools`.
use kubectl_mcp.Prelude.{String, some, [], ◌∷◌, true, false}
use kubectl_mcp.Prelude.Int.{pos}
use kubectl_mcp.Value.{Value}
use kubectl_mcp.Registry.{ToolCategory, ToolHandler, Tool}
use kubectl_mcp.Tools.Schema.{param, param_of, texts}

module _ {W R E : Type 0} (handlers : String → ToolHandler W R E) where
  abbrev pub create_namespace_tool : Tool W R E
  create_namespace_tool = record {
    name = "create_namespace";
    description = "创建 Kubernetes Namespace，用于隔离资源";
    category = ToolCategory.create;
    requires_confirmation = true;
    input_schema = some (record {
      kind = "object";
      properties =
          ("context", param "string" "Kubernetes context 名称，不指定则使用当前 context" false)
          ∷ ("name", param "string" "Namespace 名称" true)
          ∷ ("labels", param "object" "标签，格式为 key-value 对象" false)
          ∷ ("annotations", param "object" "注解，格式为 key-value 对象" false)
          ∷ [];
      required = "name" ∷ [];
    });
    handler = some (handlers "CreateNamespace");
    example =
        "{\"tool\": \"create_namespace\", \"arguments\": {\"name\": \"my-namespace\", \"labels\": {\"env\": \"dev\"}}}";
    risk_level = "medium";
  }

  abbrev pub create_pod_tool : Tool W R E
  create_pod_tool = record {
    name = "create_pod";
    description = "创建 Kubernetes Pod，用于运行单个容器实例";
    category = ToolCategory.create;
    requires_confirmation = true;
    input_schema = some (record {
      kind = "object";
      properties =
          ("context", param "string" "Kubernetes context 名称，不指定则使用当前 context" false)
          ∷ ("name", param "string" "Pod 名称" true)
          ∷ ("namespace", param "string" "命名空间，默认为 default" false)
          ∷ ("image", param "string" "容器镜像" true)
          ∷ ("containerName", param "string" "容器名称，默认与 Pod 名称相同" false)
          ∷ ("command", param "array" "容器启动命令" false)
          ∷ ("args", param "array" "容器启动参数" false)
          ∷ ("env", param "object" "环境变量，格式为 key-value 对象" false)
          ∷ ("labels", param "object" "标签，格式为 key-value 对象" false)
          ∷ (
            "restartPolicy",
            param_of "string" "重启策略: Always, OnFailure, Never" false (some (Value.str "Always"))
                (texts ("Always" ∷ "OnFailure" ∷ "Never" ∷ [])),
          )
          ∷ [];
      required = "name" ∷ "image" ∷ [];
    });
    handler = some (handlers "CreatePod");
    example =
        "{\"tool\": \"create_pod\", \"arguments\": {\"name\": \"nginx-pod\", \"image\": \"nginx:latest\", \"namespace\": \"default\"}}";
    risk_level = "medium";
  }

  abbrev pub create_deployment_tool : Tool W R E
  create_deployment_tool = record {
    name = "create_deployment";
    description = "创建 Kubernetes Deployment，用于管理无状态应用的多副本部署";
    category = ToolCategory.create;
    requires_confirmation = true;
    input_schema = some (record {
      kind = "object";
      properties =
          ("context", param "string" "Kubernetes context 名称，不指定则使用当前 context" false)
          ∷ ("name", param "string" "Deployment 名称" true)
          ∷ ("namespace", param "string" "命名空间，默认为 default" false)
          ∷ ("image", param "string" "容器镜像" true)
          ∷ ("replicas", param_of "integer" "副本数，默认为 1" false (some (Value.int (pos 1))) [])
          ∷ ("containerName", param "string" "容器名称，默认与 Deployment 名称相同" false)
          ∷ ("containerPort", param "integer" "容器端口" false)
          ∷ ("env", param "object" "环境变量，格式为 key-value 对象" false)
          ∷ ("labels", param "object" "标签，格式为 key-value 对象" false)
          ∷ ("limitsCPU", param "string" "CPU 限制，如 '500m'" false)
          ∷ ("limitsMemory", param "string" "内存限制，如 '256Mi'" false)
          ∷ ("requestsCPU", param "string" "CPU 请求，如 '100m'" false)
          ∷ ("requestsMemory", param "string" "内存请求，如 '128Mi'" false)
          ∷ [];
      required = "name" ∷ "image" ∷ [];
    });
    handler = some (handlers "CreateDeployment");
    example =
        "{\"tool\": \"create_deployment\", \"arguments\": {\"name\": \"nginx\", \"image\": \"nginx:latest\", \"replicas\": 3, \"namespace\": \"default\"}}";
    risk_level = "medium";
  }

  abbrev pub create_service_tool : Tool W R E
  create_service_tool = record {
    name = "create_service";
    description = "创建 Kubernetes Service，用于暴露 Pod 服务";
    category = ToolCategory.create;
    requires_confirmation = true;
    input_schema = some (record {
      kind = "object";
      properties =
          ("context", param "string" "Kubernetes context 名称，不指定则使用当前 context" false)
          ∷ ("name", param "string" "Service 名称" true)
          ∷ ("namespace", param "string" "命名空间，默认为 default" false)
          ∷ ("port", param "integer" "服务端口" true)
          ∷ ("targetPort", param "integer" "目标端口，默认与 port 相同" false)
          ∷ (
            "type",
            param_of "string" "Service 类型: ClusterIP, NodePort, LoadBalancer" false
                (some (Value.str "ClusterIP"))
                (texts ("ClusterIP" ∷ "NodePort" ∷ "LoadBalancer" ∷ "ExternalName" ∷ [])),
          )
          ∷ (
            "protocol",
            param_of "string" "协议: TCP, UDP" false (some (Value.str "TCP"))
                (texts ("TCP" ∷ "UDP" ∷ [])),
          )
          ∷ ("nodePort", param "integer" "NodePort 端口（仅 NodePort/LoadBalancer 类型有效）" false)
          ∷ ("selector", param "object" "Pod 选择器，默认为 {app: name}" false)
          ∷ ("labels", param "object" "标签，格式为 key-value 对象" false)
          ∷ [];
      required = "name" ∷ "port" ∷ [];
    });
    handler = some (handlers "CreateService");
    example =
        "{\"tool\": \"create_service\", \"arguments\": {\"name\": \"nginx-svc\", \"port\": 80, \"targetPort\": 80, \"type\": \"ClusterIP\", \"namespace\": \"default\"}}";
    risk_level = "medium";
  }

  abbrev pub create_configmap_tool : Tool W R E
  create_configmap_tool = record {
    name = "create_configmap";
    description = "创建 Kubernetes ConfigMap，用于存储非敏感配置数据";
    category = ToolCategory.create;
    requires_confirmation = true;
    input_schema = some (record {
      kind = "object";
      properties =
          ("context", param "string" "Kubernetes context 名称，不指定则使用当前 context" false)
          ∷ ("name", param "string" "ConfigMap 名称" true)
          ∷ ("namespace", param "string" "命名空间，默认为 default" false)
          ∷ ("data", param "object" "配置数据，格式为 key-value 对象" false)
          ∷ ("labels", param "object" "标签，格式为 key-value 对象" false)
          ∷ ("annotations", param "object" "注解，格式为 key-value 对象" false)
          ∷ [];
      required = "name" ∷ [];
    });
    handler = some (handlers "CreateConfigMap");
    example =
        "{\"tool\": \"create_configmap\", \"arguments\": {\"name\": \"app-config\", \"namespace\": \"default\", \"data\": {\"key1\": \"value1\", \"key2\": \"value2\"}}}";
    risk_level = "low";
  }

  abbrev pub create_secret_tool : Tool W R E
  create_secret_tool = record {
    name = "create_secret";
    description = "创建 Kubernetes Secret，用于存储敏感数据（如密码、密钥等）";
    category = ToolCategory.create;
    requires_confirmation = true;
    input_schema = some (record {
      kind = "object";
      properties =
          ("context", param "string" "Kubernetes context 名称，不指定则使用当前 context" false)
          ∷ ("name", param "string" "Secret 名称" true)
          ∷ ("namespace", param "string" "命名空间，默认为 default" false)
          ∷ ("type", param_of "string" "Secret 类型，默认为 Opaque" false (some (Value.str "Opaque")) [])
          ∷ ("data", param "object" "数据（值会自动 base64 编码）" false)
          ∷ ("stringData", param "object" "字符串数据（不需要 base64 编码）" false)
          ∷ ("labels", param "object" "标签，格式为 key-value 对象" false)
          ∷ ("annotations", param "object" "注解，格式为 key-value 对象" false)
          ∷ [];
      required = "name" ∷ [];
    });
    handler = some (handlers "CreateSecret");
    example =
        "{\"tool\": \"create_secret\", \"arguments\": {\"name\": \"db-secret\", \"namespace\": \"default\", \"stringData\": {\"username\": \"admin\", \"password\": \"secret123\"}}}";
    risk_level = "high";
  }

  abbrev pub create_from_yaml_tool : Tool W R E
  create_from_yaml_tool = record {
    name = "create_from_yaml";
    description = "通过 YAML 内容创建 Kubernetes 资源，支持任意资源类型";
    category = ToolCategory.create;
    requires_confirmation = true;
    input_schema = some (record {
      kind = "object";
      properties =
          ("context", param "string" "Kubernetes context 名称，不指定则使用当前 context" false)
          ∷ ("yaml", param "string" "YAML 格式的资源定义" true)
          ∷ ("namespace", param "string" "命名空间（如果 YAML 中未指定则使用此值）" false)
          ∷ [];
      required = "yaml" ∷ [];
    });
    handler = some (handlers "CreateFromYAML");
    example =
        "{\"tool\": \"create_from_yaml\", \"arguments\": {\"yaml\": \"apiVersion: v1\\nkind: ConfigMap\\nmetadata:\\n  name: test-config\\ndata:\\n  key: value\"}}";
    risk_level = "high";
  }
