-- ===== src/Deletion/Single.antt =====
-- `DeletePod`, `DeleteDeployment`, `DeleteService`, `DeleteConfigMap`, `DeleteSecret` and
-- `DeleteNamespace` of internal/tools/delete_pod.go, delete_deployment.go, delete_service.go,
-- delete_config.go and delete_namespace.go. A message is a constructor with what is written into it.
pub mod Requests
pub mod Tokens
pub mod Namespaces
use kubectl_mcp.Prelude.{
  ℕ, ◌+◌, String, Bool, true, false, not, Option, none, some, List, [], ◌∷◌, ◌⊎◌, inl, inr, length,
  str_eq, string_eq, if◌then◌else◌,
}
use kubectl_mcp.Prelude.Int.{ℤ, pos, leb_ℤ, ltb_ℤ}
use kubectl_mcp.Registry.{Args}
use kubectl_mcp.Deletion.{
  DeleteOptions, no_options, ApiObject, Env, ToolState, Failure, no_token, parameter_required,
  system_namespace, Action, ◌>>=◌, ◌>>◌, done, abort, text_arg, bool_arg, get_int32_arg,
  get_context_and_namespace, get_client_set, api_get, api_list, api_delete,
}

pub data Message : Type 0 where
  deleted : Message
  force_deleted : Message
  deleted_with_grace : ℤ → Message
  deployment_deleted : ℤ → Message
  deployment_orphaned : ℤ → Message
  service_deleted : String → Message
  config_map_deleted : ℕ → Message
  secret_deleted : String → ℕ → Message
  namespace_deleted : ℕ → Message

-- the counts of pods, deployments and services in a namespace
pub record Details : Type 0 where
  pub pods : ℕ
  pub deployments : ℕ
  pub services : ℕ

pub record DeleteResult : Type 0 where
  pub kind : String
  pub name : String
  pub namespace : String
  pub status : String
  pub message : Message
  pub force : Bool
  pub cascade : Bool
  pub deleted_at : ℕ
  pub details : Option Details

deleted_result : String → String → String → Message → ApiObject → DeleteResult
deleted_result kind namespace name message object = record {
  kind = kind;
  name = name;
  namespace = namespace;
  status = "Deleted";
  message = message;
  force = false;
  cascade = false;
  deleted_at = object.created;
  details = none;
}

-- the 4 namespaces that are not deleted
abbrev pub system_namespaces : List String
system_namespaces = "default" ∷ "kube-system" ∷ "kube-public" ∷ "kube-node-lease" ∷ []

grace_period : Bool → ℤ → ℤ
grace_period force gp = if force then pos 0 else if leb_ℤ (pos 0) gp then gp else pos 30

pod_message : Bool → ℤ → Message
pod_message force grace =
    if force
    then force_deleted
    else if ltb_ℤ (pos 0) grace
    then deleted_with_grace grace
    else deleted

replicas_of : Option ℤ → ℤ
replicas_of none = pos 0
replicas_of (some n) = n

deployment_message : Bool → ℤ → Message
deployment_message cascade n = if cascade then deployment_deleted n else deployment_orphaned n

module _ {S : Type 0} where
  -- the check of the token, of which nothing more is read
  unfoldable pub require_token : Args → Action S (Unit {0})
  require_token args =
      if str_eq (text_arg "confirmationToken" args) "" then abort no_token else done tt

  unfoldable pub require_text : String → Args → Action S String
  require_text key args =
      if str_eq (text_arg key args) ""
      then abort (parameter_required key)
      else done (text_arg key args)

  refuse_system : List String → String → Action S (Unit {0})
  refuse_system [] name = done tt
  refuse_system (namespace ∷ namespaces) name =
      if str_eq name namespace then abort (system_namespace name) else refuse_system namespaces name

or_default : String → String
or_default namespace = if str_eq namespace "" then "default" else namespace

module _ {K D C : Type 0} (env : Env K D C) where
  -- the context and the namespace that a call names, with the defaults
  unfoldable pub target_of : Args → Action (ToolState K D C) (String × String)
  unfolding or_default
  target_of args s =
      let (context_name, namespace) = get_context_and_namespace args s.manager in
      done (context_name, or_default namespace) s

  -- the end that the handlers share: a client, the object, its deletion, and the result
  delete_object :
      String
      → String
      → String
      → String
      → DeleteOptions
      → (ApiObject → DeleteResult)
      → Action (ToolState K D C) DeleteResult
  delete_object kind context_name namespace name options result = do
    k ← get_client_set env context_name
    object ← api_get env k kind namespace name
    api_delete env k kind namespace name options
    done (result object)

  -- what the handlers of one object share, with its kind, its options and its result
  unfoldable pub delete_named :
      Args
      → String
      → DeleteOptions
      → (String → String → ApiObject → DeleteResult)
      → Action (ToolState K D C) DeleteResult
  unfolding require_token target_of require_text delete_object
  delete_named args kind options result = do
    require_token args
    target ← target_of args
    name ← require_text "name" args
    delete_object kind target.0 target.1 name options (result target.1 name)

  unfoldable pub delete_pod : Args → Action (ToolState K D C) DeleteResult
  unfolding grace_period pod_message deleted_result
  delete_pod args =
      let force = bool_arg "force" false args in
      let grace =
        grace_period force (get_int32_arg env.int32_of_float args "gracePeriod" (pos 30)) in
      delete_named args "Pod" (record { grace_period_seconds = some grace; orphan = false })
        (λ namespace name object.
          record (deleted_result "Pod" namespace name (pod_message force grace) object) {
            force = force;
          })

  unfoldable pub delete_deployment : Args → Action (ToolState K D C) DeleteResult
  unfolding replicas_of deployment_message deleted_result
  delete_deployment args =
      let cascade = bool_arg "cascade" true args in
      delete_named args "Deployment" (record { grace_period_seconds = none; orphan = not cascade })
        (λ namespace name object.
          record (deleted_result "Deployment" namespace name
            (deployment_message cascade (replicas_of object.replicas)) object) {
              cascade = cascade;
            })

  unfoldable pub delete_service : Args → Action (ToolState K D C) DeleteResult
  unfolding deleted_result
  delete_service args = delete_named args "Service" no_options (λ namespace name object.
      deleted_result "Service" namespace name (service_deleted object.type_name) object)

  unfoldable pub delete_config_map : Args → Action (ToolState K D C) DeleteResult
  unfolding deleted_result
  delete_config_map args = delete_named args "ConfigMap" no_options (λ namespace name object.
      deleted_result "ConfigMap" namespace name (config_map_deleted object.data_count) object)

  unfoldable pub delete_secret : Args → Action (ToolState K D C) DeleteResult
  unfolding deleted_result
  delete_secret args = delete_named args "Secret" no_options (λ namespace name object.
      deleted_result "Secret" namespace name (secret_deleted object.type_name object.data_count)
        object)

  -- the namespace, the lists of what is in it, whose errors are ignored, and its deletion
  delete_namespace_object : String → K → Action (ToolState K D C) DeleteResult
  unfolding deleted_result
  delete_namespace_object name k = do
    object ← api_get env k "Namespace" "" name
    pods ← api_list env k "Pod" name ""
    deployments ← api_list env k "Deployment" name ""
    services ← api_list env k "Service" name ""
    let counts : Details = record {
      pods = length pods.0;
      deployments = length deployments.0;
      services = length services.0;
    }
    api_delete env k "Namespace" "" name no_options
    done
        (record (deleted_result "Namespace" "" name
          (namespace_deleted (counts.pods + counts.deployments + counts.services)) object) {
            details = some counts;
          })

  unfoldable pub delete_namespace : Args → Action (ToolState K D C) DeleteResult
  unfolding require_token require_text refuse_system delete_namespace_object
  delete_namespace args = do
    require_token args
    name ← require_text "name" args
    refuse_system system_namespaces name
    k ← get_client_set env (text_arg "context" args)
    delete_namespace_object name k
