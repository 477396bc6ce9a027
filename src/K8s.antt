-- ===== src/K8s.antt =====
-- internal/k8s/client.go and internal/k8s/context.go: `K8SClientManager`. An indexer of Services is the
-- clientset that it was made with.
-- What client-go does is the record `ClientGo`; each of its calls is made at a time, since the file
-- and the network behind it may differ from one call to the next.
pub mod Sound
pub mod Indexers
pub mod Manager
pub mod Clients
mod Tests
use kubectl_mcp.Prelude.{
  ℕ, String, Bool, true, false, Option, none, some, List, [], ◌∷◌, ◌⊎◌, inl, inr, map, length, ◌==◌,
  str_eq, string_eq, if◌then◌else◌, is_some,
}
use kubectl_mcp.GoMap.{GoMap, lookup, has, insert}

pub record ContextInfo : Type 0 where
  pub name : String
  pub cluster : String
  pub user : String
  pub namespace : String

-- client-go's `Context`, by the fields that the source reads
pub record KubeContext : Type 0 where
  pub cluster : String
  pub auth_info : String
  pub namespace : String

-- client-go's `Config`, likewise; `clusters` gives the server of each cluster
pub record Config : Type 0 where
  pub contexts : GoMap String KubeContext
  pub clusters : GoMap String String
  pub current_context : String

-- K, D and C are client-go's clientset, dynamic client and REST configuration.
pub record ClientSet (K D C : Type 0) : Type 0 where
  pub clientset : K
  pub dynamic_client : D
  pub rest_config : C

-- client-go, with its errors as their messages
pub record ClientGo (K D C : Type 0) : Type 0 where
  -- `clientcmd.LoadFromFile`
  pub load_from_file : String → String ⊎ Config
  -- `clientcmd.Validate`
  pub validate : Config → Option String
  -- the deferred loader's `ClientConfig`, of a path and the name of a context
  pub client_config : ℕ → String → String → String ⊎ C
  -- `kubernetes.NewForConfig`
  pub new_for_config : ℕ → C → String ⊎ K
  -- `dynamic.NewForConfig`
  pub new_dynamic_for_config : ℕ → C → String ⊎ D

pub record K8sClientManager (K D C : Type 0) : Type 0 where
  pub kubeconfig_path : String
  pub raw_config : Config
  pub contexts : GoMap String ContextInfo
  pub current_ctx : String
  pub client_pool : GoMap String (ClientSet K D C)
  pub service_indexers : GoMap String K

-- the errors, by the message that each stands for, with the error that is wrapped
pub data ManagerError : Type 0 where
  path_empty : ManagerError
  load_failed : String → ManagerError
  config_invalid : String → ManagerError
  no_contexts : ManagerError
  current_not_in_config : String → ManagerError
  context_not_exists : String → ManagerError
  current_not_exists : String → ManagerError
  rest_config_failed : String → ManagerError
  clientset_failed : String → ManagerError
  dynamic_failed : String → ManagerError
  client_failed : String → ManagerError → ManagerError
  cannot_switch : String → ManagerError → ManagerError
  indexer_client_failed : ManagerError → ManagerError
  indexer_start_failed : String → ManagerError

-- one context of the file, under the name it has there
context_info : String → KubeContext → ContextInfo
context_info name ctx = record {
  name = name;
  cluster = ctx.cluster;
  user = ctx.auth_info;
  namespace = if str_eq ctx.namespace "" then "default" else ctx.namespace;
}

-- the loop over `config.Contexts`
parse_contexts : GoMap String KubeContext → GoMap String ContextInfo
unfolding context_info
parse_contexts [] = []
parse_contexts ((name, ctx) ∷ contexts) = (name, context_info name ctx) ∷ parse_contexts contexts

-- the first key that `range` visits
first_key : {V : Type 0} → GoMap String V → String
first_key [] = ""
first_key ((name, v) ∷ m) = name

-- the context of a new manager
initial_context : Config → GoMap String ContextInfo → String
unfolding first_key
initial_context config contexts =
    if str_eq config.current_context "" then first_key contexts else config.current_context

namespace_of : ManagerError → Option ContextInfo → ManagerError ⊎ String
namespace_of e none = inl e
namespace_of e (some ctx) = inr ctx.namespace

server_of : Option String → String
server_of none = "unknown"
server_of (some server) = server

cluster_server : GoMap String String → Option ContextInfo → String
unfolding server_of
cluster_server clusters none = "unknown"
cluster_server clusters (some ctx) = server_of (lookup ctx.cluster clusters)

module _ {K D C : Type 0} where
  build_manager : String → Config → ManagerError ⊎ K8sClientManager K D C
  unfolding parse_contexts initial_context
  build_manager path config =
      let contexts = parse_contexts config.contexts in
      let current = initial_context config contexts in
      if length contexts == 0
      then inl no_contexts
      else if has current contexts
      then inr (record {
        kubeconfig_path = path;
        raw_config = config;
        contexts = contexts;
        current_ctx = current;
        client_pool = [];
        service_indexers = [];
      })
      else inl (current_not_in_config current)

  validated : String → Config → Option String → ManagerError ⊎ K8sClientManager K D C
  unfolding build_manager
  validated path config none = build_manager path config
  validated path config (some e) = inl (config_invalid e)

  loaded : ClientGo K D C → String → String ⊎ Config → ManagerError ⊎ K8sClientManager K D C
  unfolding validated
  loaded go path (inl e) = inl (load_failed e)
  loaded go path (inr config) = validated path config (go.validate config)

  unfoldable pub new_k8s_client_manager :
      ClientGo K D C → String → ManagerError ⊎ K8sClientManager K D C
  unfolding loaded
  new_k8s_client_manager go path =
      if str_eq path "" then inl path_empty else loaded go path (go.load_from_file path)

  with_dynamic : C → K → String ⊎ D → ManagerError ⊎ ClientSet K D C
  with_dynamic config clientset (inl e) = inl (dynamic_failed e)
  with_dynamic config clientset (inr d) =
      inr (record { clientset = clientset; dynamic_client = d; rest_config = config })

  with_clientset : ClientGo K D C → ℕ → C → String ⊎ K → ManagerError ⊎ ClientSet K D C
  unfolding with_dynamic
  with_clientset go now config (inl e) = inl (clientset_failed e)
  with_clientset go now config (inr k) =
      with_dynamic config k (go.new_dynamic_for_config now config)

  with_rest_config : ClientGo K D C → ℕ → String ⊎ C → ManagerError ⊎ ClientSet K D C
  unfolding with_clientset
  with_rest_config go now (inl e) = inl (rest_config_failed e)
  with_rest_config go now (inr config) = with_clientset go now config (go.new_for_config now config)

  unfoldable pub create_client_for_context :
      ClientGo K D C → ℕ → String → K8sClientManager K D C → ManagerError ⊎ ClientSet K D C
  unfolding with_rest_config
  create_client_for_context go now name m =
      with_rest_config go now (go.client_config now m.kubeconfig_path name)

  -- the client set is put into the pool, unless there was an error
  pool_created :
      String
      → K8sClientManager K D C
      → ManagerError ⊎ ClientSet K D C
      → K8sClientManager K D C × (ManagerError ⊎ ClientSet K D C)
  pool_created name m (inl e) = (m, inl (client_failed name e))
  pool_created name m (inr set) =
      (record m { client_pool = insert name set m.client_pool }, inr set)

  pooled_or_created :
      ClientGo K D C
      → ℕ
      → String
      → K8sClientManager K D C
      → Option (ClientSet K D C)
      → K8sClientManager K D C × (ManagerError ⊎ ClientSet K D C)
  unfolding pool_created
  pooled_or_created go now name m (some set) = (m, inr set)
  pooled_or_created go now name m none =
      pool_created name m (create_client_for_context go now name m)

  -- what `GetClientForContext`, `GetDynamicClientForContext` and `GetRestConfigForContext` share:
  -- the client set of a context, from the pool or new
  unfoldable pub client_set_for_context :
      ClientGo K D C
      → ℕ
      → String
      → K8sClientManager K D C
      → K8sClientManager K D C × (ManagerError ⊎ ClientSet K D C)
  unfolding pooled_or_created
  client_set_for_context go now name m =
      if has name m.contexts
      then pooled_or_created go now name m (lookup name m.client_pool)
      else (m, inl (context_not_exists name))

  on_set : {A : Type 0} → (ClientSet K D C → A) → ManagerError ⊎ ClientSet K D C → ManagerError ⊎ A
  on_set f (inl e) = inl e
  on_set f (inr set) = inr (f set)

  unfoldable pub get_client_for_context :
      ClientGo K D C
      → ℕ
      → String
      → K8sClientManager K D C
      → K8sClientManager K D C × (ManagerError ⊎ K)
  unfolding on_set
  get_client_for_context go now name m =
      let (m', result) = client_set_for_context go now name m in
      (m', on_set (λ set. set.clientset) result)

  unfoldable pub get_dynamic_client_for_context :
      ClientGo K D C
      → ℕ
      → String
      → K8sClientManager K D C
      → K8sClientManager K D C × (ManagerError ⊎ D)
  unfolding on_set
  get_dynamic_client_for_context go now name m =
      let (m', result) = client_set_for_context go now name m in
      (m', on_set (λ set. set.dynamic_client) result)

  unfoldable pub get_rest_config_for_context :
      ClientGo K D C
      → ℕ
      → String
      → K8sClientManager K D C
      → K8sClientManager K D C × (ManagerError ⊎ C)
  unfolding on_set
  get_rest_config_for_context go now name m =
      let (m', result) = client_set_for_context go now name m in
      (m', on_set (λ set. set.rest_config) result)

  unfoldable pub get_client :
      ClientGo K D C → ℕ → K8sClientManager K D C → K8sClientManager K D C × (ManagerError ⊎ K)
  get_client go now m = get_client_for_context go now m.current_ctx m

  -- the trial client of `SwitchContext`, which is not kept
  switch_tried :
      String
      → K8sClientManager K D C
      → ManagerError ⊎ ClientSet K D C
      → K8sClientManager K D C × Option ManagerError
  switch_tried name m (inl e) = (m, some (cannot_switch name e))
  switch_tried name m (inr set) = (record m { current_ctx = name }, none)

  unfoldable pub switch_context :
      ClientGo K D C
      → ℕ
      → String
      → K8sClientManager K D C
      → K8sClientManager K D C × Option ManagerError
  unfolding switch_tried
  switch_context go now name m =
      if has name m.contexts
      then (if has name m.client_pool
          then (record m { current_ctx = name }, none)
          else switch_tried name m (create_client_for_context go now name m))
      else (m, some (context_not_exists name))

  -- `Close`, which also stops the indexers
  unfoldable pub close : K8sClientManager K D C → K8sClientManager K D C
  close m = record m { client_pool = []; service_indexers = [] }

  unfoldable pub list_contexts : K8sClientManager K D C → List ContextInfo
  list_contexts m = map (λ entry. entry.1) m.contexts

  unfoldable pub get_current_context : K8sClientManager K D C → String
  get_current_context m = m.current_ctx

  unfoldable pub get_context_info : String → K8sClientManager K D C → ManagerError ⊎ ContextInfo
  get_context_info name m = elim (lookup name m.contexts) [
    | none ↦ inl (context_not_exists name)
    | some ctx ↦ inr ctx
  ]

  unfoldable pub get_default_namespace : K8sClientManager K D C → ManagerError ⊎ String
  unfolding namespace_of
  get_default_namespace m =
      namespace_of (current_not_exists m.current_ctx) (lookup m.current_ctx m.contexts)

  unfoldable pub get_default_namespace_for_context :
      String → K8sClientManager K D C → ManagerError ⊎ String
  unfolding namespace_of
  get_default_namespace_for_context name m =
      namespace_of (context_not_exists name) (lookup name m.contexts)

  unfoldable pub get_cluster_server : K8sClientManager K D C → String
  unfolding cluster_server
  get_cluster_server m = cluster_server m.raw_config.clusters (lookup m.current_ctx m.contexts)
