-- ===== src/K8s/Indexers.antt =====
-- internal/k8s/client.go: `GetServiceIndexer` and `GetServiceIndexerForContext`.
pub mod Kept
use kubectl_mcp.Prelude.{ℕ, String, Option, none, some, ◌⊎◌, inl, inr, string_eq}
use kubectl_mcp.GoMap.{lookup, insert}
use kubectl_mcp.K8s.{
  ClientGo, ClientSet, K8sClientManager, ManagerError, indexer_start_failed, indexer_client_failed,
  create_client_for_context,
}

module _ {K D C : Type 0} where
  -- an indexer of the clientset is started, and kept unless `Start` has an error
  start_indexer :
      Option String
      → String
      → K
      → K8sClientManager K D C
      → K8sClientManager K D C × (ManagerError ⊎ K)
  start_indexer none name k m =
      (record m { service_indexers = insert name k m.service_indexers }, inr k)
  start_indexer (some e) name k m = (m, inl (indexer_start_failed e))

  -- a client that is made for an indexer is put into the pool
  index_created :
      Option String
      → String
      → K8sClientManager K D C
      → ManagerError ⊎ ClientSet K D C
      → K8sClientManager K D C × (ManagerError ⊎ K)
  unfolding start_indexer
  index_created started name m (inl e) = (m, inl (indexer_client_failed e))
  index_created started name m (inr set) =
      start_indexer started name set.clientset
        (record m { client_pool = insert name set m.client_pool })

  index_pooled :
      ClientGo K D C
      → ℕ
      → Option String
      → String
      → K8sClientManager K D C
      → Option (ClientSet K D C)
      → K8sClientManager K D C × (ManagerError ⊎ K)
  unfolding start_indexer index_created
  index_pooled go now started name m (some set) = start_indexer started name set.clientset m
  index_pooled go now started name m none =
      index_created started name m (create_client_for_context go now name m)

  index_known :
      ClientGo K D C
      → ℕ
      → Option String
      → String
      → K8sClientManager K D C
      → Option K
      → K8sClientManager K D C × (ManagerError ⊎ K)
  unfolding index_pooled
  index_known go now started name m (some k) = (m, inr k)
  index_known go now started name m none =
      index_pooled go now started name m (lookup name m.client_pool)

  -- `GetServiceIndexerForContext`, by the error that `Start` of a new indexer has. The name is not
  -- looked for among the contexts.
  unfoldable pub get_service_indexer_for_context :
      ClientGo K D C
      → ℕ
      → Option String
      → String
      → K8sClientManager K D C
      → K8sClientManager K D C × (ManagerError ⊎ K)
  unfolding index_known
  get_service_indexer_for_context go now started name m =
      index_known go now started name m (lookup name m.service_indexers)

  unfoldable pub get_service_indexer :
      ClientGo K D C
      → ℕ
      → Option String
      → K8sClientManager K D C
      → K8sClientManager K D C × (ManagerError ⊎ K)
  get_service_indexer go now started m =
      get_service_indexer_for_context go now started m.current_ctx m
