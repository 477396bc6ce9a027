-- ===== src/K8s/Indexers/Kept.antt =====
-- The indexers of a valid client manager.
use kubectl_mcp.Prelude.{
  ℕ, String, Bool-cases, Option, none, some, ◌≡◌, ◌⊎◌, inl, inr, refl, arith, str_eq, str_eq_iff,
  string_eq,
}
use kubectl_mcp.GoMap.{lookup, insert}
use kubectl_mcp.GoMap.Laws.{lookup-insert}
use kubectl_mcp.K8s.{ClientGo, ClientSet, K8sClientManager, ManagerError, create_client_for_context}
use kubectl_mcp.K8s.Indexers.{
  start_indexer, index_created, index_pooled, index_known, get_service_indexer_for_context,
}
use kubectl_mcp.K8s.Sound.{MadeFor, IsSound, create-MadeFor, insert-IsSound}

module _ {K D C : Type 0} (go : ClientGo K D C) where
  start_indexer-IsSound :
      (started : Option String) (name : String) (set : ClientSet K D C) (m : K8sClientManager K D C)
      → MadeFor go m name set
      → IsSound go m
      → IsSound go (start_indexer started name set.clientset m).0
  unfolding start_indexer MadeFor
  start_indexer-IsSound (some e) name set m made v = v
  start_indexer-IsSound none name set m made v = record {
    current = v.current;
    named = v.named;
    pooled = v.pooled;
    indexed = λ j k found. elim (Bool-cases (str_eq name j)) [
      | inl here ↦
          let e : name ≡ j = (str_eq_iff name j).0 here in
          let f : set.clientset ≡ k =
            ground (arith, lookup-insert name j set.clientset m.service_indexers) in
          rw (← e) (set, f, made)
      | inr past ↦
          v.indexed j k (ground (arith, lookup-insert name j set.clientset m.service_indexers))
    ];
  }

  index_created-IsSound :
      (now : ℕ) (started : Option String) (name : String) (m : K8sClientManager K D C)
      (r : ManagerError ⊎ ClientSet K D C)
      → create_client_for_context go now name m ≡ r
      → IsSound go m
      → IsSound go (index_created started name m r).0
  unfolding index_created MadeFor
  index_created-IsSound now started name m (inl e) h v = v
  index_created-IsSound now started name m (inr set) h v =
      let made = create-MadeFor go now name m set h in
      start_indexer-IsSound started name set
        (record m { client_pool = insert name set m.client_pool }) made
        (insert-IsSound go name set m made v)

  index_pooled-IsSound :
      (now : ℕ) (started : Option String) (name : String) (m : K8sClientManager K D C)
      (o : Option (ClientSet K D C))
      → lookup name m.client_pool ≡ o
      → IsSound go m
      → IsSound go (index_pooled go now started name m o).0
  unfolding index_pooled
  index_pooled-IsSound now started name m (some set) e v =
      start_indexer-IsSound started name set m (v.pooled name set e) v
  index_pooled-IsSound now started name m none e v =
      index_created-IsSound now started name m (create_client_for_context go now name m) refl v

  index_known-IsSound :
      (now : ℕ) (started : Option String) (name : String) (m : K8sClientManager K D C)
      (o : Option K)
      → IsSound go m
      → IsSound go (index_known go now started name m o).0
  unfolding index_known
  index_known-IsSound now started name m (some k) v = v
  index_known-IsSound now started name m none v =
      index_pooled-IsSound now started name m (lookup name m.client_pool) refl v

  pub indexer-IsSound :
      (now : ℕ) (started : Option String) (name : String) (m : K8sClientManager K D C)
      → IsSound go m
      → IsSound go (get_service_indexer_for_context go now started name m).0
  unfolding get_service_indexer_for_context
  indexer-IsSound now started name m v =
      index_known-IsSound now started name m (lookup name m.service_indexers) v
