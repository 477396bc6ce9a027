-- ===== src/K8s/Sound.antt =====
-- What a valid client manager is, and what a client set that it makes is.
use kubectl_mcp.Prelude.{
  ℕ, String, true, Bool-cases, some, ◌≡◌, ◌≢◌, ◌⊎◌, inl, inr, refl, arith, str_eq, str_eq_iff,
  string_eq,
}
use kubectl_mcp.GoMap.{lookup, has, insert}
use kubectl_mcp.GoMap.Laws.{lookup-insert}
use kubectl_mcp.K8s.{
  ClientGo, ClientSet, ContextInfo, K8sClientManager, create_client_for_context, with_rest_config,
  with_clientset, with_dynamic,
}

module _ {K D C : Type 0} (go : ClientGo K D C) where
  -- A client set that client-go made, at some time, for the context of this name.
  unfoldable pub MadeFor : K8sClientManager K D C → String → ClientSet K D C → Type 0
  MadeFor m name set =
      (now : ℕ) × (go.client_config now m.kubeconfig_path name ≡ inr set.rest_config)
      × (go.new_for_config now set.rest_config ≡ inr set.clientset)
      × (go.new_dynamic_for_config now set.rest_config ≡ inr set.dynamic_client)

  pub record IsSound (m : K8sClientManager K D C) : Type 0 where
    pub current : has m.current_ctx m.contexts ≡ true
    pub named :
        (name : String) (ctx : ContextInfo)
        → lookup name m.contexts ≡ some ctx
        → (ctx.name ≡ name) × (ctx.namespace ≢ "")
    pub pooled :
        (name : String) (set : ClientSet K D C)
        → lookup name m.client_pool ≡ some set
        → MadeFor m name set
    pub indexed :
        (name : String) (k : K)
        → lookup name m.service_indexers ≡ some k
        → (set : ClientSet K D C) × (set.clientset ≡ k) × MadeFor m name set

  with_dynamic-inr :
      (config : C) (k : K) (r : String ⊎ D) (set : ClientSet K D C)
      → with_dynamic config k r ≡ inr set
      → (config ≡ set.rest_config) × (k ≡ set.clientset) × (r ≡ inr set.dynamic_client)
  unfolding with_dynamic
  with_dynamic-inr config k (inl e) set h = ground arith
  with_dynamic-inr config k (inr d) set h = ground arith

  with_clientset-inr :
      (now : ℕ) (config : C) (r : String ⊎ K) (set : ClientSet K D C)
      → with_clientset go now config r ≡ inr set
      → (config ≡ set.rest_config)
        × (r ≡ inr set.clientset)
        × (go.new_dynamic_for_config now config ≡ inr set.dynamic_client)
  unfolding with_clientset
  with_clientset-inr now config (inl e) set h = ground arith
  with_clientset-inr now config (inr k) set h =
      ground (arith, with_dynamic-inr config k (go.new_dynamic_for_config now config) set h)

  with_rest_config-inr :
      (now : ℕ) (r : String ⊎ C) (set : ClientSet K D C)
      → with_rest_config go now r ≡ inr set
      → (r ≡ inr set.rest_config)
        × (go.new_for_config now set.rest_config ≡ inr set.clientset)
        × (go.new_dynamic_for_config now set.rest_config ≡ inr set.dynamic_client)
  unfolding with_rest_config
  with_rest_config-inr now (inl e) set h = ground arith
  with_rest_config-inr now (inr config) set h =
      let (e, f, g) = with_clientset-inr now config (go.new_for_config now config) set h in
      rw (← e) (refl, f, g)

  pub create-MadeFor :
      (now : ℕ) (name : String) (m : K8sClientManager K D C) (set : ClientSet K D C)
      → create_client_for_context go now name m ≡ inr set
      → MadeFor m name set
  unfolding create_client_for_context MadeFor
  create-MadeFor now name m set e =
      let (f, g, h) =
        with_rest_config-inr now (go.client_config now m.kubeconfig_path name) set e in
      (now, f, g, h)

  -- a pool with one client set more, that was made for its context
  pub insert-IsSound :
      (name : String) (set : ClientSet K D C) (m : K8sClientManager K D C)
      → MadeFor m name set
      → IsSound m
      → IsSound (record m { client_pool = insert name set m.client_pool })
  unfolding MadeFor
  insert-IsSound name set m made v = record {
    current = v.current;
    named = v.named;
    pooled = λ j other found. elim (Bool-cases (str_eq name j)) [
      | inl here ↦
          let e : name ≡ j = (str_eq_iff name j).0 here in
          let f : set ≡ other = ground (arith, lookup-insert name j set m.client_pool) in
          rw (← e, ← f) made
      | inr past ↦ v.pooled j other (ground (arith, lookup-insert name j set m.client_pool))
    ];
    indexed = v.indexed;
  }
