-- ===== src/K8s/Manager.antt =====
-- The invariant of the client manager over its calls, and what a switch does.
use kubectl_mcp.Prelude.{
  ℕ, String, true, Bool-cases, Option, none, some, List, [], ◌∷◌, ◌≡◌, ◌≢◌, ◌⊎◌, inl, inr, refl,
  arith, str_eq, str_eq_iff, string_eq, if_elim,
}
use kubectl_mcp.GoMap.{GoMap, lookup, has}
use kubectl_mcp.K8s.{
  ClientGo, ClientSet, Config, KubeContext, ContextInfo, K8sClientManager, ManagerError,
  new_k8s_client_manager, loaded, validated, build_manager, parse_contexts, context_info,
  create_client_for_context, client_set_for_context, pooled_or_created, pool_created,
  switch_context, switch_tried, close,
}
use kubectl_mcp.K8s.Indexers.{get_service_indexer_for_context}
use kubectl_mcp.K8s.Indexers.Kept.{indexer-IsSound}
use kubectl_mcp.K8s.Sound.{MadeFor, IsSound, create-MadeFor, insert-IsSound}

context_info-namespace : (name : String) (k : KubeContext) → (context_info name k).namespace ≢ ""
unfolding context_info
context_info-namespace name k = ground (arith, str_eq_iff k.namespace "", str_eq_iff "default" "")

module _ {K D C : Type 0} (go : ClientGo K D C) where
  -- the calls that change the manager
  pub data Call : Type 0 where
    client_call : ℕ → String → Call
    switch_call : ℕ → String → Call
    close_call : Call
    -- with the error of `Start`
    indexer_call : ℕ → Option String → String → Call

  pub step : Call → K8sClientManager K D C → K8sClientManager K D C
  step (client_call now name) m = (client_set_for_context go now name m).0
  step (switch_call now name) m = (switch_context go now name m).0
  step close_call m = close m
  step (indexer_call now started name) m = (get_service_indexer_for_context go now started name m).0

  pub run : List Call → K8sClientManager K D C → K8sClientManager K D C
  unfolding step
  run [] m = m
  run (call ∷ calls) m = run calls (step call m)

  parse_contexts-named :
      (contexts : GoMap String KubeContext) (name : String) (ctx : ContextInfo)
      → lookup name (parse_contexts contexts) ≡ some ctx
      → (ctx.name ≡ name) × (ctx.namespace ≢ "")
  unfolding parse_contexts lookup context_info
  parse_contexts-named [] name ctx found = ground arith
  parse_contexts-named ((j, k) ∷ contexts) name ctx found = elim (Bool-cases (str_eq j name)) [
    | inl here ↦
        let e : context_info j k ≡ ctx = ground arith in
        rw (← e) ((str_eq_iff j name).0 here, context_info-namespace j k)
    | inr past ↦ parse_contexts-named contexts name ctx (ground arith)
  ]

  -- what a successful start has: the manager holds the file's contexts and an empty pool
  build_manager-IsSound :
      (path : String) (config : Config) (m : K8sClientManager K D C)
      → build_manager path config ≡ inr m
      → IsSound go m
  unfolding build_manager lookup
  build_manager-IsSound path config m h =
      let contexts : m.contexts ≡ parse_contexts config.contexts = ground arith in
      record {
        current = ground arith;
        named =
            λ name ctx found. parse_contexts-named config.contexts name ctx (rw (← contexts) found);
        pooled = λ name set found. ground arith;
        indexed = λ name k found. ground arith;
      }

  validated-inr :
      (path : String) (config : Config) (r : Option String) (m : K8sClientManager K D C)
      → validated path config r ≡ inr m
      → build_manager path config ≡ inr m
  unfolding validated
  validated-inr path config none m h = h
  validated-inr path config (some e) m h = ground arith

  loaded-IsSound :
      (path : String) (r : String ⊎ Config) (m : K8sClientManager K D C)
      → loaded go path r ≡ inr m
      → IsSound go m
  unfolding loaded
  loaded-IsSound path (inl e) m h = ground arith
  loaded-IsSound path (inr config) m h =
      build_manager-IsSound path config m (validated-inr path config (go.validate config) m h)

  -- A manager that starts is valid.
  pub new_manager-IsSound :
      (path : String) (m : K8sClientManager K D C)
      → new_k8s_client_manager go path ≡ inr m
      → IsSound go m
  unfolding new_k8s_client_manager
  new_manager-IsSound path m h = loaded-IsSound path (go.load_from_file path) m (ground arith)

  pool_created-IsSound :
      (now : ℕ) (name : String) (m : K8sClientManager K D C) (r : ManagerError ⊎ ClientSet K D C)
      → create_client_for_context go now name m ≡ r
      → IsSound go m
      → IsSound go (pool_created name m r).0
  unfolding pool_created
  pool_created-IsSound now name m (inl e) h v = v
  pool_created-IsSound now name m (inr set) h v =
      insert-IsSound go name set m (create-MadeFor go now name m set h) v

  pooled_or_created-IsSound :
      (now : ℕ) (name : String) (m : K8sClientManager K D C) (o : Option (ClientSet K D C))
      → IsSound go m
      → IsSound go (pooled_or_created go now name m o).0
  unfolding pooled_or_created
  pooled_or_created-IsSound now name m (some set) v = v
  pooled_or_created-IsSound now name m none v =
      pool_created-IsSound now name m (create_client_for_context go now name m) refl v

  client_set-IsSound :
      (now : ℕ) (name : String) (m : K8sClientManager K D C)
      → IsSound go m
      → IsSound go (client_set_for_context go now name m).0
  unfolding client_set_for_context
  client_set-IsSound now name m v =
      if_elim (λ (x : K8sClientManager K D C × (ManagerError ⊎ ClientSet K D C)). IsSound go x.0)
        (has name m.contexts)
        (λ _. pooled_or_created-IsSound now name m (lookup name m.client_pool) v) (λ _. v)

  pub Switched :
      String → K8sClientManager K D C → K8sClientManager K D C × Option ManagerError → Type 0
  Switched name m (m', e) =
      ((e ≢ none) × (m' ≡ m))
      ⊎ ((e ≡ none) × (has name m.contexts ≡ true) × (m' ≡ record m { current_ctx = name }))

  switch_tried-Switched :
      (name : String) (m : K8sClientManager K D C) (r : ManagerError ⊎ ClientSet K D C)
      → has name m.contexts ≡ true
      → Switched name m (switch_tried name m r)
  unfolding switch_tried Switched
  switch_tried-Switched name m (inl e) known = inl ((λ p. ground arith), refl)
  switch_tried-Switched name m (inr set) known = inr (refl, known, refl)

  -- A switch either reports an error and changes nothing, or reports none: then the context is one
  -- of the manager's, and nothing but the current context has changed.
  pub switch_context-Switched :
      (now : ℕ) (name : String) (m : K8sClientManager K D C)
      → Switched name m (switch_context go now name m)
  unfolding switch_context Switched
  switch_context-Switched now name m =
      if_elim (Switched name m) (has name m.contexts)
        (λ known.
          if_elim (Switched name m) (has name m.client_pool) (λ _. inr (refl, known, refl))
            (λ _. switch_tried-Switched name m (create_client_for_context go now name m) known))
        (λ _. inl ((λ p. ground arith), refl))

  current-IsSound :
      (name : String) (m : K8sClientManager K D C)
      → has name m.contexts ≡ true
      → IsSound go m
      → IsSound go (record m { current_ctx = name })
  unfolding MadeFor
  current-IsSound name m known v = record {
    current = known;
    named = v.named;
    pooled = v.pooled;
    indexed = v.indexed;
  }

  close-IsSound : (m : K8sClientManager K D C) → IsSound go m → IsSound go (close m)
  unfolding close lookup
  close-IsSound m v = record {
    current = v.current;
    named = v.named;
    pooled = λ name set found. ground arith;
    indexed = λ name k found. ground arith;
  }

  step-IsSound :
      (call : Call) (m : K8sClientManager K D C) → IsSound go m → IsSound go (step call m)
  unfolding step Switched
  step-IsSound (client_call now name) m v = client_set-IsSound now name m v
  step-IsSound (switch_call now name) m v = elim (switch_context-Switched now name m) [
    | inl (e, same) ↦ rw same v
    | inr (e, known, done) ↦ rw done (current-IsSound name m known v)
  ]
  step-IsSound close_call m v = close-IsSound m v
  step-IsSound (indexer_call now started name) m v = indexer-IsSound go now started name m v

  -- Every sequence of the calls that change a manager leaves a valid one valid: the current context
  -- exists, every context has its own name and a namespace, and every pooled client set, and the
  -- clientset of every indexer, was made by client-go for the context that it stands under.
  pub run-IsSound :
      (calls : List Call) (m : K8sClientManager K D C) → IsSound go m → IsSound go (run calls m)
  unfolding run
  run-IsSound [] m v = v
  run-IsSound (call ∷ calls) m v = run-IsSound calls (step call m) (step-IsSound call m v)
