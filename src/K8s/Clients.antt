-- ===== src/K8s/Clients.antt =====
-- What a valid manager hands out: its clients and its default namespace.
use kubectl_mcp.Prelude.{
  ℕ, String, true, Option-cases, Option, none, some, ◌≡◌, ◌≢◌, ◌⊎◌, inl, inr, refl, arith,
  string_eq, is_some,
}
use kubectl_mcp.GoMap.{lookup, has}
use kubectl_mcp.K8s.{
  ClientGo, ClientSet, K8sClientManager, ManagerError, create_client_for_context,
  client_set_for_context, pooled_or_created, pool_created, get_default_namespace, on_set,
  get_client_for_context,
}
use kubectl_mcp.K8s.Sound.{MadeFor, IsSound, create-MadeFor}

missing : {A : Type 0} {o : Option A} → is_some o ≡ true → o ≢ none
missing h e = ground arith

module _ {K D C : Type 0} (go : ClientGo K D C) where
  -- A valid manager has a namespace for its current context, and it is not empty.
  pub default_namespace-IsSound :
      (m : K8sClientManager K D C)
      → IsSound go m
      → (namespace : String) × (get_default_namespace m ≡ inr namespace) × (namespace ≢ "")
  unfolding get_default_namespace has
  default_namespace-IsSound m v = elim (Option-cases (lookup m.current_ctx m.contexts)) [
    | inl e ↦ absurd (missing v.current e)
    | inr (ctx, e) ↦ (ctx.namespace, rw e refl, (v.named m.current_ctx ctx e).1)
  ]

  pool_created-inr :
      (name : String) (m : K8sClientManager K D C) (r : ManagerError ⊎ ClientSet K D C)
      (set : ClientSet K D C)
      → (pool_created name m r).1 ≡ inr set
      → r ≡ inr set
  unfolding pool_created
  pool_created-inr name m (inl e) set h = ground arith
  pool_created-inr name m (inr other) set h = h

  pooled_or_created-MadeFor :
      (now : ℕ) (name : String) (m : K8sClientManager K D C) (o : Option (ClientSet K D C))
      (set : ClientSet K D C)
      → lookup name m.client_pool ≡ o
      → IsSound go m
      → (pooled_or_created go now name m o).1 ≡ inr set
      → MadeFor go m name set
  unfolding pooled_or_created
  pooled_or_created-MadeFor now name m (some other) set e v h = v.pooled name set (ground arith)
  pooled_or_created-MadeFor now name m none set e v h =
      create-MadeFor go now name m set
        (pool_created-inr name m (create_client_for_context go now name m) set h)

  client_set-MadeFor :
      (now : ℕ) (name : String) (m : K8sClientManager K D C) (set : ClientSet K D C)
      → IsSound go m
      → (client_set_for_context go now name m).1 ≡ inr set
      → MadeFor go m name set
  unfolding client_set_for_context
  client_set-MadeFor now name m set v h =
      pooled_or_created-MadeFor now name m (lookup name m.client_pool) set refl v (ground arith)

  on_set-inr :
      {A : Type 0} (f : ClientSet K D C → A) (r : ManagerError ⊎ ClientSet K D C) (a : A)
      → on_set f r ≡ inr a
      → (set : ClientSet K D C) × (r ≡ inr set) × (f set ≡ a)
  unfolding on_set
  on_set-inr f (inl e) a h = ground arith
  on_set-inr f (inr set) a h = (set, refl, ground arith)

  -- The client that a valid manager hands out for a context, pooled or new, is of a client set that
  -- client-go made for that context and no other.
  pub get_client-MadeFor :
      (now : ℕ) (name : String) (m : K8sClientManager K D C) (client : K)
      → IsSound go m
      → (get_client_for_context go now name m).1 ≡ inr client
      → (set : ClientSet K D C) × (set.clientset ≡ client) × MadeFor go m name set
  unfolding get_client_for_context
  get_client-MadeFor now name m client v h =
      let (set, e, f) =
        on_set-inr (λ s. s.clientset) (client_set_for_context go now name m).1 client h in
      (set, f, client_set-MadeFor now name m set v e)
