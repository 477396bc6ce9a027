-- ===== src/Deletion/Single/Namespaces.antt =====
-- The deletion of a namespace: which ones, and by which calls.
use kubectl_mcp.Prelude.{
  String, List, [], ◌∷◌, ◌⊎◌, inl, inr, ◌≡◌, ◌≢◌, refl, arith, str_eq, str_eq_iff, string_eq, All,
  Bool-cases,
}
use kubectl_mcp.Registry.{Args}
use kubectl_mcp.Deletion.{
  ◌>>=◌, no_options, get_call, list_call, delete_call, ApiObject, Env, ToolState, Failure, no_token,
  parameter_required, system_namespace, get_failed, text_arg, get_client_set, api_get, api_list,
  api_delete,
}
use kubectl_mcp.Deletion.Single.{
  DeleteResult, system_namespaces, require_token, require_text, refuse_system,
  delete_namespace_object, delete_namespace,
}
use kubectl_mcp.Deletion.Single.Requests.{Authorized, Idle, sum-cases, get_client_set-calls}

refuse_system-cases :
    {S : Type 0} (namespaces : List String) (name : String) (s : S)
    → (refuse_system namespaces name s ≡ (s, inl (system_namespace name)))
      ⊎ (All (λ namespace. name ≢ namespace) namespaces
          × (refuse_system namespaces name s ≡ (s, inr tt)))
unfolding refuse_system
refuse_system-cases [] name s = inr (tt, refl)
refuse_system-cases (n ∷ ns) name s = elim (Bool-cases (str_eq name n)) [
  | inl e ↦ inl (rw e)
  | inr e ↦ rw e (elim (refuse_system-cases ns name s) [
    | inl refused ↦ inl refused
    | inr (others, passed) ↦ inr ((ground (arith, str_eq_iff name n), others), passed)
  ])
]

module _ {K D C : Type 0} where
  -- The namespace is read through the client, which fails, or read, listed, and deleted.
  pub NamespaceRequested :
      Env K D C
      → String
      → String
      → ToolState K D C
      → ToolState K D C × (Failure ⊎ DeleteResult)
      → Type 0
  NamespaceRequested env context_name name s (s', r) =
      (k : K) × ((get_client_set env context_name s).1 ≡ inr k)
      × (((s'.calls ≡ (k, get_call "Namespace" "" name) ∷ s.calls) × ((e : Failure) × (r ≡ inl e)))
          ⊎ ((object : ApiObject) × (env.api.get s.calls k "Namespace" "" name ≡ inr object)
              × (s'.calls
                  ≡ (k, delete_call "Namespace" "" name no_options)
                    ∷ (k, list_call "Service" name "")
                    ∷ (k, list_call "Deployment" name "")
                    ∷ (k, list_call "Pod" name "")
                    ∷ (k, get_call "Namespace" "" name)
                    ∷ s.calls)))

  delete_namespace_object_lem :
      (env : Env K D C) (context_name name : String) (s : ToolState K D C) (k : K)
      → (get_client_set env context_name s).1 ≡ inr k
      → NamespaceRequested env context_name name s
          (delete_namespace_object env name k (get_client_set env context_name s).0)
  unfolding delete_namespace_object NamespaceRequested api_get api_list api_delete
  delete_namespace_object_lem env context_name name s k q =
      let t : ToolState K D C = (get_client_set env context_name s).0 in
      let same : t.calls ≡ s.calls = get_client_set-calls env context_name s in
      elim (sum-cases (env.api.get s.calls k "Namespace" "" name)) [
        | inl (m, missing) ↦
            (k, q, inl (ground arith, (get_failed "Namespace" "" name m, ground arith)))
        | inr (object, found) ↦ (k, q, inr (object, found, ground arith))
      ]

  -- what the handler does once the arguments are checked
  delete_by_client :
      Env K D C → String → String → ToolState K D C → ToolState K D C × (Failure ⊎ DeleteResult)
  delete_by_client env context_name name s =
      (get_client_set env context_name >>= delete_namespace_object env name) s

  named :
      (env : Env K D C) (args : Args) (s : ToolState K D C)
      → Authorized args
      → All (λ namespace. text_arg "name" args ≢ namespace) system_namespaces
      → Idle s (delete_by_client env (text_arg "context" args) (text_arg "name" args) s)
        ⊎ (Authorized args
            × All (λ namespace. text_arg "name" args ≢ namespace) system_namespaces
            × NamespaceRequested env
                (text_arg "context" args)
                (text_arg "name" args)
                s
                (delete_by_client env (text_arg "context" args) (text_arg "name" args) s))
  unfolding delete_by_client Idle
  named env args s a others = elim (sum-cases (get_client_set env (text_arg "context" args) s).1) [
    | inl (e, q) ↦
        inl
          (ground (arith, get_client_set-calls env (text_arg "context" args) s), (e, ground arith))
    | inr (k, q) ↦
        let passed : get_client_set env (text_arg "context" args) s
            ≡ ((get_client_set env (text_arg "context" args) s).0, inr k) =
          ground arith in
        inr (
          a,
          others,
          rw passed (
              delete_namespace_object_lem env (text_arg "context" args) (text_arg "name" args) s k
                q),
        )
  ]

  -- Deleting a namespace either makes no call of the API and fails, or it has a token and a name that are
  -- not empty, the name is none of the four system namespaces, and it reads the namespace through the
  -- client of the named context and, only if it is there, lists its pods, deployments and services and
  -- deletes it, once.
  pub delete_namespace_lem :
      (env : Env K D C) (args : Args) (s : ToolState K D C)
      → Idle s (delete_namespace env args s)
        ⊎ (Authorized args
            × All (λ namespace. text_arg "name" args ≢ namespace) system_namespaces
            × NamespaceRequested env
                (text_arg "context" args)
                (text_arg "name" args)
                s
                (delete_namespace env args s))
  unfolding delete_namespace require_token require_text Idle delete_by_client
  delete_namespace_lem env args s =
      elim (Bool-cases (str_eq (text_arg "confirmationToken" args) "")) [
        | inl e ↦ rw e (inl (refl, (no_token, refl)))
        | inr token ↦ elim (Bool-cases (str_eq (text_arg "name" args) "")) [
          | inl e ↦ rw (token, e) (inl (refl, (parameter_required "name", refl)))
          | inr name ↦
              rw (token, name)
                (elim (refuse_system-cases system_namespaces (text_arg "name" args) s) [
                  | inl refused ↦
                      rw refused (inl (refl, (system_namespace (text_arg "name" args), refl)))
                  | inr (others, passed) ↦ rw passed (
                      named env args s
                        (record {
                          token = ground (arith, str_eq_iff (text_arg "confirmationToken" args) "");
                          name = ground (arith, str_eq_iff (text_arg "name" args) "");
                        })
                        others)
                ])
        ]
      ]
