-- ===== src/Deletion/Single/Requests.antt =====
-- The calls of the API that the deletions of one resource make.
use kubectl_mcp.Prelude.{
  String, true, false, Option, none, some, ◌∷◌, ◌⊎◌, inl, inr, ◌≡◌, ◌≢◌, refl, str_eq, string_eq,
  not, Bool-cases,
}
use kubectl_mcp.Prelude.Int.{pos}
use kubectl_mcp.Registry.{Args}
use kubectl_mcp.K8s.{K8sClientManager, ManagerError}
use kubectl_mcp.Deletion.{
  DeleteOptions, no_options, get_call, delete_call, ApiObject, Env, ToolState, Failure,
  delete_failed, text_arg, bool_arg, get_int32_arg, get_context_and_namespace, get_client_set,
  client_of,
}
use kubectl_mcp.Deletion.Single.{
  DeleteResult, or_default, grace_period, delete_pod, delete_deployment, delete_service,
  delete_config_map, delete_secret,
}

-- the tools that delete one object of a namespace
pub data SingleTool : Type 0 where
  pod deployment service config_map secret : SingleTool

abbrev pub kind_of : SingleTool → String
kind_of pod = "Pod"
kind_of deployment = "Deployment"
kind_of service = "Service"
kind_of config_map = "ConfigMap"
kind_of secret = "Secret"

-- the token and the name are texts that are not empty
pub record Authorized (args : Args) : Type 0 where
  pub token : text_arg "confirmationToken" args ≢ ""
  pub name : text_arg "name" args ≢ ""

-- the result of a deletion names the object and carries the time at which it was created
StampsCreation : String → String → (ApiObject → DeleteResult) → Type 0
StampsCreation namespace name result =
    (object : ApiObject)
    → ((result object).name ≡ name)
      × ((result object).namespace ≡ namespace)
      × ((result object).deleted_at ≡ object.created)

pub sum-cases : {A B : Type 0} (x : A ⊎ B) → ((a : A) × (x ≡ inl a)) ⊎ ((b : B) × (x ≡ inr b))
sum-cases (inl a) = inl (a, refl)
sum-cases (inr b) = inr (b, refl)

-- what the handler makes of the answer to the deletion: its error, or a result
unfoldable pub Answered :
    String → String → String → Option String → ApiObject → Failure ⊎ DeleteResult → Type 0
Answered kind namespace name (some m) object r = r ≡ inl (delete_failed kind namespace name m)
Answered kind namespace name none object r =
    (result : DeleteResult) × (r ≡ inr result)
    × (result.name ≡ name)
    × (result.namespace ≡ namespace)
    × (result.deleted_at ≡ object.created)

module _ {K D C : Type 0} where
  client_of-calls :
      (s : ToolState K D C) (f : ManagerError → Failure)
      (p : K8sClientManager K D C × (ManagerError ⊎ K))
      → (client_of s f p).0.calls ≡ s.calls
  unfolding client_of
  client_of-calls s f (m, inl e) = refl
  client_of-calls s f (m, inr k) = refl

  pub get_client_set-calls :
      (env : Env K D C) (context_name : String) (s : ToolState K D C)
      → (get_client_set env context_name s).0.calls ≡ s.calls
  unfolding get_client_set
  get_client_set-calls env context_name s = elim (Bool-cases (str_eq context_name "")) [
    | inl e ↦ rw e (client_of-calls s _ _)
    | inr e ↦ rw e (client_of-calls s _ _)
  ]

  abbrev pub handler_of :
      SingleTool → Env K D C → Args → ToolState K D C → ToolState K D C × (Failure ⊎ DeleteResult)
  handler_of pod env = delete_pod env
  handler_of deployment env = delete_deployment env
  handler_of service env = delete_service env
  handler_of config_map env = delete_config_map env
  handler_of secret env = delete_secret env

  -- the context and the namespace that a call is for
  unfoldable pub target : Env K D C → Args → ToolState K D C → String × String
  unfolding or_default
  target env args s =
      let (context_name, namespace) = get_context_and_namespace args s.manager in
      (context_name, or_default namespace)

  -- the options that the arguments ask for
  pub options_of : SingleTool → Env K D C → Args → DeleteOptions
  unfolding grace_period
  options_of pod env args = record {
    grace_period_seconds = some (
        grace_period (bool_arg "force" false args)
          (get_int32_arg env.int32_of_float args "gracePeriod" (pos 30)));
    orphan = false;
  }
  options_of deployment env args = record {
    grace_period_seconds = none;
    orphan = not (bool_arg "cascade" true args);
  }
  options_of _ env args = no_options

  -- no call is made, and the handler fails
  unfoldable pub Idle : ToolState K D C → ToolState K D C × (Failure ⊎ DeleteResult) → Type 0
  Idle s (s', r) = (s'.calls ≡ s.calls) × ((e : Failure) × (r ≡ inl e))

  -- The object is read through the client of the context, which fails, or it is read and then
  -- deleted, once, and the answer to the deletion decides on the result.
  unfoldable pub Requested :
      Env K D C
      → String
      → String
      → String
      → String
      → DeleteOptions
      → ToolState K D C
      → ToolState K D C × (Failure ⊎ DeleteResult)
      → Type 0
  Requested env kind context_name namespace name options s (s', r) =
      (k : K) × ((get_client_set env context_name s).1 ≡ inr k)
      × (((s'.calls ≡ (k, get_call kind namespace name) ∷ s.calls) × ((e : Failure) × (r ≡ inl e)))
          ⊎ ((object : ApiObject) × (env.api.get s.calls k kind namespace name ≡ inr object)
              × (s'.calls
                  ≡ (k, delete_call kind namespace name options)
                    ∷ (k, get_call kind namespace name)
                    ∷ s.calls)
              × Answered kind namespace name
                  (env.api.delete ((k, get_call kind namespace name) ∷ s.calls) k kind namespace
                    name options)
                  object r))
