-- ===== src/K8s/Tests.antt =====
-- A file with two contexts and a client-go that never fails, and the theorems at inputs that meet
-- their hypotheses.
use kubectl_mcp.Prelude.{String, none, [], ◌∷◌, ◌≡◌, inr, refl, string_eq}
use kubectl_mcp.GoMap.{lookup, has}
use kubectl_mcp.K8s.{
  ClientGo, ClientSet, Config, K8sClientManager, new_k8s_client_manager, client_set_for_context,
  get_client_for_context, create_client_for_context,
}
use kubectl_mcp.K8s.Manager.{client_call, switch_call, run, run-IsSound, new_manager-IsSound}
use kubectl_mcp.K8s.Sound.{MadeFor, IsSound}
use kubectl_mcp.K8s.Clients.{get_client-MadeFor}

abbrev two_contexts : Config
two_contexts = record {
  contexts =
      ("dev", record { cluster = "c1"; auth_info = "u1"; namespace = "" })
      ∷ ("prod", record { cluster = "c2"; auth_info = "u2"; namespace = "shop" })
      ∷ [];
  clusters = ("c1", "https://c1") ∷ [];
  current_context = "dev";
}

-- a client is the name of the context that it was made for
abbrev go : ClientGo String String String
go = record {
  load_from_file = λ path. inr two_contexts;
  validate = λ config. none;
  client_config = λ now path name. inr name;
  new_for_config = λ now config. inr config;
  new_dynamic_for_config = λ now config. inr config;
}

abbrev manager : K8sClientManager String String String
manager = record {
  kubeconfig_path = "config";
  raw_config = two_contexts;
  contexts =
      ("dev", record { name = "dev"; cluster = "c1"; user = "u1"; namespace = "default" })
      ∷ ("prod", record { name = "prod"; cluster = "c2"; user = "u2"; namespace = "shop" })
      ∷ [];
  current_ctx = "dev";
  client_pool = [];
  service_indexers = [];
}

manager_starts : new_k8s_client_manager go "config" ≡ inr manager
unfolding new_k8s_client_manager has lookup
manager_starts = refl

run-IsSound_example : IsSound go (run go (client_call 1 "prod" ∷ switch_call 2 "prod" ∷ []) manager)
run-IsSound_example =
    run-IsSound go (client_call 1 "prod" ∷ switch_call 2 "prod" ∷ []) manager
      (new_manager-IsSound go "config" manager manager_starts)

get_client-MadeFor_example :
    (set : ClientSet String String String) × (set.clientset ≡ "prod")
    × MadeFor go manager "prod" set
unfolding get_client_for_context client_set_for_context has lookup create_client_for_context
get_client-MadeFor_example =
    get_client-MadeFor go 1 "prod" manager "prod"
      (new_manager-IsSound go "config" manager manager_starts) refl
