-- ===== src/Deletion/Tests.antt =====
-- A cluster whose API lets everything be read and deleted, and the theorems at calls of it.
use kubectl_mcp.Prelude.{
  ℕ, ◌≤◌, ◌+◌, ◌*◌, ◌<◌, String, Option, none, [], ◌∷◌, ◌⊎◌, inl, inr, ◌≡◌, ◌≢◌, refl, arith, All,
  length, str_eq_iff, string_eq, List, some,
}
use kubectl_mcp.Prelude.Int.{pos}
use kubectl_mcp.GoMap.{lookup, has}
use kubectl_mcp.Value.{Value, no_items, item}
use kubectl_mcp.Registry.{Args}
use kubectl_mcp.K8s.{
  ClientGo, client_set_for_context, get_client_for_context, get_client, get_default_namespace,
}
use kubectl_mcp.Deletion.{
  KubeApi, Env, ToolState, Failure, ApiObject, text_arg, texts_arg, get_context_and_namespace,
  get_client_set,
}
use kubectl_mcp.Deletion.Single.{
  system_namespaces, delete_namespace, require_token, require_text, target_of,
}
use kubectl_mcp.Deletion.Single.Requests.{pod, handler_of, Idle, Authorized}
use kubectl_mcp.Deletion.Single.Tokens.{with_token, single-token}
use kubectl_mcp.Deletion.Single.Namespaces.{NamespaceRequested, delete_namespace_lem}
use kubectl_mcp.Deletion.Preview.{
  PreviewObject, PodVolumes, PreviewApi, DeleteResourceDetail, risk_order, preview_result,
}
use kubectl_mcp.Deletion.Preview.Analysis.{analyze_resource_for_deletion, detail_of}
use kubectl_mcp.Deletion.Batch.{require_some}
use kubectl_mcp.Deletion.Preview.Risk.{all_ended, ends, IsLevelOf, impacts, preview_result_lem}
use kubectl_mcp.Deletion.Preview.Analysis.References.{NamesUsers, config_map-NamesUsers}
use kubectl_mcp.Deletion.Batch.{
  BatchDeleteResult, deletes, no_message, unlocked, locked, has_written, BatchState, Step, Steps,
  asks, locks, writes, unlocks, leaves, here, next, delete_resources, delete_resource_by_kind,
  record_outcome, finish,
}
use kubectl_mcp.Deletion.Batch.Accounting.{occurs, occurs_in, start_state}
use kubectl_mcp.Deletion.Batch.Progress.{batch_ends}
use kubectl_mcp.Deletion.Batch.Start.{IsChosen, delete_resources-accounted}

abbrev go : ClientGo String String String
go = record {
  load_from_file = λ path. inl "no file";
  validate = λ config. none;
  client_config = λ now path name. inr "config";
  new_for_config = λ now config. inr "client";
  new_dynamic_for_config = λ now config. inr "dynamic";
}

abbrev object : ApiObject
object = record { created = 3; replicas = none; type_name = ""; data_count = 0 }

abbrev api : KubeApi String
api = record {
  get = λ calls k kind namespace name. inr object;
  list = λ calls k kind namespace selector. ("web" ∷ [], none);
  delete = λ calls k kind namespace name options. none;
}

abbrev env : Env String String String
env = record { go = go; api = api; now = 9; int32_of_float = λ f. pos 0 }

abbrev state : ToolState String String String
state = record {
  manager = record {
    kubeconfig_path = "config";
    raw_config = record { contexts = []; clusters = []; current_context = "dev" };
    contexts =
        ("dev", record { name = "dev"; cluster = "c1"; user = "u1"; namespace = "shop" }) ∷ [];
    current_ctx = "dev";
    client_pool = ("dev", record { clientset = "k"; dynamic_client = "d"; rest_config = "c" }) ∷ [];
    service_indexers = [];
  };
  calls = [];
}

abbrev args : Args
args = ("name", Value.str "web") ∷ ("confirmationToken", Value.str "1") ∷ []

single-token_example :
    handler_of pod env (with_token "1" args) state
    ≡ handler_of pod env (with_token "never issued" args) state
single-token_example =
    single-token env pod "1" "never issued" args state (λ e. ground (arith, str_eq_iff "1" ""))
      (λ e. ground (arith, str_eq_iff "never issued" ""))

delete_namespace_lem_example :
    Idle state (delete_namespace env args state)
    ⊎ (Authorized args
        × All (λ namespace. text_arg "name" args ≢ namespace) system_namespaces
        × NamespaceRequested env
            (text_arg "context" args)
            (text_arg "name" args)
            state
            (delete_namespace env args state))
delete_namespace_lem_example = delete_namespace_lem env args state

abbrev batch_args : Args
batch_args =
    ("kind", Value.str "Pod")
    ∷ ("names", Value.arr (item (Value.str "web") no_items))
    ∷ ("confirmationToken", Value.str "1")
    ∷ []

abbrev begun : BatchDeleteResult
begun = record {
  kind = "Pod";
  namespace = "shop";
  total_count = 1;
  success_count = 0;
  failure_count = 0;
  success_list = [];
  failure_list = [];
  label_selector = "";
  message = no_message;
}

batch_begins :
    delete_resources env batch_args state
    ≡ (state, inr (deletes "k" "Pod" "shop" ("web" ∷ []) begun))
unfolding delete_resources require_token require_text target_of text_arg texts_arg lookup
    get_client_set get_client get_context_and_namespace get_client_for_context
    client_set_for_context has get_default_namespace require_some
batch_begins = refl

abbrev outcome : Option Failure
outcome = (delete_resource_by_kind env "k" "Pod" "shop" "web" []).1

abbrev after_call : BatchState String
after_call = record (start_state ("web" ∷ []) begun []) {
  pending = [];
  in_flight = ("web", outcome) ∷ [];
  calls = (delete_resource_by_kind env "k" "Pod" "shop" "web" []).0;
}

abbrev after_lock : BatchState String
after_lock = record after_call { in_flight = []; mutex = locked "web" outcome }

abbrev after_write : BatchState String
after_write = record after_lock { mutex = has_written; result = record_outcome "web" outcome begun }

abbrev after_unlock : BatchState String
after_unlock = record after_write { mutex = unlocked; leaving = 1 }

abbrev after_all : BatchState String
after_all = record after_unlock { leaving = 0; wait_group = 0 }

abbrev called : Steps env "k" "Pod" "shop" (start_state ("web" ∷ []) begun []) 1 after_call
called = next here (asks (start_state ("web" ∷ []) begun []) [] [] "web" refl)

abbrev has_left : Steps env "k" "Pod" "shop" (start_state ("web" ∷ []) begun []) 5 after_all
has_left =
    next
      (next
        (next (next called (locks after_call [] [] "web" outcome refl refl))
          (writes after_lock "web" outcome refl))
        (unlocks after_write refl))
      (leaves after_unlock 0 refl)

batch_ends_example :
    ((1 < 5 * length {A = String} ("web" ∷ []))
      × ((u : BatchState String) × Step env "k" "Pod" "shop" after_call u))
    ⊎ (◌≡◌ {A = ℕ} 1 (5 * length {A = String} ("web" ∷ [])) × (after_call.wait_group ≡ 0))
batch_ends_example =
    batch_ends env ("web" ∷ []) begun []
      (record { no_success = refl; no_failure = refl; success_zero = refl; failure_zero = refl })
      called

delete_resources-accounted_example :
    (text_arg "confirmationToken" batch_args ≢ "")
    × IsChosen env batch_args state "k" "Pod" "shop" ("web" ∷ [])
    × ((name : String)
        → occurs name (finish after_all.result).success_list
            + occurs_in name (finish after_all.result).failure_list
          ≡ occurs name ("web" ∷ []))
    × ((finish after_all.result).success_count ≡ length (finish after_all.result).success_list)
    × ((finish after_all.result).failure_count ≡ length (finish after_all.result).failure_list)
    × ((finish after_all.result).success_count + (finish after_all.result).failure_count
        ≡ (finish after_all.result).total_count)
delete_resources-accounted_example =
    delete_resources-accounted env batch_args "k" "Pod" "shop" ("web" ∷ []) begun state state
      after_all batch_begins has_left refl

abbrev web_object : PreviewObject
web_object = record {
  created = 3;
  labels = [];
  owner_kinds = [];
  replicas = pos 2;
  ready_replicas = pos 2;
  desired_scheduled = pos 0;
  service_type = "";
  selector = [];
  formatted_selector = "app=web";
}

abbrev web_pods : List PodVolumes
web_pods = record { name = "web-1"; config_maps = "settings" ∷ []; secrets = [] } ∷ []

abbrev preview_api : PreviewApi
preview_api = record {
  get = λ kind namespace name. inr web_object;
  pods = λ namespace selector. inr web_pods;
  replica_sets = λ namespace selector. inr [];
  ingresses = λ namespace. inr [];
  endpoints = λ namespace name. inr [];
}

config_map-NamesUsers_example :
    (d : DeleteResourceDetail) × (analyze_resource_for_deletion preview_api "ConfigMap" "shop"
        "settings"
      ≡ inr d)
    × NamesUsers "settings" web_pods d
config_map-NamesUsers_example =
    config_map-NamesUsers preview_api "shop" "settings" web_object web_pods refl refl

abbrev web_details : List DeleteResourceDetail
web_details = detail_of preview_api "Deployment" "shop" "web" ∷ []

preview_result_lem_example :
    ((preview_result "Deployment" "shop" "" 1 2 ("web" ∷ []) web_details).resources ≡ web_details)
    × ((preview_result "Deployment" "shop" "" 1 2 ("web" ∷ []) web_details).total_count
        ≡ length web_details)
    × ((preview_result "Deployment" "shop" "" 1 2 ("web" ∷ []) web_details).total_impact_count
        ≡ impacts web_details)
    × ((preview_result "Deployment" "shop" "" 1 2 ("web" ∷ []) web_details).confirmation_token
        ≡ some 2)
    × All
        (λ d.
          risk_order d.risk_level
          ≤ risk_order
              (preview_result "Deployment" "shop" "" 1 2 ("web" ∷ []) web_details).total_risk_level)
        web_details
    × (((preview_result "Deployment" "shop" "" 1 2 ("web" ∷ []) web_details).total_risk_level
          ≡ "low")
        ⊎ IsLevelOf
            (preview_result "Deployment" "shop" "" 1 2 ("web" ∷ []) web_details).total_risk_level
            web_details)
preview_result_lem_example =
    preview_result_lem preview_api "Deployment" "shop" "" 1 2 ("web" ∷ []) web_details
      (λ e. ground arith) (ends [] [] "web" refl all_ended)
