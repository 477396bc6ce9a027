-- ===== src/Deletion/Preview.antt =====
-- internal/tools/delete_preview.go: `PreviewDeleteResources`, and how its goroutines join the
-- analyses, one after the other under the mutex. A warning is a constructor with what is written
-- into it; the texts that describe an impact or the result are left out, which say its counts
-- again.
pub mod Analysis
pub mod Risk
use kubectl_mcp.Prelude.{
  ℕ, ◌+◌, ◌<◌, String, Bool, true, false, not, ◌&&◌, Option, none, some, List, [], ◌∷◌, ◌++◌, ◌⊎◌,
  inl, inr, length, ltb, str_eq, if◌then◌else◌, ◌==◌,
}
use kubectl_mcp.Prelude.Int.{ℤ, pos, negsuc, ltb_ℤ}
use kubectl_mcp.GoMap.{GoMap}
use kubectl_mcp.Registry.{Args}
use kubectl_mcp.Deletion.{
  Env, ToolState, Action, ◌>>=◌, ◌>>◌, done, text_arg, texts_arg, get_client_set,
}
use kubectl_mcp.Deletion.Single.{target_of, require_text}
use kubectl_mcp.Deletion.Batch.{require_some, list_resource_names_by_kind}

-- an object of the API, by what the analyses read of it
pub record PreviewObject : Type 0 where
  pub created : ℕ
  pub labels : GoMap String String
  pub owner_kinds : List String
  -- the API server fills in the replicas of a Deployment and of a StatefulSet
  pub replicas : ℤ
  pub ready_replicas : ℤ
  pub desired_scheduled : ℤ
  pub service_type : String
  pub selector : GoMap String String
  -- the selector as `metav1.FormatLabelSelector` writes it
  pub formatted_selector : String

-- a Pod, with the ConfigMaps and the Secrets of its volumes
pub record PodVolumes : Type 0 where
  pub name : String
  pub config_maps : List String
  pub secrets : List String

-- an Ingress, with the Services of the paths of each of its rules
pub record IngressRules : Type 0 where
  pub name : String
  pub rules : List (List String)

-- what the API answers to the reads of one analysis; there is no call that changes anything
pub record PreviewApi : Type 0 where
  pub get : String → String → String → String ⊎ PreviewObject
  pub pods : String → String → String ⊎ List PodVolumes
  pub replica_sets : String → String → String ⊎ List String
  pub ingresses : String → String ⊎ List IngressRules
  -- the number of addresses of each subset
  pub endpoints : String → String → String ⊎ List ℕ

pub record ResourceImpact : Type 0 where
  pub kind : String
  pub names : List String
  pub count : ℕ

pub data Warning : Type 0 where
  recreated_by : String → Warning
  serves_pods : ℤ → Warning
  stateful : Warning
  on_all_nodes : Warning
  load_balancer : Warning
  node_port : Warning
  config_map_in_use : Warning
  secret_in_use : Warning
  not_analyzed : String → Warning

pub record DeleteResourceDetail : Type 0 where
  pub name : String
  pub kind : String
  pub namespace : String
  pub labels : GoMap String String
  pub created_at : ℕ
  pub replicas : ℤ
  pub ready_replicas : ℤ
  pub desired_scheduled : ℤ
  pub service_type : String
  pub selector : GoMap String String
  pub risk_level : String
  pub impacted_resources : List ResourceImpact
  pub warnings : List Warning

-- the order of the levels; a level that is not in the map reads as 0
unfoldable pub risk_order : String → ℕ
risk_order level =
    if str_eq level "low"
    then 1
    else if str_eq level "medium"
    then 2
    else if str_eq level "high"
    then 3
    else if str_eq level "critical"
    then 4
    else 0

unfoldable pub compare_risk_level : String → String → ℤ
unfolding risk_order
compare_risk_level level1 level2 =
    if ltb (risk_order level2) (risk_order level1)
    then pos 1
    else if ltb (risk_order level1) (risk_order level2)
    then negsuc 0
    else pos 0

-- what the goroutines share, `maxRiskLevel` included
pub record PreviewJoin : Type 0 where
  pub resources : List DeleteResourceDetail
  pub total_impact_count : ℕ
  pub max_risk_level : String

-- what one goroutine does under the mutex
pub join : DeleteResourceDetail → PreviewJoin → PreviewJoin
join d r = record {
  resources = r.resources ++ d ∷ [];
  total_impact_count = r.total_impact_count + length d.impacted_resources;
  max_risk_level =
      if ltb_ℤ (pos 0) (compare_risk_level d.risk_level r.max_risk_level)
      then d.risk_level
      else r.max_risk_level;
}

-- the goroutines, in the order in which they take the mutex
pub join_all : List DeleteResourceDetail → PreviewJoin → PreviewJoin
unfolding join
join_all [] r = r
join_all (d ∷ details) r = join_all details (join d r)

pub record PreviewDeleteResult : Type 0 where
  pub kind : String
  pub namespace : String
  pub label_selector : String
  pub total_count : ℕ
  pub resources : List DeleteResourceDetail
  pub total_risk_level : String
  pub total_impact_count : ℕ
  pub confirmation_token : Option ℕ
  pub timestamp : ℕ

-- The result for the names of the resources to delete, and the details of their analyses in the order
-- in which the goroutines end. The count is set before they start; the token is the time in
-- nanoseconds, and none where there is nothing to delete.
unfoldable pub preview_result :
    String → String → String → ℕ → ℕ → List String → List DeleteResourceDetail → PreviewDeleteResult
unfolding join_all
preview_result kind namespace selector started ended [] details = record {
  kind = kind;
  namespace = namespace;
  label_selector = selector;
  total_count = 0;
  resources = [];
  total_risk_level = "";
  total_impact_count = 0;
  confirmation_token = none;
  timestamp = started;
}
preview_result kind namespace selector started ended (name ∷ names) details =
    let joined =
      join_all details
        (record { resources = []; total_impact_count = 0; max_risk_level = "low" }) in
    record {
      kind = kind;
      namespace = namespace;
      label_selector = selector;
      total_count = length (name ∷ names);
      resources = joined.resources;
      total_risk_level = joined.max_risk_level;
      total_impact_count = joined.total_impact_count;
      confirmation_token = some ended;
      timestamp = started;
    }

-- the resources that a preview is for
pub record PreviewRequest : Type 0 where
  pub kind : String
  pub namespace : String
  pub label_selector : String
  pub names : List String

module _ {K D C : Type 0} (env : Env K D C) where
  names_or_listed :
      K → String → String → String → List String → Action (ToolState K D C) (List String)
  names_or_listed k kind namespace selector [] =
      list_resource_names_by_kind env k kind namespace selector
  names_or_listed k kind namespace selector (name ∷ names) = done (name ∷ names)

  -- `PreviewDeleteResources` up to its goroutines, which analyse each of the names
  unfoldable pub preview_request : Args → Action (ToolState K D C) PreviewRequest
  unfolding names_or_listed
  preview_request args = do
    target ← target_of env args
    kind ← require_text "kind" args
    require_some (texts_arg "names" args) (text_arg "labelSelector" args)
    k ← get_client_set env target.0
    names ← names_or_listed k kind target.1 (text_arg "labelSelector" args) (texts_arg "names" args)
    done (record {
      kind = kind;
      namespace = target.1;
      label_selector = text_arg "labelSelector" args;
      names = names;
    })
