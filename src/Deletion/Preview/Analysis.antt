-- ===== src/Deletion/Preview/Analysis.antt =====
-- internal/tools/delete_preview.go: `analyzeResourceForDeletion` and the analyses of each kind.
pub mod References
use kubectl_mcp.Prelude.{
  ℕ, ◌+◌, String, Bool, true, false, not, ◌&&◌, Option, none, some, List, [], ◌∷◌, ◌++◌, ◌⊎◌, inl,
  inr, length, ltb, str_eq, if◌then◌else◌, ◌==◌,
}
use kubectl_mcp.Prelude.Int.{ℤ, pos, negsuc, ltb_ℤ}
use kubectl_mcp.Deletion.Preview.{
  PreviewObject, PodVolumes, IngressRules, PreviewApi, ResourceImpact, Warning,
  DeleteResourceDetail, recreated_by, serves_pods, stateful, on_all_nodes, load_balancer, node_port,
  config_map_in_use, secret_in_use, not_analyzed,
}

new_detail : String → String → String → DeleteResourceDetail
new_detail kind namespace name = record {
  name = name;
  kind = kind;
  namespace = namespace;
  labels = [];
  created_at = 0;
  replicas = pos 0;
  ready_replicas = pos 0;
  desired_scheduled = pos 0;
  service_type = "";
  selector = [];
  risk_level = "";
  impacted_resources = [];
  warnings = [];
}

-- the detail with what every analysis takes over from the object
described : DeleteResourceDetail → PreviewObject → DeleteResourceDetail
described d o = record d { labels = o.labels; created_at = o.created }

pod_names : List PodVolumes → List String
pod_names [] = []
pod_names (pod ∷ pods) = pod.name ∷ pod_names pods

-- the impact on a list of names, if there is any
impact_of : String → List String → List ResourceImpact
impact_of kind [] = []
impact_of kind (name ∷ names) =
    record { kind = kind; names = name ∷ names; count = length (name ∷ names) } ∷ []

-- the impact on what a list gives; an error counts as none
listed : String → String ⊎ List String → List ResourceImpact
unfolding impact_of
listed kind (inl e) = []
listed kind (inr names) = impact_of kind names

listed_pods : String ⊎ List PodVolumes → List ResourceImpact
unfolding pod_names impact_of
listed_pods (inl e) = []
listed_pods (inr pods) = impact_of "Pod" (pod_names pods)

analyze_pod : DeleteResourceDetail → PreviewObject → DeleteResourceDetail
unfolding described
analyze_pod d o = elim o.owner_kinds [
  | [] ↦ record (described d o) { risk_level = "low" }
  | kind ∷ kinds ↦ record (described d o) {
    risk_level = "medium";
    warnings = recreated_by kind ∷ [];
  }
]

with_selector : DeleteResourceDetail → PreviewObject → DeleteResourceDetail
unfolding described
with_selector d o = record (described d o) { selector = o.selector }

analyze_deployment : PreviewApi → DeleteResourceDetail → PreviewObject → DeleteResourceDetail
unfolding with_selector listed listed_pods
analyze_deployment api d o =
    let impacts =
      listed_pods (api.pods d.namespace o.formatted_selector)
      ++ listed "ReplicaSet" (api.replica_sets d.namespace o.formatted_selector) in
    record (with_selector d o) {
      replicas = o.replicas;
      ready_replicas = o.ready_replicas;
      impacted_resources = impacts;
      risk_level = if ltb_ℤ (pos 1) o.replicas then "high" else "medium";
      warnings = if ltb 0 (length impacts) then serves_pods o.ready_replicas ∷ [] else [];
    }

analyze_stateful_set : PreviewApi → DeleteResourceDetail → PreviewObject → DeleteResourceDetail
unfolding with_selector listed_pods
analyze_stateful_set api d o = record (with_selector d o) {
  replicas = o.replicas;
  ready_replicas = o.ready_replicas;
  impacted_resources = listed_pods (api.pods d.namespace o.formatted_selector);
  risk_level = "high";
  warnings = stateful ∷ [];
}

analyze_daemon_set : PreviewApi → DeleteResourceDetail → PreviewObject → DeleteResourceDetail
unfolding with_selector listed_pods
analyze_daemon_set api d o = record (with_selector d o) {
  desired_scheduled = o.desired_scheduled;
  impacted_resources = listed_pods (api.pods d.namespace o.formatted_selector);
  risk_level = "critical";
  warnings = on_all_nodes ∷ [];
}

names_it : String → List String → Bool
names_it name [] = false
names_it name (x ∷ xs) = if str_eq x name then true else names_it name xs

-- the name of an Ingress, once for each rule that has a path to the Service: the `break` leaves the
-- loop over the paths only
rules_naming : String → String → List (List String) → List String
unfolding names_it
rules_naming service ingress [] = []
rules_naming service ingress (rule ∷ rules) =
    let rest = rules_naming service ingress rules in
    if names_it service rule then ingress ∷ rest else rest

pub related_ingresses : String → List IngressRules → List String
unfolding rules_naming
related_ingresses service [] = []
related_ingresses service (ingress ∷ ingresses) =
    rules_naming service ingress.name ingress.rules ++ related_ingresses service ingresses

ingress_impact : String → String ⊎ List IngressRules → List ResourceImpact
unfolding related_ingresses impact_of
ingress_impact service (inl e) = []
ingress_impact service (inr ingresses) = impact_of "Ingress" (related_ingresses service ingresses)

total_of : List ℕ → ℕ
total_of [] = 0
total_of (n ∷ ns) = n + total_of ns

endpoint_impact : String ⊎ List ℕ → List ResourceImpact
unfolding total_of
endpoint_impact (inl e) = []
endpoint_impact (inr subsets) =
    let total = total_of subsets in
    if ltb 0 total then record { kind = "Endpoint"; names = []; count = total } ∷ [] else []

analyze_service : PreviewApi → DeleteResourceDetail → PreviewObject → DeleteResourceDetail
unfolding with_selector ingress_impact endpoint_impact
analyze_service api d o = record (with_selector d o) {
  service_type = o.service_type;
  impacted_resources =
      ingress_impact d.name (api.ingresses d.namespace)
      ++ endpoint_impact (api.endpoints d.namespace d.name);
  risk_level = if str_eq o.service_type "LoadBalancer" then "high" else "medium";
  warnings =
      if str_eq o.service_type "LoadBalancer"
      then load_balancer ∷ []
      else if str_eq o.service_type "NodePort"
      then node_port ∷ []
      else [];
}

-- the Pods that have a volume of the ConfigMap
pub pods_with_config_map : String → List PodVolumes → List String
unfolding names_it
pods_with_config_map name [] = []
pods_with_config_map name (pod ∷ pods) =
    let rest = pods_with_config_map name pods in
    if names_it name pod.config_maps then pod.name ∷ rest else rest

pub pods_with_secret : String → List PodVolumes → List String
unfolding names_it
pods_with_secret name [] = []
pods_with_secret name (pod ∷ pods) =
    let rest = pods_with_secret name pods in
    if names_it name pod.secrets then pod.name ∷ rest else rest

-- the users among the Pods that a list gives; an error counts as none
users : (List PodVolumes → List String) → String ⊎ List PodVolumes → List String
users find (inl e) = []
users find (inr pods) = find pods

analyze_config_map : PreviewApi → DeleteResourceDetail → PreviewObject → DeleteResourceDetail
unfolding described users impact_of pods_with_config_map
analyze_config_map api d o =
    let names = users (pods_with_config_map d.name) (api.pods d.namespace "") in
    record (described d o) {
      impacted_resources = impact_of "Pod" names;
      risk_level = if ltb 0 (length names) then "high" else "low";
      warnings = if ltb 0 (length names) then config_map_in_use ∷ [] else [];
    }

analyze_secret : PreviewApi → DeleteResourceDetail → PreviewObject → DeleteResourceDetail
unfolding described users impact_of pods_with_secret
analyze_secret api d o =
    let names = users (pods_with_secret d.name) (api.pods d.namespace "") in
    record (described d o) {
      impacted_resources = impact_of "Pod" names;
      risk_level = if ltb 0 (length names) then "critical" else "medium";
      warnings = if ltb 0 (length names) then secret_in_use ∷ [] else [];
    }

on_object :
    (DeleteResourceDetail → PreviewObject → DeleteResourceDetail)
    → DeleteResourceDetail
    → String ⊎ PreviewObject
    → String ⊎ DeleteResourceDetail
on_object analyze d (inl e) = inl e
on_object analyze d (inr o) = inr (analyze d o)

-- the object is read first, in every case of the `switch kind`
analyze_kind :
    PreviewApi
    → DeleteResourceDetail
    → (DeleteResourceDetail → PreviewObject → DeleteResourceDetail)
    → String ⊎ DeleteResourceDetail
unfolding on_object
analyze_kind api d analyze = on_object analyze d (api.get d.kind d.namespace d.name)

unfoldable pub analyze_resource_for_deletion :
    PreviewApi → String → String → String → String ⊎ DeleteResourceDetail
unfolding new_detail analyze_kind analyze_pod analyze_deployment analyze_stateful_set
    analyze_daemon_set analyze_service analyze_config_map analyze_secret
analyze_resource_for_deletion api kind namespace name =
    let d = new_detail kind namespace name in
    if str_eq kind "Pod"
    then analyze_kind api d analyze_pod
    else if str_eq kind "Deployment"
    then analyze_kind api d (analyze_deployment api)
    else if str_eq kind "StatefulSet"
    then analyze_kind api d (analyze_stateful_set api)
    else if str_eq kind "DaemonSet"
    then analyze_kind api d (analyze_daemon_set api)
    else if str_eq kind "Service"
    then analyze_kind api d (analyze_service api)
    else if str_eq kind "ConfigMap"
    then analyze_kind api d (analyze_config_map api)
    else if str_eq kind "Secret"
    then analyze_kind api d (analyze_secret api)
    else inr (record d { risk_level = "medium" })

-- the analysis, or what stands for one that has failed
or_failed : String → String → String → String ⊎ DeleteResourceDetail → DeleteResourceDetail
unfolding new_detail
or_failed kind namespace name (inr d) = d
or_failed kind namespace name (inl e) = record (new_detail kind namespace name) {
  risk_level = "medium";
  warnings = not_analyzed e ∷ [];
}

unfoldable pub detail_of : PreviewApi → String → String → String → DeleteResourceDetail
unfolding or_failed
detail_of api kind namespace name =
    or_failed kind namespace name (analyze_resource_for_deletion api kind namespace name)
