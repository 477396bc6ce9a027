-- ===== src/Deletion/Preview/Analysis/References.antt =====
-- What refers to a resource that is to be deleted.
use kubectl_mcp.Prelude.{
  ℕ, ◌+◌, ◌<◌, String, Bool, List, [], ◌∷◌, ◌⊎◌, inl, inr, ◌≡◌, refl, arith, length, length-append,
  ltb, count, filter, map, str_eq, Bool-cases, if◌then◌else◌, ap, string_eq,
}
use kubectl_mcp.Deletion.Preview.{
  PreviewObject, PodVolumes, IngressRules, PreviewApi, DeleteResourceDetail,
}
use kubectl_mcp.Deletion.Preview.Analysis.{
  names_it, rules_naming, related_ingresses, pods_with_config_map, impact_of, users, new_detail,
  described, on_object, analyze_kind, analyze_config_map, analyze_resource_for_deletion,
}

-- a list has a name
abbrev pub has_name : String → List String → Bool
has_name name names = ltb 0 (count (λ n. str_eq n name) names)

names_it-count : (name : String) (names : List String) → names_it name names ≡ has_name name names
unfolding names_it
names_it-count name [] = refl
names_it-count name (x ∷ xs) = ground (arith, names_it-count name xs)

pods_with_config_map-filter :
    (name : String) (pods : List PodVolumes)
    → pods_with_config_map name pods
      ≡ map (λ pod. pod.name) (filter (λ pod. has_name name pod.config_maps) pods)
unfolding pods_with_config_map
pods_with_config_map-filter name [] = refl
pods_with_config_map-filter name (pod ∷ pods) = elim (Bool-cases (has_name name pod.config_maps)) [
  | inl uses ↦
      rw (names_it-count name pod.config_maps, uses)
        (ap (λ (rest : List String). pod.name ∷ rest) (pods_with_config_map-filter name pods))
  | inr not_uses ↦
      rw (names_it-count name pod.config_maps, not_uses) (pods_with_config_map-filter name pods)
]

rules_naming-length :
    (service ingress : String) (rules : List (List String))
    → length (rules_naming service ingress rules) ≡ count (has_name service) rules
unfolding rules_naming
rules_naming-length service ingress [] = refl
rules_naming-length service ingress (rule ∷ rules) =
    ground (arith, names_it-count service rule, rules_naming-length service ingress rules)

-- the rules of all Ingresses that have a path to the Service
pub referring_rules : String → List IngressRules → ℕ
referring_rules service [] = 0
referring_rules service (ingress ∷ ingresses) =
    count (has_name service) ingress.rules + referring_rules service ingresses

-- The list of the Ingresses that refer to a Service has an entry for each of their rules that does: an
-- Ingress with two such rules is in it twice.
pub related_ingresses-length :
    (service : String) (ingresses : List IngressRules)
    → length (related_ingresses service ingresses) ≡ referring_rules service ingresses
unfolding related_ingresses referring_rules
related_ingresses-length service [] = refl
related_ingresses-length service (ingress ∷ ingresses) = ground (
  arith,
  length-append (rules_naming service ingress.name ingress.rules)
      (related_ingresses service ingresses),
  rules_naming-length service ingress.name ingress.rules,
  related_ingresses-length service ingresses,
)

-- the Pods that have a volume of a ConfigMap
abbrev pub users_of : String → List PodVolumes → List String
users_of name pods = map (λ pod. pod.name) (filter (λ pod. has_name name pod.config_maps) pods)

-- the ConfigMap's detail names its users, if there are any, and its risk is high just then
pub NamesUsers : String → List PodVolumes → DeleteResourceDetail → Type 0
NamesUsers name pods d =
    ((users_of name pods ≡ []) × (d.impacted_resources ≡ []) × (d.risk_level ≡ "low"))
    ⊎ ((0 < length (users_of name pods))
        × (d.impacted_resources
            ≡ record {
              kind = "Pod";
              names = users_of name pods;
              count = length (users_of name pods);
            }
              ∷ [])
        × (d.risk_level ≡ "high"))

-- the risk of a ConfigMap by how many use it
abbrev risk_by : ℕ → String
risk_by n = if ltb 0 n then "high" else "low"

named_impact :
    (names : List String)
    → ((names ≡ []) × (impact_of "Pod" names ≡ []) × (risk_by (length names) ≡ "low"))
      ⊎ ((0 < length names)
          × (impact_of "Pod" names
              ≡ record { kind = "Pod"; names = names; count = length names } ∷ [])
          × (risk_by (length names) ≡ "high"))
unfolding impact_of
named_impact [] = inl (refl, refl, refl)
named_impact (name ∷ names) = inr (omega arith, refl, ground arith)

-- The analysis of a ConfigMap that is there, where the Pods of its namespace can be listed, ends without an error,
-- and either no Pod has a volume of it, and the risk is low, or its one impact names those Pods, each
-- once, in the order of the list, with their number, and the risk is high.
pub config_map-NamesUsers :
    (api : PreviewApi) (namespace name : String) (object : PreviewObject) (pods : List PodVolumes)
    → api.get "ConfigMap" namespace name ≡ inr object
    → api.pods namespace "" ≡ inr pods
    → (d : DeleteResourceDetail) × (analyze_resource_for_deletion api "ConfigMap" namespace name
        ≡ inr d)
      × NamesUsers name pods d
unfolding analyze_resource_for_deletion analyze_kind on_object NamesUsers new_detail
    analyze_config_map users described
config_map-NamesUsers api namespace name object pods found listed =
    let named : users (pods_with_config_map name) (api.pods namespace "") ≡ users_of name pods =
      rw (listed, users) (pods_with_config_map-filter name pods) in
    (
      analyze_config_map api (new_detail "ConfigMap" namespace name) object,
      rw (found, on_object) refl,
      rw named (named_impact (users_of name pods)),
    )
