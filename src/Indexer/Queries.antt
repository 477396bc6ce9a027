-- ===== src/Indexer/Queries.antt =====
-- What the indexer answers, in a state in which the index agrees with the cached Services.
use kubectl_mcp.Prelude.{
  ℕ, String, Bool, ◌||◌, Option, none, some, List, [], ◌∷◌, ◌≡◌, refl, arith, inl, inr,
  Option-cases, if◌then◌else◌, All, count, filter, str_eq, is_some,
}
use kubectl_mcp.Prelude.Int.{ℤ}
use kubectl_mcp.GoMap.{GoMap, lookup}
use kubectl_mcp.Indexer.{
  ServiceKey, Service, ServiceIndexer, key_beq, key_beq_iff, key_eq, port_eq, key_of, keys_of,
  found, found_in, find_by_node_port, find_by_node_port_in_namespace, get_service,
}
use kubectl_mcp.Indexer.Ports.{times, times_in}
use kubectl_mcp.Indexer.Invariant.{IsIndexed, uses_of}

module _ {D : Type 0} where
  IsKeyed : GoMap ServiceKey (Service D) → Type 0
  IsKeyed cache =
      (key : ServiceKey) (svc : Service D) → lookup key cache ≡ some svc → key_of svc ≡ key

  -- how many Services of a list have a key
  abbrev pub services_of : ServiceKey → List (Service D) → ℕ
  services_of key services = count (λ svc. key_beq (key_of svc) key) services

  found-nil : (cache : GoMap ServiceKey (Service D)) → found [] cache ≡ []
  unfolding found
  found-nil cache = refl

  found-none :
      (k : ServiceKey) (keys : List ServiceKey) (cache : GoMap ServiceKey (Service D))
      → lookup k cache ≡ none
      → found (k ∷ keys) cache ≡ found keys cache
  unfolding found
  found-none k keys cache e = ground arith

  found-some :
      (k : ServiceKey) (keys : List ServiceKey) (cache : GoMap ServiceKey (Service D))
      (svc : Service D)
      → lookup k cache ≡ some svc
      → found (k ∷ keys) cache ≡ svc ∷ found keys cache
  unfolding found
  found-some k keys cache svc e = ground arith

  count-found :
      (key : ServiceKey) (keys : List ServiceKey) (cache : GoMap ServiceKey (Service D))
      → IsKeyed cache
      → services_of key (found keys cache)
        ≡ (if is_some (lookup key cache) then times_in key keys else 0)
  unfolding times_in IsKeyed
  count-found key [] cache h = ground (arith, found-nil cache)
  count-found key (k ∷ keys) cache h = elim (Option-cases (lookup k cache)) [
    | inl e ↦
        rw (found-none k keys cache e)
          (ground (arith, count-found key keys cache h, key_beq_iff k key))
    | inr (svc, e) ↦
        rw (found-some k keys cache svc e)
          (ground (arith, count-found key keys cache h, key_beq_iff k key, h k svc e))
  ]

  found-cached :
      (keys : List ServiceKey) (cache : GoMap ServiceKey (Service D))
      → IsKeyed cache
      → All (λ svc. lookup (key_of svc) cache ≡ some svc) (found keys cache)
  unfolding IsKeyed
  found-cached [] cache h = rw (found-nil cache) tt
  found-cached (k ∷ keys) cache h = elim (Option-cases (lookup k cache)) [
    | inl e ↦ rw (found-none k keys cache e) (found-cached keys cache h)
    | inr (svc, e) ↦
        rw (found-some k keys cache svc e) (rw (h k svc e) e, found-cached keys cache h)
  ]

  uses_of-none :
      (port : ℤ) (o : Option (Service D))
      → uses_of port o ≡ (if is_some o then uses_of port o else 0)
  unfolding uses_of
  uses_of-none port none = refl
  uses_of-none port (some svc) = refl

  -- In such a state a search by a node port gives cached Services only, and each as often as its
  -- ports have that node port: not at all where none of them has it, and once for each of them.
  pub find_by_node_port_lem :
      (port : ℤ) (si : ServiceIndexer D)
      → IsIndexed si
      → All (λ svc. get_service svc.namespace svc.name si ≡ some svc) (find_by_node_port port si)
        × ((key : ServiceKey)
            → services_of key (find_by_node_port port si)
              ≡ uses_of port (get_service key.namespace key.name si))
  unfolding find_by_node_port get_service times IsKeyed
  find_by_node_port_lem port si v = (
    found-cached (keys_of (lookup port si.node_port_index)) si.service_cache v.keyed,
    (λ key. ground (
      arith,
      count-found key (keys_of (lookup port si.node_port_index)) si.service_cache v.keyed,
      v.counted port key,
      uses_of-none port (lookup key si.service_cache),
    )),
  )

  in_namespace : String → Service D → Bool
  in_namespace namespace svc = str_eq namespace "" || str_eq svc.namespace namespace

  found_in-filter :
      (namespace : String) (keys : List ServiceKey) (cache : GoMap ServiceKey (Service D))
      → IsKeyed cache
      → found_in namespace keys cache ≡ filter (in_namespace namespace) (found keys cache)
  unfolding found_in in_namespace IsKeyed
  found_in-filter namespace [] cache h = rw (found-nil cache)
  found_in-filter namespace (k ∷ keys) cache h = elim (Option-cases (lookup k cache)) [
    | inl e ↦
        rw (found-none k keys cache e) (ground (arith, found_in-filter namespace keys cache h))
    | inr (svc, e) ↦
        rw (found-some k keys cache svc e)
          (ground (arith, found_in-filter namespace keys cache h, h k svc e))
  ]

  -- In such a state a search in a namespace gives what a search by the port alone gives, in its
  -- order, less the Services of other namespaces; the empty namespace leaves none out.
  pub find_in_namespace-filter :
      (port : ℤ) (namespace : String) (si : ServiceIndexer D)
      → IsIndexed si
      → find_by_node_port_in_namespace port namespace si
        ≡ filter
            (λ svc. str_eq namespace "" || str_eq svc.namespace namespace)
            (find_by_node_port port si)
  unfolding find_by_node_port find_by_node_port_in_namespace in_namespace IsKeyed
  find_in_namespace-filter port namespace si v =
      found_in-filter namespace (keys_of (lookup port si.node_port_index)) si.service_cache v.keyed
