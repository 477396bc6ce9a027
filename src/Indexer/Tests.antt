-- ===== src/Indexer/Tests.antt =====
-- A Service with one node port for two protocols, and the theorems at runs of the indexer.
use kubectl_mcp.Prelude.{
  ℕ, String, some, List, [], ◌∷◌, ◌≡◌, ◌⊎◌, inr, refl, ap, arith, All, str_eq_iff,
}
use kubectl_mcp.Prelude.Int.{pos}
use kubectl_mcp.GoMap.{lookup, insert, delete}
use kubectl_mcp.Indexer.{
  ServiceKey, Service, ServiceIndexer, WatchEvent, added, deleted, Round, watched,
  new_service_indexer, full_sync, handle_watch_events, watch_loop, find_by_node_port, get_service,
  remove_service_from_index, add_service_to_index,
}
use kubectl_mcp.Indexer.Invariant.{IsIndexed, HasDistinct, uses_of, watch_loop-new-IsIndexed}
use kubectl_mcp.Indexer.Queries.{services_of, find_by_node_port_lem}
use kubectl_mcp.Indexer.Watching.{get_service-watch_loop}

abbrev web : Service ℕ
web = record { namespace = "shop"; name = "web"; node_ports = pos 30080 ∷ pos 0 ∷ []; rest = 1 }

-- the same node port for TCP and for UDP
abbrev dns : Service ℕ
dns = record {
  namespace = "kube-system";
  name = "dns";
  node_ports = pos 30053 ∷ pos 30053 ∷ [];
  rest = 2;
}

abbrev answer : String ⊎ List (Service ℕ)
answer = inr (web ∷ dns ∷ [])

answer-HasDistinct : HasDistinct answer
answer-HasDistinct = (
  ((λ e. ground (arith, ap (λ (k : ServiceKey). k.name) e, str_eq_iff "dns" "web")), tt),
  (tt, tt),
)

abbrev rounds : List (Round ℕ)
rounds = watched (record { kind = deleted; object = some web; now = 7 } ∷ []) ∷ watched [] ∷ []

abbrev synced : ServiceIndexer ℕ
synced = (full_sync 5 answer new_service_indexer).0

dns_twice : find_by_node_port (pos 30053) (watch_loop rounds synced) ≡ dns ∷ dns ∷ []
unfolding find_by_node_port watch_loop full_sync lookup handle_watch_events
    remove_service_from_index add_service_to_index insert delete
dns_twice = refl

run-IsIndexed : IsIndexed (watch_loop rounds synced)
run-IsIndexed = watch_loop-new-IsIndexed 5 answer rounds answer-HasDistinct (tt, (tt, tt))

watch_loop-new-IsIndexed_example :
    IsIndexed (watch_loop rounds (full_sync 5 answer new_service_indexer).0)
watch_loop-new-IsIndexed_example =
    watch_loop-new-IsIndexed 5 answer rounds answer-HasDistinct (tt, (tt, tt))

find_by_node_port_lem_example :
    All
      (λ svc. get_service svc.namespace svc.name (watch_loop rounds synced) ≡ some svc)
      (find_by_node_port (pos 30053) (watch_loop rounds synced))
    × ((key : ServiceKey)
        → services_of key (find_by_node_port (pos 30053) (watch_loop rounds synced))
          ≡ uses_of (pos 30053) (get_service key.namespace key.name (watch_loop rounds synced)))
find_by_node_port_lem_example =
    find_by_node_port_lem (pos 30053) (watch_loop rounds synced) run-IsIndexed

abbrev web_added : WatchEvent ℕ
web_added = record { kind = added; object = some web; now = 8 }

-- dns is deleted while no watch is open, and the next watch begins with the Services that there are
get_service-watch_loop_example :
    get_service "kube-system" "dns" (watch_loop (watched [] ∷ watched (web_added ∷ []) ∷ []) synced)
    ≡ get_service "kube-system" "dns" synced
get_service-watch_loop_example =
    get_service-watch_loop (watched [] ∷ watched (web_added ∷ []) ∷ []) "kube-system" "dns" synced (
      tt,
      (((λ e. ground (arith, ap (λ (k : ServiceKey). k.name) e, str_eq_iff "web" "dns")), tt), tt),
    )
