-- ===== src/Indexer/Invariant.antt =====
-- The index of node ports against the cached Services, after a sync and any events.
use kubectl_mcp.Prelude.{
  ℕ, ◌-◌, String, Option, none, some, List, [], ◌∷◌, ◌≡◌, ◌≢◌, ◌⊎◌, refl, arith, inl, inr,
  if◌then◌else◌, All,
}
use kubectl_mcp.Prelude.Int.{ℤ}
use kubectl_mcp.GoMap.{lookup}
use kubectl_mcp.GoMap.Laws.{lookup-insert, lookup-delete}
use kubectl_mcp.Indexer.{
  ServiceKey, Service, ServiceIndexer, WatchEvent, EventType, added, modified, deleted, other_type,
  Round, watched, watch_failed, key_beq, key_beq_iff, key_eq, port_eq, key_of, new_service_indexer,
  add_service_to_index, remove_old, remove_service_from_index, add_services, full_sync, apply_event,
  handle_object, handle_watch_events, watch_round, watch_loop,
}
use kubectl_mcp.Indexer.Ports.{
  PortIndex, times, times_in, uses, HasNoEmpty, times-add_ports, times-remove_ports,
  add_ports-HasNoEmpty, remove_ports-HasNoEmpty,
}

module _ {D : Type 0} where
  -- how many ports of a Service are the node port; none for a Service that is not there
  unfoldable pub uses_of : ℤ → Option (Service D) → ℕ
  uses_of port none = 0
  uses_of port (some svc) = uses port svc.node_ports

  -- A Service is cached under its own key, the index has a key under a port as often as the ports
  -- of the cached Service of that key have it, and has no port with no key.
  pub record IsIndexed (si : ServiceIndexer D) : Type 0 where
    pub keyed :
        (key : ServiceKey) (svc : Service D)
        → lookup key si.service_cache ≡ some svc
        → key_of svc ≡ key
    pub counted :
        (port : ℤ) (key : ServiceKey)
        → times port key si.node_port_index ≡ uses_of port (lookup key si.service_cache)
    pub no_empty : HasNoEmpty si.node_port_index

  add_service-IsIndexed :
      (svc : Service D) (si : ServiceIndexer D)
      → lookup (key_of svc) si.service_cache ≡ none
      → IsIndexed si
      → IsIndexed (add_service_to_index svc si)
  unfolding add_service_to_index uses_of
  add_service-IsIndexed svc si new v = record {
    keyed = λ key s found. ground (
      arith,
      lookup-insert (key_of svc) key svc si.service_cache,
      key_beq_iff (key_of svc) key,
      v.keyed key s,
    );
    counted = λ port key. ground (
      arith,
      lookup-insert (key_of svc) key svc si.service_cache,
      key_beq_iff (key_of svc) key,
      times-add_ports (key_of svc) key port svc.node_ports si.node_port_index,
      v.counted port key,
    );
    no_empty = add_ports-HasNoEmpty (key_of svc) svc.node_ports si.node_port_index v.no_empty;
  }

  remove_old-HasNoEmpty :
      (key : ServiceKey) (o : Option (Service D)) (m : PortIndex)
      → HasNoEmpty m
      → HasNoEmpty (remove_old key o m)
  unfolding remove_old
  remove_old-HasNoEmpty key none m h = h
  remove_old-HasNoEmpty key (some svc) m h = remove_ports-HasNoEmpty key svc.node_ports m h

  times-remove_old :
      (key k : ServiceKey) (port : ℤ) (o : Option (Service D)) (m : PortIndex)
      → times port k (remove_old key o m)
        ≡ times port k m - (if key_beq key k then uses_of port o else 0)
  unfolding remove_old uses_of
  times-remove_old key k port none m = ground arith
  times-remove_old key k port (some svc) m = times-remove_ports key k port svc.node_ports m

  remove_service-IsIndexed :
      (key : ServiceKey) (si : ServiceIndexer D)
      → IsIndexed si
      → IsIndexed (remove_service_from_index key si)
  unfolding remove_service_from_index uses_of
  remove_service-IsIndexed key si v = record {
    keyed = λ k s found. ground (arith, lookup-delete key k si.service_cache, v.keyed k s);
    counted = λ port k. ground (
      arith,
      lookup-delete key k si.service_cache,
      key_beq_iff key k,
      times-remove_old key k port (lookup key si.service_cache) si.node_port_index,
      v.counted port k,
    );
    no_empty =
        remove_old-HasNoEmpty key (lookup key si.service_cache) si.node_port_index v.no_empty;
  }

  -- no two Services of a list have one key
  abbrev pub DistinctKeys : List (Service D) → Type 0
  DistinctKeys [] = Unit
  DistinctKeys (svc ∷ services) = All (λ s. key_of s ≢ key_of svc) services × DistinctKeys services

  abbrev NotCached : ServiceIndexer D → Service D → Type 0
  NotCached si s = lookup (key_of s) si.service_cache ≡ none

  NotCached-add :
      (svc : Service D) (si : ServiceIndexer D) (services : List (Service D))
      → All (λ s. key_of s ≢ key_of svc) services
      → All (NotCached si) services
      → All (NotCached (add_service_to_index svc si)) services
  unfolding add_service_to_index
  NotCached-add svc si [] d n = tt
  NotCached-add svc si (s ∷ services) d n = (
    ground (
      arith,
      lookup-insert (key_of svc) (key_of s) svc si.service_cache,
      key_beq_iff (key_of svc) (key_of s),
      d.0,
      n.0,
    ),
    NotCached-add svc si services d.1 n.1,
  )

  add_services-IsIndexed :
      (services : List (Service D)) (si : ServiceIndexer D)
      → DistinctKeys services
      → All (NotCached si) services
      → IsIndexed si
      → IsIndexed (add_services services si)
  unfolding add_services
  add_services-IsIndexed [] si d n v = v
  add_services-IsIndexed (svc ∷ services) si d n v =
      add_services-IsIndexed services (add_service_to_index svc si) d.1
        (NotCached-add svc si services d.0 n.1) (add_service-IsIndexed svc si n.0 v)

  empty-NotCached :
      (si : ServiceIndexer D) (services : List (Service D))
      → All (NotCached (record si { node_port_index = []; service_cache = [] })) services
  unfolding lookup
  empty-NotCached si [] = tt
  empty-NotCached si (svc ∷ services) = (refl, empty-NotCached si services)

  empty-IsIndexed :
      (si : ServiceIndexer D) → IsIndexed (record si { node_port_index = []; service_cache = [] })
  unfolding lookup times times_in uses_of HasNoEmpty
  empty-IsIndexed si = record {
    keyed = λ key svc found. ground arith;
    counted = λ port key. refl;
    no_empty = λ port e. ground arith;
  }

  -- the other fields play no part
  IsIndexed-same :
      (si sj : ServiceIndexer D)
      → si.node_port_index ≡ sj.node_port_index
      → si.service_cache ≡ sj.service_cache
      → IsIndexed si
      → IsIndexed sj
  IsIndexed-same si sj p q v = record {
    keyed = λ key svc found. v.keyed key svc (rw q found);
    counted = λ port key. rw (← p, ← q) (v.counted port key);
    no_empty = rw (← p) v.no_empty;
  }

  -- what the API answers to a list: it has no key twice
  abbrev pub HasDistinct : String ⊎ List (Service D) → Type 0
  HasDistinct (inl e) = Unit
  HasDistinct (inr services) = DistinctKeys services

  full_sync-IsIndexed :
      (now : ℕ) (answer : String ⊎ List (Service D)) (si : ServiceIndexer D)
      → HasDistinct answer
      → IsIndexed si
      → IsIndexed (full_sync now answer si).0
  unfolding full_sync
  full_sync-IsIndexed now (inl e) si d v = IsIndexed-same si _ refl refl v
  full_sync-IsIndexed now (inr services) si d v =
      let cleared : ServiceIndexer D = record si { node_port_index = []; service_cache = [] } in
      IsIndexed-same (add_services services cleared) _ refl refl (
        add_services-IsIndexed services cleared d (empty-NotCached si services)
          (empty-IsIndexed si))

  replace-IsIndexed :
      (svc : Service D) (si : ServiceIndexer D)
      → IsIndexed si
      → IsIndexed (add_service_to_index svc (remove_service_from_index (key_of svc) si))
  unfolding remove_service_from_index
  replace-IsIndexed svc si v =
      add_service-IsIndexed svc (remove_service_from_index (key_of svc) si)
        (ground (
          arith,
          lookup-delete (key_of svc) (key_of svc) si.service_cache,
          key_beq_iff (key_of svc) (key_of svc),
        ))
        (remove_service-IsIndexed (key_of svc) si v)

  apply_event-IsIndexed :
      (kind : EventType) (svc : Service D) (si : ServiceIndexer D)
      → IsIndexed si
      → IsIndexed (apply_event kind svc si)
  unfolding apply_event
  apply_event-IsIndexed added svc si v = replace-IsIndexed svc si v
  apply_event-IsIndexed modified svc si v = replace-IsIndexed svc si v
  apply_event-IsIndexed deleted svc si v = remove_service-IsIndexed (key_of svc) si v
  apply_event-IsIndexed other_type svc si v = v

  handle_object-IsIndexed :
      (kind : EventType) (now : ℕ) (o : Option (Service D)) (si : ServiceIndexer D)
      → IsIndexed si
      → IsIndexed (handle_object kind now o si)
  unfolding handle_object
  handle_object-IsIndexed kind now none si v = v
  handle_object-IsIndexed kind now (some svc) si v =
      IsIndexed-same (apply_event kind svc si) _ refl refl (apply_event-IsIndexed kind svc si v)

  handle_watch_events-IsIndexed :
      (events : List (WatchEvent D)) (si : ServiceIndexer D)
      → IsIndexed si
      → IsIndexed (handle_watch_events events si)
  unfolding handle_watch_events
  handle_watch_events-IsIndexed [] si v = v
  handle_watch_events-IsIndexed (event ∷ events) si v =
      handle_watch_events-IsIndexed events _
        (handle_object-IsIndexed event.kind event.now event.object si v)

  abbrev pub RoundIsDistinct : Round D → Type 0
  RoundIsDistinct (watched events) = Unit
  RoundIsDistinct (watch_failed e now answer) = HasDistinct answer

  watch_round-IsIndexed :
      (round : Round D) (si : ServiceIndexer D)
      → RoundIsDistinct round
      → IsIndexed si
      → IsIndexed (watch_round round si)
  unfolding watch_round
  watch_round-IsIndexed (watched events) si d v = handle_watch_events-IsIndexed events si v
  watch_round-IsIndexed (watch_failed e now answer) si d v =
      full_sync-IsIndexed now answer (record si { sync_error = some e }) d
        (IsIndexed-same si _ refl refl v)

  watch_loop-IsIndexed :
      (rounds : List (Round D)) (si : ServiceIndexer D)
      → All RoundIsDistinct rounds
      → IsIndexed si
      → IsIndexed (watch_loop rounds si)
  unfolding watch_loop
  watch_loop-IsIndexed [] si d v = v
  watch_loop-IsIndexed (round ∷ rounds) si d v =
      watch_loop-IsIndexed rounds (watch_round round si) d.1 (watch_round-IsIndexed round si d.0 v)

  -- Where no list of the API has a key twice, after the first sync of a new indexer, failed or not, and any rounds of the watch
  -- loop, in any order of their events, every Service is cached under its own key, the index has a
  -- key under a port exactly as often as the ports of the cached Service of that key have it, and
  -- no port has an empty entry.
  pub watch_loop-new-IsIndexed :
      (now : ℕ) (answer : String ⊎ List (Service D)) (rounds : List (Round D))
      → HasDistinct answer
      → All RoundIsDistinct rounds
      → IsIndexed (watch_loop rounds (full_sync now answer new_service_indexer).0)
  unfolding new_service_indexer
  watch_loop-new-IsIndexed now answer rounds d ds = watch_loop-IsIndexed rounds _ ds (
      full_sync-IsIndexed now answer new_service_indexer d
        (IsIndexed-same _ new_service_indexer refl refl (empty-IsIndexed new_service_indexer)))
