-- ===== src/Indexer/Watching.antt =====
-- What the cache of Services holds after the events of a watch, and after several watches.
use kubectl_mcp.Prelude.{
  ℕ, String, Option, none, some, List, [], ◌∷◌, ◌≡◌, ◌≢◌, refl, arith, if◌then◌else◌, All,
}
use kubectl_mcp.GoMap.{lookup}
use kubectl_mcp.GoMap.Laws.{lookup-insert, lookup-delete}
use kubectl_mcp.Indexer.{
  ServiceKey, Service, ServiceIndexer, WatchEvent, EventType, added, modified, deleted, other_type,
  Round, watched, watch_failed, key_beq, key_beq_iff, key_eq, key_of, add_service_to_index,
  remove_service_from_index, apply_event, handle_object, handle_watch_events, watch_round,
  watch_loop, get_service,
}

module _ {D : Type 0} where
  -- the Service of a key after an event: what the last event of the key says of it
  said_of : EventType → Service D → Option (Service D) → Option (Service D)
  said_of added svc before = some svc
  said_of modified svc before = some svc
  said_of deleted svc before = none
  said_of other_type svc before = before

  said_if_any :
      EventType → Option (Service D) → ServiceKey → Option (Service D) → Option (Service D)
  unfolding said_of
  said_if_any kind none key before = before
  said_if_any kind (some svc) key before =
      if key_beq (key_of svc) key then said_of kind svc before else before

  pub last_said : List (WatchEvent D) → ServiceKey → Option (Service D) → Option (Service D)
  unfolding said_if_any
  last_said [] key before = before
  last_said (event ∷ events) key before =
      last_said events key (said_if_any event.kind event.object key before)

  cached : ServiceKey → ServiceIndexer D → Option (Service D)
  cached key si = lookup key si.service_cache

  cached-apply_event :
      (kind : EventType) (svc : Service D) (key : ServiceKey) (si : ServiceIndexer D)
      → cached key (apply_event kind svc si)
        ≡ (if key_beq (key_of svc) key then said_of kind svc (cached key si) else cached key si)
  unfolding cached apply_event said_of add_service_to_index remove_service_from_index
  cached-apply_event added svc key si = ground (
    arith,
    lookup-insert (key_of svc) key svc (remove_service_from_index (key_of svc) si).service_cache,
    lookup-delete (key_of svc) key si.service_cache,
  )
  cached-apply_event modified svc key si = ground (
    arith,
    lookup-insert (key_of svc) key svc (remove_service_from_index (key_of svc) si).service_cache,
    lookup-delete (key_of svc) key si.service_cache,
  )
  cached-apply_event deleted svc key si =
      ground (arith, lookup-delete (key_of svc) key si.service_cache)
  cached-apply_event other_type svc key si = ground arith

  cached-handle_object :
      (kind : EventType) (now : ℕ) (o : Option (Service D)) (key : ServiceKey)
      (si : ServiceIndexer D)
      → cached key (handle_object kind now o si) ≡ said_if_any kind o key (cached key si)
  unfolding handle_object said_if_any cached
  cached-handle_object kind now none key si = refl
  cached-handle_object kind now (some svc) key si = cached-apply_event kind svc key si

  cached-handle_watch_events :
      (events : List (WatchEvent D)) (key : ServiceKey) (si : ServiceIndexer D)
      → cached key (handle_watch_events events si) ≡ last_said events key (cached key si)
  unfolding handle_watch_events last_said
  cached-handle_watch_events [] key si = refl
  cached-handle_watch_events (event ∷ events) key si = rw (
    cached-handle_watch_events events key (handle_object event.kind event.now event.object si),
    cached-handle_object event.kind event.now event.object key si,
  )

  -- After the events of a watch `GetService` gives, for every key, the Service of the last event
  -- that adds or modifies one of this key, nothing where a deletion of it came later, and what it gave before
  -- where no event is about the key.
  pub get_service-handle_watch_events :
      (events : List (WatchEvent D)) (namespace name : String) (si : ServiceIndexer D)
      → get_service namespace name (handle_watch_events events si)
        ≡ last_said events
            (record { namespace = namespace; name = name })
            (get_service namespace name si)
  unfolding get_service cached
  get_service-handle_watch_events events namespace name si =
      cached-handle_watch_events events (record { namespace = namespace; name = name }) si

  -- the event is about no Service of the key
  abbrev pub NotAbout : ServiceKey → Option (Service D) → Type 0
  NotAbout key none = Unit
  NotAbout key (some svc) = key_of svc ≢ key

  -- a watch without an event about the key; a failed watch, which syncs, is none
  abbrev pub Silent : ServiceKey → Round D → Type 0
  Silent key (watched events) = All (λ event. NotAbout key event.object) events
  Silent key (watch_failed e now answer) = ⊥

  said-silent :
      (kind : EventType) (o : Option (Service D)) (key : ServiceKey) (before : Option (Service D))
      → NotAbout key o
      → said_if_any kind o key before ≡ before
  unfolding said_if_any
  said-silent kind none key before h = refl
  said-silent kind (some svc) key before h = ground (arith, key_beq_iff (key_of svc) key)

  last_said-silent :
      (events : List (WatchEvent D)) (key : ServiceKey) (before : Option (Service D))
      → All (λ event. NotAbout key event.object) events
      → last_said events key before ≡ before
  unfolding last_said
  last_said-silent [] key before h = refl
  last_said-silent (event ∷ events) key before h =
      rw (said-silent event.kind event.object key before h.0)
        (last_said-silent events key before h.1)

  -- However many watches end and begin anew with no event about a key, `GetService` gives for it what it
  -- gave before the first of them: the loop does not list the Services again between two watches.
  pub get_service-watch_loop :
      (rounds : List (Round D)) (namespace name : String) (si : ServiceIndexer D)
      → All (Silent (record { namespace = namespace; name = name })) rounds
      → get_service namespace name (watch_loop rounds si) ≡ get_service namespace name si
  unfolding watch_loop watch_round
  get_service-watch_loop [] namespace name si h = refl
  get_service-watch_loop (watched events ∷ rounds) namespace name si h =
      rw
        (
          get_service-watch_loop rounds namespace name (handle_watch_events events si) h.1,
          get_service-handle_watch_events events namespace name si,
        )
        (last_said-silent events (record { namespace = namespace; name = name })
          (get_service namespace name si) h.0)
  get_service-watch_loop (watch_failed e now answer ∷ rounds) namespace name si h = absurd h.0
