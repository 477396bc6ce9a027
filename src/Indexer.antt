-- ===== src/Indexer.antt =====
-- internal/k8s/service_indexer.go: `ServiceIndexer`. The write lock makes each sync and each event
-- one step. The list and the events come from the Kubernetes API, as values with their times. A
-- `*corev1.Service` is copied on its way in and out, and so it is a value; D is what no code here
-- reads of it. The port numbers are int32, on which nothing is computed.
pub mod Ports
pub mod Invariant
pub mod Queries
pub mod Watching
mod Tests
use kubectl_mcp.Prelude.{
  ℕ, String, Bool, true, false, not, ◌&&◌, Option, none, some, is_some, List, [], ◌∷◌, ◌++◌, ◌⊎◌,
  inl, inr, map, length, ◌==◌, str_eq, str_eq_iff, string_eq, if◌then◌else◌, Eq, ◌↔◌, ◌≡◌, arith,
}
use kubectl_mcp.Prelude.Int.{ℤ, pos, negsuc, ltb_ℤ}
use kubectl_mcp.GoMap.{GoMap, lookup, insert, delete}

pub record ServiceKey : Type 0 where
  pub namespace : String
  pub name : String

-- `corev1.Service`, by the fields that the source reads
pub record Service (D : Type 0) : Type 0 where
  pub namespace : String
  pub name : String
  pub node_ports : List ℤ
  pub rest : D

pub record ServiceIndexer (D : Type 0) : Type 0 where
  pub node_port_index : GoMap ℤ (List ServiceKey)
  pub service_cache : GoMap ServiceKey (Service D)
  pub ready : Bool
  pub last_sync : ℕ
  pub sync_error : Option String

pub record IndexerStats : Type 0 where
  pub service_count : ℕ
  pub node_port_count : ℕ
  pub ready : Bool
  pub last_sync : ℕ
  pub has_error : Bool

-- `watch.EventType`; the last stands for every type that the switch does not name
pub data EventType : Type 0 where
  added modified deleted other_type : EventType

-- an event and when it is handled; an object that is no Service is `none`
pub record WatchEvent (D : Type 0) : Type 0 where
  pub kind : EventType
  pub object : Option (Service D)
  pub now : ℕ

-- a round of `watchLoop`: a watch whose events end, or an error and the sync that is tried later
pub data Round (D : Type 0) : Type 0 where
  watched : List (WatchEvent D) → Round D
  watch_failed : String → ℕ → String ⊎ List (Service D) → Round D

abbrev pub int_beq : ℤ → ℤ → Bool
int_beq (pos a) (pos b) = a == b
int_beq (pos a) (negsuc b) = false
int_beq (negsuc a) (pos b) = false
int_beq (negsuc a) (negsuc b) = a == b

pub int_beq_iff : (a b : ℤ) → (int_beq a b ≡ true) ↔ (a ≡ b)
int_beq_iff (pos a) (pos b) = ground arith
int_beq_iff (pos a) (negsuc b) = ground arith
int_beq_iff (negsuc a) (pos b) = ground arith
int_beq_iff (negsuc a) (negsuc b) = ground arith

abbrev pub key_beq : ServiceKey → ServiceKey → Bool
key_beq a b = str_eq a.namespace b.namespace && str_eq a.name b.name

pub key_beq_iff : (a b : ServiceKey) → (key_beq a b ≡ true) ↔ (a ≡ b)
key_beq_iff a b = ground (arith, str_eq_iff a.namespace b.namespace, str_eq_iff a.name b.name)

instance abbrev pub port_eq : Eq ℤ
port_eq = record { beq = int_beq; beq_iff = int_beq_iff }

instance abbrev pub key_eq : Eq ServiceKey
key_eq = record { beq = key_beq; beq_iff = key_beq_iff }

-- a missing key reads as the nil slice
abbrev pub keys_of : Option (List ServiceKey) → List ServiceKey
keys_of none = []
keys_of (some keys) = keys

-- the keys less the first that equals `key`
remove_first : ServiceKey → List ServiceKey → List ServiceKey
remove_first key [] = []
remove_first key (k ∷ keys) = if key_beq k key then keys else k ∷ remove_first key keys

drop_if_empty : ℤ → GoMap ℤ (List ServiceKey) → GoMap ℤ (List ServiceKey)
drop_if_empty port index = elim (keys_of (lookup port index)) [
  | [] ↦ delete port index
  | k ∷ keys ↦ index
]

contains_key : ServiceKey → List ServiceKey → Bool
contains_key key [] = false
contains_key key (k ∷ keys) = if key_beq k key then true else contains_key key keys

-- the entry is written only where the key is found
remove_from_node_port_index : ℤ → ServiceKey → GoMap ℤ (List ServiceKey) → GoMap ℤ (List ServiceKey)
unfolding remove_first drop_if_empty contains_key
remove_from_node_port_index port key index =
    let keys = keys_of (lookup port index) in
    drop_if_empty port
      (if contains_key key keys then insert port (remove_first key keys) index else index)

-- `port.NodePort > 0`
abbrev pub is_node_port : ℤ → Bool
is_node_port port = ltb_ℤ (pos 0) port

append_key : ℤ → ServiceKey → GoMap ℤ (List ServiceKey) → GoMap ℤ (List ServiceKey)
append_key port key index = insert port (keys_of (lookup port index) ++ key ∷ []) index

-- the two loops over the ports of a Service
pub add_ports : ServiceKey → List ℤ → GoMap ℤ (List ServiceKey) → GoMap ℤ (List ServiceKey)
unfolding append_key
add_ports key [] index = index
add_ports key (port ∷ ports) index =
    add_ports key ports (if is_node_port port then append_key port key index else index)

pub remove_ports : ServiceKey → List ℤ → GoMap ℤ (List ServiceKey) → GoMap ℤ (List ServiceKey)
unfolding remove_from_node_port_index
remove_ports key [] index = index
remove_ports key (port ∷ ports) index =
    remove_ports key ports
      (if is_node_port port then remove_from_node_port_index port key index else index)

abbrev pub key_of : {D : Type 0} → Service D → ServiceKey
key_of svc = record { namespace = svc.namespace; name = svc.name }

module _ {D : Type 0} where
  unfoldable pub new_service_indexer : ServiceIndexer D
  new_service_indexer = record {
    node_port_index = [];
    service_cache = [];
    ready = false;
    last_sync = 0;
    sync_error = none;
  }

  unfoldable pub add_service_to_index : Service D → ServiceIndexer D → ServiceIndexer D
  unfolding add_ports
  add_service_to_index svc si = record si {
    service_cache = insert (key_of svc) svc si.service_cache;
    node_port_index = add_ports (key_of svc) svc.node_ports si.node_port_index;
  }

  -- the index less the ports of a Service that is cached
  remove_old :
      ServiceKey → Option (Service D) → GoMap ℤ (List ServiceKey) → GoMap ℤ (List ServiceKey)
  unfolding remove_ports
  remove_old key none index = index
  remove_old key (some old) index = remove_ports key old.node_ports index

  unfoldable pub remove_service_from_index : ServiceKey → ServiceIndexer D → ServiceIndexer D
  unfolding remove_old
  remove_service_from_index key si = record si {
    node_port_index = remove_old key (lookup key si.service_cache) si.node_port_index;
    service_cache = delete key si.service_cache;
  }

  add_services : List (Service D) → ServiceIndexer D → ServiceIndexer D
  add_services [] si = si
  add_services (svc ∷ services) si = add_services services (add_service_to_index svc si)

  -- `fullSync` after the answer of the API, an error or the list, at a time; the error if there is one
  unfoldable pub full_sync :
      ℕ → String ⊎ List (Service D) → ServiceIndexer D → ServiceIndexer D × Option String
  unfolding add_services
  full_sync now (inl e) si = (record si { sync_error = some e }, some e)
  full_sync now (inr services) si = (
    record (add_services services (record si { node_port_index = []; service_cache = [] })) {
      ready = true;
      last_sync = now;
      sync_error = none;
    },
    none,
  )

  apply_event : EventType → Service D → ServiceIndexer D → ServiceIndexer D
  apply_event added svc si = add_service_to_index svc (remove_service_from_index (key_of svc) si)
  apply_event modified svc si = add_service_to_index svc (remove_service_from_index (key_of svc) si)
  apply_event deleted svc si = remove_service_from_index (key_of svc) si
  apply_event other_type svc si = si

  handle_object : EventType → ℕ → Option (Service D) → ServiceIndexer D → ServiceIndexer D
  unfolding apply_event
  handle_object kind now none si = si
  handle_object kind now (some svc) si = record (apply_event kind svc si) { last_sync = now }

  -- the events of one watch, until its channel is closed
  unfoldable pub handle_watch_events : List (WatchEvent D) → ServiceIndexer D → ServiceIndexer D
  unfolding handle_object
  handle_watch_events [] si = si
  handle_watch_events (event ∷ events) si =
      handle_watch_events events (handle_object event.kind event.now event.object si)

  found : List ServiceKey → GoMap ServiceKey (Service D) → List (Service D)
  found [] cache = []
  found (key ∷ keys) cache =
      let rest = found keys cache in elim (lookup key cache) [ none ↦ rest | some svc ↦ svc ∷ rest ]

  -- nil for a port that has no entry
  unfoldable pub find_by_node_port : ℤ → ServiceIndexer D → List (Service D)
  unfolding found
  find_by_node_port port si = found (keys_of (lookup port si.node_port_index)) si.service_cache

  found_in : String → List ServiceKey → GoMap ServiceKey (Service D) → List (Service D)
  found_in namespace [] cache = []
  found_in namespace (key ∷ keys) cache =
      let rest = found_in namespace keys cache in
      if not (str_eq namespace "") && not (str_eq key.namespace namespace)
      then rest
      else elim (lookup key cache) [ none ↦ rest | some svc ↦ svc ∷ rest ]

  unfoldable pub find_by_node_port_in_namespace : ℤ → String → ServiceIndexer D → List (Service D)
  unfolding found_in
  find_by_node_port_in_namespace port namespace si =
      found_in namespace (keys_of (lookup port si.node_port_index)) si.service_cache

  unfoldable pub get_service : String → String → ServiceIndexer D → Option (Service D)
  get_service namespace name si =
      lookup (record { namespace = namespace; name = name }) si.service_cache

  unfoldable pub list_all_services : ServiceIndexer D → List (Service D)
  list_all_services si = map (λ entry. entry.1) si.service_cache

  unfoldable pub get_stats : ServiceIndexer D → IndexerStats
  get_stats si = record {
    service_count = length si.service_cache;
    node_port_count = length si.node_port_index;
    ready = si.ready;
    last_sync = si.last_sync;
    has_error = is_some si.sync_error;
  }

  watch_round : Round D → ServiceIndexer D → ServiceIndexer D
  watch_round (watched events) si = handle_watch_events events si
  watch_round (watch_failed e now answer) si =
      (full_sync now answer (record si { sync_error = some e })).0

  unfoldable pub watch_loop : List (Round D) → ServiceIndexer D → ServiceIndexer D
  unfolding watch_round
  watch_loop [] si = si
  watch_loop (round ∷ rounds) si = watch_loop rounds (watch_round round si)
