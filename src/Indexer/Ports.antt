-- ===== src/Indexer/Ports.antt =====
-- How often the index holds a key under a port, after the loops over the ports of a Service.
use kubectl_mcp.Prelude.{
  ℕ, ◌+◌, ◌-◌, false, ◌&&◌, some, List, [], ◌∷◌, ◌++◌, ◌≡◌, ◌≢◌, refl, arith, inl, inr, Bool-cases,
  if◌then◌else◌, count, count-append,
}
use kubectl_mcp.Prelude.Int.{ℤ}
use kubectl_mcp.GoMap.{GoMap, lookup}
use kubectl_mcp.GoMap.Laws.{lookup-insert, lookup-delete}
use kubectl_mcp.Indexer.{
  ServiceKey, int_beq, int_beq_iff, key_beq, key_beq_iff, port_eq, key_eq, keys_of, is_node_port,
  remove_first, drop_if_empty, contains_key, remove_from_node_port_index, append_key, add_ports,
  remove_ports,
}

abbrev pub PortIndex : Type 0
PortIndex = GoMap ℤ (List ServiceKey)

unfoldable pub times_in : ServiceKey → List ServiceKey → ℕ
times_in key keys = count (λ k. key_beq k key) keys

-- how often the index holds a key under a port
unfoldable pub times : ℤ → ServiceKey → PortIndex → ℕ
unfolding times_in
times port key index = times_in key (keys_of (lookup port index))

-- how many of the ports of a Service are this node port
unfoldable pub uses : ℤ → List ℤ → ℕ
uses port ports = count (λ p. is_node_port p && int_beq p port) ports

-- no port stands in the index with no key
unfoldable pub HasNoEmpty : PortIndex → Type 0
HasNoEmpty index = (port : ℤ) → lookup port index ≢ some []

times-append_key :
    (p q : ℤ) (key k : ServiceKey) (m : PortIndex)
    → times q k (append_key p key m) ≡ times q k m + (if int_beq p q && key_beq key k then 1 else 0)
unfolding times times_in append_key
times-append_key p q key k m = ground (
  arith,
  lookup-insert p q (keys_of (lookup p m) ++ key ∷ []) m,
  int_beq_iff p q,
  count-append (λ (x : ServiceKey). key_beq x k) (keys_of (lookup p m)) (key ∷ []),
)

times_in-remove_first :
    (key k : ServiceKey) (keys : List ServiceKey)
    → times_in k (remove_first key keys) ≡ times_in k keys - (if key_beq key k then 1 else 0)
unfolding times_in remove_first
times_in-remove_first key k [] = ground arith
times_in-remove_first key k (x ∷ keys) =
    ground (
      arith,
      key_beq_iff x key,
      key_beq_iff x k,
      key_beq_iff key k,
      times_in-remove_first key k keys,
    )

times_in-absent :
    (key : ServiceKey) (keys : List ServiceKey)
    → contains_key key keys ≡ false
    → times_in key keys ≡ 0
unfolding times_in contains_key
times_in-absent key [] h = refl
times_in-absent key (x ∷ keys) h = ground (arith, times_in-absent key keys)

keys-drop_if_empty :
    (p q : ℤ) (m : PortIndex) → keys_of (lookup q (drop_if_empty p m)) ≡ keys_of (lookup q m)
unfolding drop_if_empty
keys-drop_if_empty p q m = ground (arith, lookup-delete p q m, int_beq_iff p q)

times-remove_from :
    (p q : ℤ) (key k : ServiceKey) (m : PortIndex)
    → times q k (remove_from_node_port_index p key m)
      ≡ times q k m - (if int_beq p q && key_beq key k then 1 else 0)
unfolding times remove_from_node_port_index
times-remove_from p q key k m = elim (Bool-cases (contains_key key (keys_of (lookup p m)))) [
  | inl there ↦
      rw (there, keys-drop_if_empty)
        (ground (
          arith,
          lookup-insert p q (remove_first key (keys_of (lookup p m))) m,
          int_beq_iff p q,
          times_in-remove_first key k (keys_of (lookup p m)),
        ))
  | inr gone ↦
      rw (gone, keys-drop_if_empty)
        (ground (
          arith,
          int_beq_iff p q,
          key_beq_iff key k,
          times_in-absent key (keys_of (lookup p m)) gone,
        ))
]

pub times-add_ports :
    (key k : ServiceKey) (q : ℤ) (ports : List ℤ) (m : PortIndex)
    → times q k (add_ports key ports m) ≡ times q k m + (if key_beq key k then uses q ports else 0)
unfolding add_ports uses
times-add_ports key k q [] m = ground arith
times-add_ports key k q (p ∷ ports) m = elim (Bool-cases (is_node_port p)) [
  | inl node ↦ rw node (
      ground
        (arith, times-add_ports key k q ports (append_key p key m), times-append_key p q key k m))
  | inr other ↦ rw other (ground (arith, times-add_ports key k q ports m))
]

pub times-remove_ports :
    (key k : ServiceKey) (q : ℤ) (ports : List ℤ) (m : PortIndex)
    → times q k (remove_ports key ports m)
      ≡ times q k m - (if key_beq key k then uses q ports else 0)
unfolding remove_ports uses
times-remove_ports key k q [] m = ground arith
times-remove_ports key k q (p ∷ ports) m = elim (Bool-cases (is_node_port p)) [
  | inl node ↦ rw node (
      ground (
        arith,
        times-remove_ports key k q ports (remove_from_node_port_index p key m),
        times-remove_from p q key k m,
      ))
  | inr other ↦ rw other (ground (arith, times-remove_ports key k q ports m))
]

append_one-ne-nil : (key : ServiceKey) (keys : List ServiceKey) → keys ++ key ∷ [] ≢ []
append_one-ne-nil key [] e = ground arith
append_one-ne-nil key (k ∷ keys) e = ground arith

pub add_ports-HasNoEmpty :
    (key : ServiceKey) (ports : List ℤ) (m : PortIndex)
    → HasNoEmpty m
    → HasNoEmpty (add_ports key ports m)
unfolding add_ports HasNoEmpty append_key
add_ports-HasNoEmpty key [] m h = h
add_ports-HasNoEmpty key (p ∷ ports) m h = elim (Bool-cases (is_node_port p)) [
  | inl node ↦ rw node (
      add_ports-HasNoEmpty key ports (append_key p key m) (λ q e. elim (Bool-cases (int_beq p q)) [
        | inl same ↦
            append_one-ne-nil key (keys_of (lookup p m))
              (ground (arith, lookup-insert p q (keys_of (lookup p m) ++ key ∷ []) m))
        | inr past ↦ ground (arith, lookup-insert p q (keys_of (lookup p m) ++ key ∷ []) m, h q)
      ]))
  | inr other ↦ rw other (add_ports-HasNoEmpty key ports m h)
]

drop_if_empty-HasNoEmpty :
    (p : ℤ) (m : PortIndex)
    → ((q : ℤ) → q ≢ p → lookup q m ≢ some [])
    → HasNoEmpty (drop_if_empty p m)
unfolding drop_if_empty HasNoEmpty
drop_if_empty-HasNoEmpty p m h q e = ground (arith, lookup-delete p q m, int_beq_iff p q, h q)

remove_from-HasNoEmpty :
    (p : ℤ) (key : ServiceKey) (m : PortIndex)
    → HasNoEmpty m
    → HasNoEmpty (remove_from_node_port_index p key m)
unfolding HasNoEmpty remove_from_node_port_index
remove_from-HasNoEmpty p key m h = drop_if_empty-HasNoEmpty p _ (λ q ne e.
    ground
      (arith, lookup-insert p q (remove_first key (keys_of (lookup p m))) m, int_beq_iff p q, h q))

pub remove_ports-HasNoEmpty :
    (key : ServiceKey) (ports : List ℤ) (m : PortIndex)
    → HasNoEmpty m
    → HasNoEmpty (remove_ports key ports m)
unfolding remove_ports
remove_ports-HasNoEmpty key [] m h = h
remove_ports-HasNoEmpty key (p ∷ ports) m h = elim (Bool-cases (is_node_port p)) [
  | inl node ↦ rw node (
      remove_ports-HasNoEmpty key ports (remove_from_node_port_index p key m)
        (remove_from-HasNoEmpty p key m h))
  | inr other ↦ rw other (remove_ports-HasNoEmpty key ports m h)
]
