-- ===== src/Cache/Reads.antt =====
-- What a `Get` returns, and what it and a `Set` change.
use kubectl_mcp.Prelude.{
  ℕ, ◌+◌, ◌%◌, ◌^◌, ◌≤◌, ◌<◌, String, true, none, some, [], ◌∷◌, ◌≡◌, refl, arith, string_eq,
  length, lt→ltb, inl, inr,
}
use kubectl_mcp.GoMap.{GoMap, lookup, has}
use kubectl_mcp.GoMap.Laws.{lookup-insert_self, lookup-delete_self, length-insert, length-delete-le}
use kubectl_mcp.Cache.{
  CacheEntry, QueryCache, get, set_with_ttl, make_room, is_expired, evict_oldest, stats,
}
use kubectl_mcp.Cache.Evict.{evict_oldest-oldest}
use kubectl_mcp.Cache.Invariant.{IsValid, evict_oldest-cases}

module _ {ℓ} {D : Type ℓ} where
  make_room-enabled : (c : QueryCache D) → (make_room c).enabled ≡ c.enabled
  unfolding make_room evict_oldest
  make_room-enabled c = ground arith

  has-nonempty : (key : String) (m : GoMap String (CacheEntry D)) → has key m ≡ true → 0 < length m
  unfolding has lookup
  has-nonempty key [] h = cc
  has-nonempty key (x ∷ m) h = omega arith

  -- In an enabled cache a `Get` that comes no later than the time to live after a `Set` of the key
  -- returns what was set, whatever the cache held and however full it was.
  pub get-set_with_ttl :
      (now later : ℕ) (key : String) (value : D) (ttl : ℕ) (c : QueryCache D)
      → c.enabled ≡ true
      → later ≤ now + ttl
      → (get later key (set_with_ttl now key value ttl c)).1 ≡ some value
  unfolding get set_with_ttl is_expired
  get-set_with_ttl now later key value ttl c on fresh =
      let entry : CacheEntry D = record {
        value = value;
        created_at = now;
        expires_at = now + ttl;
        hit_count = 0;
      } in
      ground (arith, make_room-enabled c, lookup-insert_self key entry (make_room c).entries)

  -- A `Get` of an entry past its expiry returns nothing, counts a miss and takes the entry out.
  pub get_expired :
      (now : ℕ) (key : String) (c : QueryCache D) (e : CacheEntry D)
      → c.enabled ≡ true
      → lookup key c.entries ≡ some e
      → e.expires_at < now
      → ((get now key c).1 ≡ none)
        × (lookup key (get now key c).0.entries ≡ none)
        × ((get now key c).0.misses ≡ (c.misses + 1) % 2 ^ 64)
        × ((get now key c).0.hits ≡ c.hits)
  unfolding get
  get_expired now key c e on found late =
      rw (on, found, lt→ltb e.expires_at now late)
        (refl, lookup-delete_self key c.entries, refl, refl)

  -- Each `Get` of an enabled cache counts once, as a hit or as a miss, modulo 2^64.
  pub stats-get :
      (now : ℕ) (key : String) (c : QueryCache D)
      → c.enabled ≡ true
      → ((stats (get now key c).0).hits + (stats (get now key c).0).misses) % 2 ^ 64
        ≡ ((stats c).hits + (stats c).misses + 1) % 2 ^ 64
  unfolding get stats
  stats-get now key c on = ground arith

  evict_oldest-le : (c : QueryCache D) → length (evict_oldest c).entries ≤ length c.entries
  evict_oldest-le c = elim (evict_oldest-cases c) [
    | inl same ↦ rw same (omega arith)
    | inr (k, gone) ↦ rw gone (length-delete-le k c.entries)
  ]

  -- In a full valid cache a `Set` of a key that is there already evicts another entry, though the
  -- write needs no room: unless the key's own entry is the one evicted, an entry is lost.
  pub length-set_with_ttl_present :
      (now : ℕ) (key : String) (value : D) (ttl : ℕ) (c : QueryCache D)
      → IsValid c
      → c.enabled ≡ true
      → c.max_size ≤ length c.entries
      → has key (evict_oldest c).entries ≡ true
      → length (set_with_ttl now key value ttl c).entries + 1 ≡ length c.entries
  unfolding set_with_ttl make_room
  length-set_with_ttl_present now key value ttl c v on full kept =
      let entry : CacheEntry D = record {
        value = value;
        created_at = now;
        expires_at = now + ttl;
        hit_count = 0;
      } in
      let m = (evict_oldest c).entries in
      let nonempty : 0 < length c.entries =
        omega (arith, has-nonempty key m kept, evict_oldest-le c) in
      let (_, _, _, _, _, one_less) = evict_oldest-oldest c v.distinct v.named nonempty in
      ground (arith, length-insert key entry m, one_less)
