-- ===== src/Cache/Invariant.antt =====
-- What holds of the cache between two calls: no key twice, and never more entries than `MaxSize`.
use text.Mathlib.Text.{starts_with}
use Prim.Native.Nat.{max}
use kubectl_mcp.Prelude.{
  ℕ, ◌+◌, ◌≤◌, String, Bool, Option, none, some, List, [], ◌∷◌, ◌≡◌, ◌≢◌, ◌⊎◌, refl, arith, ltb,
  leb, str_eq, string_eq, length, Bool-cases, inl, inr, leb_gt, ltb→lt, ltb_ge, All, if_elim,
}
use kubectl_mcp.GoMap.{GoMap, lookup, has, insert, delete, delete_where, Distinct}
use kubectl_mcp.GoMap.Laws.{
  length-delete-le, length-insert, length-delete_where-le, delete-Distinct, insert-Distinct,
  delete_where-Distinct,
}
use kubectl_mcp.Cache.{
  CacheEntry, QueryCache, CacheConfig, new_query_cache, get, make_room, set_with_ttl, set, remove,
  clear, invalidate_by_prefix, invalidate_by_tool, cleanup, enable, disable, finish_get,
  evict_oldest, oldest_from,
}
use kubectl_mcp.Cache.Evict.{NoEmptyKey, NoEmptyKey-lookup, evict_oldest-oldest}
use kubectl_mcp.Cache.Calls.{
  Call, step, run, get_call, set_call, set_with_ttl_call, delete_call, clear_call,
  invalidate_by_prefix_call, invalidate_by_tool_call, cleanup_call, enable_call, disable_call,
}

module _ {ℓ} {D : Type ℓ} where
  NoEmptyKey-delete :
      (k : String) (m : GoMap String (CacheEntry D)) → NoEmptyKey m → NoEmptyKey (delete k m)
  unfolding delete
  NoEmptyKey-delete k [] n = tt
  NoEmptyKey-delete k ((j, e) ∷ m) n = elim (Bool-cases (str_eq j k)) [
    | inl same ↦ rw same (NoEmptyKey-delete k m n.1)
    | inr other ↦ rw other (n.0, NoEmptyKey-delete k m n.1)
  ]

  NoEmptyKey-insert :
      (k : String) (v : CacheEntry D) (m : GoMap String (CacheEntry D))
      → k ≢ ""
      → NoEmptyKey m
      → NoEmptyKey (insert k v m)
  unfolding insert
  NoEmptyKey-insert k v [] h n = (h, tt)
  NoEmptyKey-insert k v ((j, e) ∷ m) h n = elim (Bool-cases (str_eq j k)) [
    | inl same ↦ rw same (h, n.1)
    | inr other ↦ rw other (n.0, NoEmptyKey-insert k v m h n.1)
  ]

  NoEmptyKey-delete_where :
      (p : String → CacheEntry D → Bool) (m : GoMap String (CacheEntry D))
      → NoEmptyKey m
      → NoEmptyKey (delete_where p m)
  unfolding delete_where
  NoEmptyKey-delete_where p [] n = tt
  NoEmptyKey-delete_where p ((j, e) ∷ m) n = elim (Bool-cases (p j e)) [
    | inl dropped ↦ rw dropped (NoEmptyKey-delete_where p m n.1)
    | inr kept ↦ rw kept (n.0, NoEmptyKey-delete_where p m n.1)
  ]

  -- A cache of size 0 still takes the entry that it writes.
  pub record IsValid (c : QueryCache D) : Type ℓ where
    pub distinct : Distinct c.entries
    pub named : NoEmptyKey c.entries
    pub bounded : length c.entries ≤ max 1 c.max_size

  pub new_query_cache-IsValid : (config : Option CacheConfig) → IsValid (new_query_cache config)
  unfolding new_query_cache
  new_query_cache-IsValid config = record { distinct = tt; named = tt; bounded = omega arith }

  pub evict_oldest-cases :
      (c : QueryCache D)
      → (evict_oldest c ≡ c)
        ⊎ ((k : String) × (evict_oldest c ≡ record c { entries = delete k c.entries }))
  unfolding evict_oldest
  evict_oldest-cases c = elim (Bool-cases (str_eq (oldest_from "" 0 c.entries) "")) [
    | inl nothing ↦ inl (rw nothing)
    | inr key ↦ inr (oldest_from "" 0 c.entries, rw key)
  ]

  evict_oldest-IsValid :
      (c : QueryCache D)
      → IsValid c
      → IsValid (evict_oldest c) × ((evict_oldest c).max_size ≡ c.max_size)
  evict_oldest-IsValid c v = elim (evict_oldest-cases c) [
    | inl same ↦ rw same (v, refl)
    | inr (k, gone) ↦ rw gone (
      record {
        distinct = delete-Distinct k c.entries v.distinct;
        named = NoEmptyKey-delete k c.entries v.named;
        bounded = omega (arith, length-delete-le k c.entries, v.bounded);
      },
      refl,
    )
  ]

  -- an eviction from a cache within its bounds leaves room for one more entry
  length-evict_oldest :
      (c : QueryCache D) → IsValid c → length (evict_oldest c).entries + 1 ≤ max 1 c.max_size
  length-evict_oldest c v = elim (Bool-cases (ltb 0 (length c.entries))) [
    | inl some_entry ↦
        let (_, _, _, _, _, one_less) =
          evict_oldest-oldest c v.distinct v.named (ltb→lt 0 _ some_entry) in
        omega (arith, v.bounded, one_less)
    | inr no_entry ↦ elim (evict_oldest-cases c) [
      | inl same ↦ rw same (omega (arith, ltb_ge 0 (length c.entries) no_entry))
      | inr (k, gone) ↦
          rw gone
            (omega (arith, ltb_ge 0 (length c.entries) no_entry, length-delete-le k c.entries))
    ]
  ]

  make_room-IsValid :
      (c : QueryCache D)
      → IsValid c
      → IsValid (make_room c)
        × ((make_room c).max_size ≡ c.max_size)
        × (length (make_room c).entries + 1 ≤ max 1 c.max_size)
  unfolding make_room
  make_room-IsValid c v = elim (Bool-cases (leb c.max_size (length c.entries))) [
    | inl full ↦
        let (valid, size) = evict_oldest-IsValid c v in
        rw full (valid, size, length-evict_oldest c v)
    | inr room ↦ rw room (v, refl, omega (arith, leb_gt _ _ room))
  ]

  pub set_with_ttl-IsValid :
      (now : ℕ) (key : String) (value : D) (ttl : ℕ) (c : QueryCache D)
      → key ≢ ""
      → IsValid c
      → IsValid (set_with_ttl now key value ttl c)
  unfolding set_with_ttl
  set_with_ttl-IsValid now key value ttl c h v =
      let (r, size, room) = make_room-IsValid c v in
      if_elim IsValid c.enabled
        (λ _. record {
          distinct = insert-Distinct key _ (make_room c).entries r.distinct;
          named = NoEmptyKey-insert key _ (make_room c).entries h r.named;
          bounded = ground (
            arith,
            length-insert key
                (record { value = value; created_at = now; expires_at = now + ttl; hit_count = 0 })
                (make_room c).entries,
            room,
            size,
          );
        })
        (λ _. v)

  finish_get-IsValid :
      (now : ℕ) (key : String) (o : Option (CacheEntry D)) (c : QueryCache D)
      → lookup key c.entries ≡ o
      → IsValid c
      → IsValid (finish_get now key o c).0
  unfolding finish_get has
  finish_get-IsValid now key none c h v = record {
    distinct = v.distinct;
    named = v.named;
    bounded = v.bounded;
  }
  finish_get-IsValid now key (some e) c h v = elim (Bool-cases (ltb e.expires_at now)) [
    | inl expired ↦ rw expired (record {
      distinct = delete-Distinct key c.entries v.distinct;
      named = NoEmptyKey-delete key c.entries v.named;
      bounded = omega (arith, length-delete-le key c.entries, v.bounded);
    })
    | inr fresh ↦ rw fresh (record {
      distinct = insert-Distinct key _ c.entries v.distinct;
      named =
          NoEmptyKey-insert key _ c.entries (NoEmptyKey-lookup key e c.entries v.named h) v.named;
      bounded = rw (length-insert key _ c.entries, has, h) v.bounded;
    })
  ]

  delete_where-IsValid :
      (p : String → CacheEntry D → Bool) (c : QueryCache D)
      → IsValid c
      → IsValid (record c { entries = delete_where p c.entries })
  delete_where-IsValid p c v = record {
    distinct = delete_where-Distinct p c.entries v.distinct;
    named = NoEmptyKey-delete_where p c.entries v.named;
    bounded = omega (arith, length-delete_where-le p c.entries, v.bounded);
  }

  -- a call that writes names its entry
  abbrev pub IsNamed : Call D → Type 0
  IsNamed (set_call key value) = key ≢ ""
  IsNamed (set_with_ttl_call key value ttl) = key ≢ ""
  IsNamed _ = Unit

  pub step-IsValid :
      (now : ℕ) (call : Call D) (c : QueryCache D)
      → IsNamed call
      → IsValid c
      → IsValid (step now call c)
  unfolding step get set remove clear invalidate_by_prefix invalidate_by_tool cleanup enable disable
  step-IsValid now (get_call key) c n v =
      if_elim (λ (r : QueryCache D × Option D). IsValid r.0) c.enabled
        (λ _. finish_get-IsValid now key (lookup key c.entries) c refl v) (λ _. v)
  step-IsValid now (set_call key value) c n v =
      set_with_ttl-IsValid now key value c.default_ttl c n v
  step-IsValid now (set_with_ttl_call key value ttl) c n v =
      set_with_ttl-IsValid now key value ttl c n v
  step-IsValid now (delete_call key) c n v = record {
    distinct = delete-Distinct key c.entries v.distinct;
    named = NoEmptyKey-delete key c.entries v.named;
    bounded = omega (arith, length-delete-le key c.entries, v.bounded);
  }
  step-IsValid now clear_call c n v = record { distinct = tt; named = tt; bounded = omega arith }
  step-IsValid now (invalidate_by_prefix_call prefix) c n v =
      delete_where-IsValid (λ key _. starts_with key prefix) c v
  step-IsValid now (invalidate_by_tool_call tool_name) c n v = record {
    distinct = tt;
    named = tt;
    bounded = omega arith;
  }
  step-IsValid now cleanup_call c n v =
      delete_where-IsValid (λ _ entry. ltb entry.expires_at now) c v
  step-IsValid now enable_call c n v = record {
    distinct = v.distinct;
    named = v.named;
    bounded = v.bounded;
  }
  step-IsValid now disable_call c n v = record {
    distinct = v.distinct;
    named = v.named;
    bounded = v.bounded;
  }

  -- From a valid cache, any sequence of calls whose writes name their entries, at any times, ends
  -- in a valid cache: no key twice, no empty key, and at most `MaxSize` entries (one at size 0).
  pub run-IsValid :
      (calls : List (ℕ × Call D)) (c : QueryCache D)
      → All (λ x. IsNamed x.1) calls
      → IsValid c
      → IsValid (run calls c)
  unfolding run
  run-IsValid [] c n v = v
  run-IsValid ((now, call) ∷ calls) c n v =
      run-IsValid calls (step now call c) n.1 (step-IsValid now call c n.0 v)
