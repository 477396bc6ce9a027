-- ===== src/Cache/History.antt =====
-- The cache against an ideal store that evicts nothing, never expires an entry, and remembers only
-- the last write to each key.
use text.Mathlib.Text.{starts_with}
use mathlib.Core.Path.{subst}
use kubectl_mcp.Prelude.{
  ℕ, ◌+◌, ◌≤◌, String, Bool, true, false, Option, none, some, List, [], ◌∷◌, ◌≡◌, refl,
  Option-cases, arith, ltb, str_eq, str_eq_iff, string_eq, All, if◌then◌else◌, if_elim,
  if_elim_both, leb, length, inl, inr,
}
use kubectl_mcp.GoMap.{lookup, delete}
use kubectl_mcp.GoMap.Laws.{lookup-insert, lookup-delete, lookup-delete_where}
use kubectl_mcp.Cache.{
  CacheEntry, QueryCache, CacheConfig, new_query_cache, get, make_room, set_with_ttl, set, remove,
  clear, invalidate_by_prefix, invalidate_by_tool, cleanup, enable, disable, finish_get, is_expired,
  evict_oldest, inc64,
}
use kubectl_mcp.Cache.Calls.{
  Call, step, run, get_call, set_call, set_with_ttl_call, delete_call, clear_call,
  invalidate_by_prefix_call, invalidate_by_tool_call, cleanup_call, enable_call, disable_call,
}
use kubectl_mcp.Cache.Invariant.{
  IsValid, IsNamed, step-IsValid, new_query_cache-IsValid, evict_oldest-cases,
}

pub record Ideal {ℓ} (D : Type ℓ) : Type ℓ where
  pub enabled : Bool
  pub default_ttl : ℕ
  -- the value last written to a key, if it was not removed since, and when it expires
  pub writes : String → Option (D × ℕ)

module _ {ℓ} {D : Type ℓ} where
  write : String → D → ℕ → Ideal D → Ideal D
  write key value expires s =
      if s.enabled
      then record s { writes = λ k. if str_eq key k then some (value, expires) else s.writes k }
      else s

  unfoldable pub ideal_step : ℕ → Call D → Ideal D → Ideal D
  unfolding write
  ideal_step now (set_call key value) s = write key value (now + s.default_ttl) s
  ideal_step now (set_with_ttl_call key value ttl) s = write key value (now + ttl) s
  ideal_step now (delete_call key) s = record s {
    writes = λ k. if str_eq key k then none else s.writes k;
  }
  ideal_step now (invalidate_by_prefix_call prefix) s = record s {
    writes = λ k. if starts_with k prefix then none else s.writes k;
  }
  ideal_step now clear_call s = record s { writes = λ k. none }
  ideal_step now (invalidate_by_tool_call tool_name) s = record s { writes = λ k. none }
  ideal_step now enable_call s = record s { enabled = true }
  ideal_step now disable_call s = record s { enabled = false }
  ideal_step now (get_call key) s = s
  ideal_step now cleanup_call s = s

  unfoldable pub ideal_run : List (ℕ × Call D) → Ideal D → Ideal D
  ideal_run [] s = s
  ideal_run ((now, call) ∷ calls) s = ideal_run calls (ideal_step now call s)

  -- every entry of the cache is the last write to its key
  pub record Refines (c : QueryCache D) (s : Ideal D) : Type ℓ where
    pub same_enabled : c.enabled ≡ s.enabled
    pub same_ttl : c.default_ttl ≡ s.default_ttl
    pub last_write :
        (k : String) (e : CacheEntry D)
        → lookup k c.entries ≡ some e
        → s.writes k ≡ some (e.value, e.expires_at)

  Refines-delete :
      (key : String) (c : QueryCache D) (s : Ideal D)
      → Refines c s
      → Refines (record c { entries = delete key c.entries }) s
  Refines-delete key c s r = record {
    same_enabled = r.same_enabled;
    same_ttl = r.same_ttl;
    last_write = λ k e found. ground (arith, lookup-delete key k c.entries, r.last_write k e);
  }

  make_room-Refines : (c : QueryCache D) (s : Ideal D) → Refines c s → Refines (make_room c) s
  unfolding make_room
  make_room-Refines c s r =
      if_elim (λ (x : QueryCache D). Refines x s) (leb c.max_size (length c.entries))
        {x = evict_oldest c}
        (λ _. elim (evict_oldest-cases c) [
          | inl same ↦ rw same r
          | inr (k, gone) ↦ rw gone (Refines-delete k c s r)
        ])
        (λ _. r)

  set_with_ttl-Refines :
      (now : ℕ) (key : String) (value : D) (ttl : ℕ) (c : QueryCache D) (s : Ideal D)
      → Refines c s
      → Refines (set_with_ttl now key value ttl c) (write key value (now + ttl) s)
  unfolding set_with_ttl write
  set_with_ttl-Refines now key value ttl c s r =
      let entry : CacheEntry D = record {
        value = value;
        created_at = now;
        expires_at = now + ttl;
        hit_count = 0;
      } in
      let room = make_room-Refines c s r in
      if_elim_both Refines c.enabled s.enabled r.same_enabled
        (record {
          same_enabled = room.same_enabled;
          same_ttl = room.same_ttl;
          last_write = λ k e found.
              ground (arith, lookup-insert key k entry (make_room c).entries, room.last_write k e);
        })
        r

  finish_get-Refines :
      (now : ℕ) (key : String) (o : Option (CacheEntry D)) (c : QueryCache D) (s : Ideal D)
      → lookup key c.entries ≡ o
      → Refines c s
      → Refines (finish_get now key o c).0 s
  unfolding finish_get
  finish_get-Refines now key none c s h r = record {
    same_enabled = r.same_enabled;
    same_ttl = r.same_ttl;
    last_write = r.last_write;
  }
  finish_get-Refines now key (some e) c s h r =
      if_elim (λ (x : QueryCache D × Option D). Refines x.0 s) (is_expired now e)
        (λ _. record {
          same_enabled = r.same_enabled;
          same_ttl = r.same_ttl;
          last_write = λ k f found. ground (arith, lookup-delete key k c.entries, r.last_write k f);
        })
        (λ _. record {
          same_enabled = r.same_enabled;
          same_ttl = r.same_ttl;
          last_write = λ k f found. ground (
            arith,
            lookup-insert key k (record e { hit_count = inc64 e.hit_count }) c.entries,
            r.last_write k f,
            r.last_write key e,
            str_eq_iff key k,
          );
        })

  step-Refines :
      (now : ℕ) (call : Call D) (c : QueryCache D) (s : Ideal D)
      → IsValid c
      → Refines c s
      → Refines (step now call c) (ideal_step now call s)
  unfolding step ideal_step get set remove clear invalidate_by_prefix invalidate_by_tool cleanup
      enable disable lookup
  step-Refines now (get_call key) c s v r =
      if_elim (λ (x : QueryCache D × Option D). Refines x.0 s) c.enabled
        (λ _. finish_get-Refines now key (lookup key c.entries) c s refl r) (λ _. r)
  step-Refines now (set_call key value) c s v r =
      subst
        (λ ttl.
          Refines (set_with_ttl now key value c.default_ttl c) (write key value (now + ttl) s))
        r.same_ttl (set_with_ttl-Refines now key value c.default_ttl c s r)
  step-Refines now (set_with_ttl_call key value ttl) c s v r =
      set_with_ttl-Refines now key value ttl c s r
  step-Refines now (delete_call key) c s v r = record {
    same_enabled = r.same_enabled;
    same_ttl = r.same_ttl;
    last_write = λ k e found. ground (arith, lookup-delete key k c.entries, r.last_write k e);
  }
  step-Refines now clear_call c s v r = record {
    same_enabled = r.same_enabled;
    same_ttl = r.same_ttl;
    last_write = λ k e found. ground arith;
  }
  step-Refines now (invalidate_by_prefix_call prefix) c s v r = record {
    same_enabled = r.same_enabled;
    same_ttl = r.same_ttl;
    last_write = λ k e found. ground (
      arith,
      lookup-delete_where (λ key _. starts_with key prefix) k c.entries v.distinct,
      r.last_write k e,
    );
  }
  step-Refines now (invalidate_by_tool_call tool_name) c s v r = record {
    same_enabled = r.same_enabled;
    same_ttl = r.same_ttl;
    last_write = λ k e found. ground arith;
  }
  step-Refines now cleanup_call c s v r = record {
    same_enabled = r.same_enabled;
    same_ttl = r.same_ttl;
    last_write = λ k e found. ground (
      arith,
      lookup-delete_where (λ _ entry. ltb entry.expires_at now) k c.entries v.distinct,
      r.last_write k e,
    );
  }
  step-Refines now enable_call c s v r = record {
    same_enabled = refl;
    same_ttl = r.same_ttl;
    last_write = r.last_write;
  }
  step-Refines now disable_call c s v r = record {
    same_enabled = refl;
    same_ttl = r.same_ttl;
    last_write = r.last_write;
  }

  run-Refines :
      (calls : List (ℕ × Call D)) (c : QueryCache D) (s : Ideal D)
      → All (λ x. IsNamed x.1) calls
      → IsValid c
      → Refines c s
      → Refines (run calls c) (ideal_run calls s)
  unfolding run ideal_run
  run-Refines [] c s n v r = r
  run-Refines ((now, call) ∷ calls) c s n v r =
      run-Refines calls (step now call c) (ideal_step now call s) n.1
        (step-IsValid now call c n.0 v) (step-Refines now call c s v r)

  -- what a `Get` returns is a write that the ideal store remembers
  get-Refines :
      (now : ℕ) (key : String) (value : D) (c : QueryCache D) (s : Ideal D)
      → Refines c s
      → (get now key c).1 ≡ some value
      → (expires : ℕ) × (s.writes key ≡ some (value, expires))
        × (now ≤ expires)
        × (s.enabled ≡ true)
  unfolding get finish_get is_expired
  get-Refines now key value c s r h = elim (Option-cases (lookup key c.entries)) [
    | inl absent ↦ absurd (ground arith)
    | inr (e, found) ↦ (
      e.expires_at,
      ground (arith, r.last_write key e),
      ground arith,
      ground (arith, r.same_enabled),
    )
  ]

  -- the state of the ideal store that a new cache refines
  abbrev pub ideal_of : QueryCache D → Ideal D
  ideal_of c = record { enabled = c.enabled; default_ttl = c.default_ttl; writes = λ k. none }

  -- Whatever calls a new cache has served, at whatever times, if their writes name their entries:
  -- a value that a `Get` returns is the one last written to the key, not removed or cleared since,
  -- and it has not expired. A disabled cache returns nothing.
  pub get-run :
      (config : Option CacheConfig) (calls : List (ℕ × Call D)) (now : ℕ) (key : String) (value : D)
      → All (λ x. IsNamed x.1) calls
      → (get now key (run calls (new_query_cache config))).1 ≡ some value
      → (expires : ℕ) × ((ideal_run calls (ideal_of (new_query_cache config))).writes key
          ≡ some (value, expires))
        × (now ≤ expires)
        × ((ideal_run calls (ideal_of (new_query_cache config))).enabled ≡ true)
  unfolding new_query_cache lookup
  get-run config calls now key value named h =
      let c : QueryCache D = new_query_cache config in
      get-Refines now key value (run calls c) (ideal_run calls (ideal_of c))
        (run-Refines calls c (ideal_of c) named (new_query_cache-IsValid config)
          (record { same_enabled = refl; same_ttl = refl; last_write = λ k e found. cc }))
        h
