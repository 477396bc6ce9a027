-- ===== src/Cache/Evict.antt =====
-- `evictOldest` takes out an entry that no other entry is older than.
use kubectl_mcp.Prelude.{
  ℕ, ◌+◌, ◌≤◌, ◌<◌, String, none, some, [], ◌∷◌, ◌≡◌, ◌≢◌, ◌⊎◌, refl, arith, ltb, str_eq,
  str_eq_iff, string_eq, length, if◌then◌else◌, Bool-cases, inl, inr,
}
use kubectl_mcp.GoMap.{GoMap, lookup, has, delete, Distinct}
use kubectl_mcp.GoMap.Laws.{length-delete}
use kubectl_mcp.Cache.{CacheEntry, QueryCache, oldest_from, evict_oldest}

module _ {ℓ} {D : Type ℓ} where
  -- no entry under the empty key, which `evictOldest` reads as "none found yet"
  abbrev pub NoEmptyKey : GoMap String (CacheEntry D) → Type 0
  NoEmptyKey [] = Unit
  NoEmptyKey ((k, entry) ∷ m) = (k ≢ "") × NoEmptyKey m

  -- no entry is older than `t`
  abbrev pub NoneOlder : ℕ → GoMap String (CacheEntry D) → Type 0
  NoneOlder t [] = Unit
  NoneOlder t ((k, entry) ∷ m) = (t ≤ entry.created_at) × NoneOlder t m

  NoneOlder-le : (s t : ℕ) (m : GoMap String (CacheEntry D)) → s ≤ t → NoneOlder t m → NoneOlder s m
  NoneOlder-le s t [] h n = tt
  NoneOlder-le s t ((k, entry) ∷ m) h n = (omega arith, NoneOlder-le s t m h n.1)

  lookup_past :
      (j k : String) (e f : CacheEntry D) (m : GoMap String (CacheEntry D))
      → lookup k m ≡ none
      → lookup j m ≡ some f
      → lookup j ((k, e) ∷ m) ≡ some f
  unfolding lookup
  lookup_past j k e f m absent found = ground (arith, str_eq_iff k j)

  lookup_here :
      (k : String) (e : CacheEntry D) (m : GoMap String (CacheEntry D))
      → lookup k ((k, e) ∷ m) ≡ some e
  unfolding lookup
  lookup_here k e m = ground (arith, str_eq_iff k k)

  -- an entry of `m` under the key `k`, as old as `t` or older, and none is older than it
  pub record IsOldest (t : ℕ) (k : String) (m : GoMap String (CacheEntry D)) : Type ℓ where
    pub entry : CacheEntry D
    pub found : lookup k m ≡ some entry
    pub older : entry.created_at ≤ t
    pub none_older : NoneOlder entry.created_at m

  -- the test of the loop, once a key is found
  oldest_from-step :
      (k j : String) (t : ℕ) (e : CacheEntry D) (m : GoMap String (CacheEntry D))
      → k ≢ ""
      → oldest_from k t ((j, e) ∷ m)
        ≡ (if ltb e.created_at t then oldest_from j e.created_at m else oldest_from k t m)
  unfolding oldest_from
  oldest_from-step k j t e m named = ground (arith, str_eq_iff k "")

  IsOldest-cons :
      (j k : String) (s t : ℕ) (e : CacheEntry D) (m : GoMap String (CacheEntry D))
      → lookup j m ≡ none
      → s ≤ t
      → s ≤ e.created_at
      → IsOldest s k m
      → IsOldest t k ((j, e) ∷ m)
  IsOldest-cons j k s t e m absent le_t le_e o = record {
    entry = o.entry;
    found = lookup_past k j e o.entry m absent o.found;
    older = omega (arith, o.older);
    none_older = (omega (arith, o.older), o.none_older);
  }

  oldest_from-cases :
      (k : String) (t : ℕ) (m : GoMap String (CacheEntry D))
      → k ≢ ""
      → NoEmptyKey m
      → Distinct m
      → ((oldest_from k t m ≡ k) × NoneOlder t m) ⊎ IsOldest t (oldest_from k t m) m
  unfolding oldest_from
  oldest_from-cases k t [] named ne d = inl (refl, tt)
  oldest_from-cases k t ((j, e) ∷ m) named ne d = elim (Bool-cases (ltb e.created_at t)) [
    | inl older ↦
        rw (oldest_from-step k j t e m named, older)
          (elim (oldest_from-cases j e.created_at m ne.0 ne.1 d.1) [
            | inl (same, n) ↦ inr (record {
              entry = e;
              found = rw same (lookup_here j e m);
              older = ground arith;
              none_older = (omega arith, n);
            })
            | inr o ↦ inr (IsOldest-cons j _ e.created_at t e m d.0 (ground arith) (omega arith) o)
          ])
    | inr newer ↦
        rw (oldest_from-step k j t e m named, newer)
          (elim (oldest_from-cases k t m named ne.1 d.1) [
            | inl (same, n) ↦ inl (same, (ground arith, n))
            | inr o ↦ inr (IsOldest-cons j _ t t e m d.0 (omega arith) (ground arith) o)
          ])
  ]

  -- the scan from the start finds an oldest entry, if there is any
  oldest_from-IsOldest :
      (m : GoMap String (CacheEntry D))
      → Distinct m
      → NoEmptyKey m
      → 0 < length m
      → (t : ℕ) × IsOldest t (oldest_from "" 0 m) m
  unfolding oldest_from
  oldest_from-IsOldest [] d ne h = absurd (omega arith)
  oldest_from-IsOldest ((j, e) ∷ m) d ne h =
      elim (oldest_from-cases j e.created_at m ne.0 ne.1 d.1) [
        | inl (same, n) ↦ (
          e.created_at,
          record {
            entry = e;
            found = rw same (lookup_here j e m);
            older = omega arith;
            none_older = (omega arith, n);
          },
        )
        | inr o ↦ (
          e.created_at,
          IsOldest-cons j _ e.created_at e.created_at e m d.0 (omega arith) (omega arith) o,
        )
      ]

  pub NoEmptyKey-lookup :
      (k : String) (e : CacheEntry D) (m : GoMap String (CacheEntry D))
      → NoEmptyKey m
      → lookup k m ≡ some e
      → k ≢ ""
  unfolding lookup
  NoEmptyKey-lookup k e [] ne h = cc
  NoEmptyKey-lookup k e ((j, f) ∷ m) ne h = elim (Bool-cases (str_eq j k)) [
    | inl same ↦ rw (← (str_eq_iff j k).0 same) ne.0
    | inr other ↦ NoEmptyKey-lookup k e m ne.1 (ground arith)
  ]

  -- In a cache with an entry, all under names that are not empty, `evictOldest` takes out exactly
  -- one entry, and no entry of the cache was created before it.
  pub evict_oldest-oldest :
      (c : QueryCache D)
      → Distinct c.entries
      → NoEmptyKey c.entries
      → 0 < length c.entries
      → (k : String) × (e : CacheEntry D) × (lookup k c.entries ≡ some e)
        × NoneOlder e.created_at c.entries
        × (evict_oldest c ≡ record c { entries = delete k c.entries })
        × (length (evict_oldest c).entries + 1 ≡ length c.entries)
  unfolding evict_oldest has
  evict_oldest-oldest c d ne h =
      let m = c.entries in
      let k = oldest_from "" 0 m in
      let (t, o) = oldest_from-IsOldest m d ne h in
      let named = NoEmptyKey-lookup k o.entry m ne o.found in
      (
        k,
        o.entry,
        o.found,
        o.none_older,
        ground (arith, str_eq_iff k ""),
        ground (arith, str_eq_iff k "", length-delete k m d, o.found),
      )
