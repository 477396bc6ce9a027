-- ===== src/Cache/Values.antt =====
-- A property of every value that the cache holds, and the calls that keep it.
use kubectl_mcp.Prelude.{
  ℕ, String, Bool-cases, Option, none, some, inl, inr, [], ◌≡◌, refl, arith, leb, str_eq,
  str_eq_iff, string_eq, if_elim, length,
}
use kubectl_mcp.GoMap.{GoMap, lookup, insert, delete}
use kubectl_mcp.GoMap.Laws.{lookup-insert, lookup-delete}
use kubectl_mcp.Cache.{
  CacheEntry, QueryCache, get, finish_get, set, set_with_ttl, make_room, evict_oldest, oldest_from,
  remove, clear, is_expired, inc64,
}

module _ {ℓ κ} {D : Type ℓ} (P : String → D → Type κ) where
  -- `P` of every key and its value
  pub Holds : GoMap String (CacheEntry D) → Type (ℓ ⊔ κ)
  Holds m = (key : String) (entry : CacheEntry D) → lookup key m ≡ some entry → P key entry.value

  pub empty-Holds : Holds []
  unfolding Holds lookup
  empty-Holds key entry found = ground arith

  delete-Holds : (key : String) (m : GoMap String (CacheEntry D)) → Holds m → Holds (delete key m)
  unfolding Holds
  delete-Holds key m h j entry found = h j entry (ground (arith, lookup-delete key j m))

  insert-Holds :
      (key : String) (entry : CacheEntry D) (m : GoMap String (CacheEntry D))
      → P key entry.value
      → Holds m
      → Holds (insert key entry m)
  unfolding Holds
  insert-Holds key entry m p h j other found = elim (Bool-cases (str_eq key j)) [
    | inl here ↦
        let e : key ≡ j = (str_eq_iff key j).0 here in
        let f : entry ≡ other = ground (arith, lookup-insert key j entry m) in rw (← e, ← f) p
    | inr past ↦ h j other (ground (arith, lookup-insert key j entry m))
  ]

  finish_get-Holds :
      (now : ℕ) (key : String) (o : Option (CacheEntry D)) (c : QueryCache D)
      → lookup key c.entries ≡ o
      → Holds c.entries
      → Holds (finish_get now key o c).0.entries
  unfolding finish_get Holds
  finish_get-Holds now key none c e h = h
  finish_get-Holds now key (some entry) c e h =
      if_elim (λ (x : QueryCache D × Option D). Holds x.0.entries) (is_expired now entry)
        (λ _. delete-Holds key c.entries h)
        (λ _.
          insert-Holds key (record entry { hit_count = inc64 entry.hit_count }) c.entries
            (h key entry e) h)

  pub get-Holds :
      (now : ℕ) (key : String) (c : QueryCache D)
      → Holds c.entries
      → Holds (get now key c).0.entries
  unfolding get
  get-Holds now key c h =
      if_elim (λ (x : QueryCache D × Option D). Holds x.0.entries) c.enabled
        (λ _. finish_get-Holds now key (lookup key c.entries) c refl h) (λ _. h)

  finish_get-value :
      (now : ℕ) (key : String) (o : Option (CacheEntry D)) (c : QueryCache D) (d : D)
      → lookup key c.entries ≡ o
      → Holds c.entries
      → (finish_get now key o c).1 ≡ some d
      → P key d
  unfolding finish_get Holds
  finish_get-value now key none c d e h found = ground arith
  finish_get-value now key (some entry) c d e h found =
      let f : entry.value ≡ d = ground arith in rw (← f) (h key entry e)

  -- a value that is read is one that was held
  pub get-value :
      (now : ℕ) (key : String) (c : QueryCache D) (d : D)
      → Holds c.entries
      → (get now key c).1 ≡ some d
      → P key d
  unfolding get
  get-value now key c d h found =
      finish_get-value now key (lookup key c.entries) c d refl h (ground arith)

  make_room-Holds : (c : QueryCache D) → Holds c.entries → Holds (make_room c).entries
  unfolding make_room evict_oldest
  make_room-Holds c h =
      if_elim (λ (x : QueryCache D). Holds x.entries) (leb c.max_size (length c.entries))
        (λ _.
          if_elim (λ (x : QueryCache D). Holds x.entries) (str_eq (oldest_from "" 0 c.entries) "")
            (λ _. h) (λ _. delete-Holds (oldest_from "" 0 c.entries) c.entries h))
        (λ _. h)

  pub set-Holds :
      (now : ℕ) (key : String) (value : D) (c : QueryCache D)
      → P key value
      → Holds c.entries
      → Holds (set now key value c).entries
  unfolding set set_with_ttl
  set-Holds now key value c p h =
      if_elim (λ (x : QueryCache D). Holds x.entries) c.enabled
        (λ _. insert-Holds key _ (make_room c).entries p (make_room-Holds c h)) (λ _. h)

  pub remove-Holds :
      (key : String) (c : QueryCache D) → Holds c.entries → Holds (remove key c).entries
  unfolding remove
  remove-Holds key c h = delete-Holds key c.entries h

  pub clear-Holds : (c : QueryCache D) → Holds (clear c).entries
  unfolding clear
  clear-Holds c = empty-Holds
