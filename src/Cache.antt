-- ===== src/Cache.antt =====
-- internal/server/cache.go: `QueryCache`. A method takes the time that `time.Now()` returns, in
-- nanoseconds, and returns the new state beside its result. The mutex makes each method one step, but for `Get`.
pub mod Calls
pub mod Evict
pub mod Invariant
pub mod Reads
pub mod History
pub mod Values
mod Tests
use text.Mathlib.Text.{starts_with}
use kubectl_mcp.Prelude.{
  ℕ, ◌+◌, ◌*◌, ◌%◌, ◌^◌, String, Bool, true, false, ◌||◌, Option, none, some, List, [], ◌∷◌, ltb,
  leb, if◌then◌else◌, str_eq, string_eq, length,
}
use kubectl_mcp.GoMap.{GoMap, lookup, insert, delete, delete_where}

pub record CacheEntry {ℓ} (D : Type ℓ) : Type ℓ where
  pub value : D
  pub created_at : ℕ
  pub expires_at : ℕ
  pub hit_count : ℕ

pub record QueryCache {ℓ} (D : Type ℓ) : Type ℓ where
  pub entries : GoMap String (CacheEntry D)
  pub default_ttl : ℕ
  pub max_size : ℕ
  pub enabled : Bool
  pub hits : ℕ
  pub misses : ℕ

pub record CacheConfig : Type 0 where
  pub enabled : Bool
  pub default_ttl : ℕ
  pub max_size : ℕ

pub record CacheStats : Type 0 where
  pub size : ℕ
  pub max_size : ℕ
  pub hits : ℕ
  pub misses : ℕ
  pub enabled : Bool

-- `n++` on an `int64`, as the bit pattern
abbrev pub inc64 : ℕ → ℕ
inc64 n = (n + 1) % 2 ^ 64

-- five minutes
abbrev pub default_config : CacheConfig
default_config = record { enabled = true; default_ttl = 300_000_000_000; max_size = 1000 }

-- `time.Now().After(e.ExpiresAt)`
unfoldable pub is_expired {ℓ} : {D : Type ℓ} → ℕ → CacheEntry D → Bool
is_expired now e = ltb e.expires_at now

config_or_default : Option CacheConfig → CacheConfig
config_or_default none = default_config
config_or_default (some config) = config

module _ {ℓ} {D : Type ℓ} where
  unfoldable pub new_query_cache : Option CacheConfig → QueryCache D
  unfolding config_or_default
  new_query_cache config =
      let cfg = config_or_default config in
      record {
        entries = [];
        default_ttl = cfg.default_ttl;
        max_size = cfg.max_size;
        enabled = cfg.enabled;
        hits = 0;
        misses = 0;
      }

  -- `Get` once the entry is read: a miss, an expired entry, or a hit
  finish_get : ℕ → String → Option (CacheEntry D) → QueryCache D → QueryCache D × Option D
  unfolding is_expired
  finish_get now key none c = (record c { misses = inc64 c.misses }, none)
  finish_get now key (some entry) c =
      if is_expired now entry
      then (record c { entries = delete key c.entries; misses = inc64 c.misses }, none)
      else (
        record c {
          entries = insert key (record entry { hit_count = inc64 entry.hit_count }) c.entries;
          hits = inc64 c.hits;
        },
        some entry.value,
      )

  -- `Get` reads the entry under one lock and deletes an expired one, or counts, under a second. This
  -- is a call of it during which no other goroutine gets between the two; `finish_get` takes the
  -- entry that was read and the cache as it is then.
  unfoldable pub get : ℕ → String → QueryCache D → QueryCache D × Option D
  unfolding finish_get
  get now key c = if c.enabled then finish_get now key (lookup key c.entries) c else (c, none)

  -- the loop of `evictOldest`, from the key and the time found so far
  oldest_from : String → ℕ → GoMap String (CacheEntry D) → String
  oldest_from oldest_key oldest_time [] = oldest_key
  oldest_from oldest_key oldest_time ((key, entry) ∷ m) =
      let newer = oldest_from oldest_key oldest_time m in
      let older = oldest_from key entry.created_at m in
      if str_eq oldest_key "" || ltb entry.created_at oldest_time then older else newer

  unfoldable pub evict_oldest : QueryCache D → QueryCache D
  unfolding oldest_from
  evict_oldest c =
      let oldest_key = oldest_from "" 0 c.entries in
      if str_eq oldest_key "" then c else record c { entries = delete oldest_key c.entries }

  -- the eviction that `SetWithTTL` makes before it writes
  unfoldable pub make_room : QueryCache D → QueryCache D
  make_room c = if leb c.max_size (length c.entries) then evict_oldest c else c

  unfoldable pub set_with_ttl : ℕ → String → D → ℕ → QueryCache D → QueryCache D
  set_with_ttl now key value ttl c =
      let entry : CacheEntry D = record {
        value = value;
        created_at = now;
        expires_at = now + ttl;
        hit_count = 0;
      } in
      let room = make_room c in
      if c.enabled then record room { entries = insert key entry room.entries } else c

  unfoldable pub set : ℕ → String → D → QueryCache D → QueryCache D
  unfolding set_with_ttl
  set now key value c = set_with_ttl now key value c.default_ttl c

  unfoldable pub remove : String → QueryCache D → QueryCache D
  remove key c = record c { entries = delete key c.entries }

  unfoldable pub clear : QueryCache D → QueryCache D
  clear c = record c { entries = [] }

  unfoldable pub invalidate_by_prefix : String → QueryCache D → QueryCache D
  invalidate_by_prefix prefix c = record c {
    entries = delete_where (λ key _. starts_with key prefix) c.entries;
  }

  -- the tool's name is not read: every entry goes
  unfoldable pub invalidate_by_tool : String → QueryCache D → QueryCache D
  invalidate_by_tool tool_name c = record c { entries = [] }

  unfoldable pub cleanup : ℕ → QueryCache D → QueryCache D
  cleanup now c = record c {
    entries = delete_where (λ _ entry. ltb entry.expires_at now) c.entries;
  }

  unfoldable pub enable : QueryCache D → QueryCache D
  enable c = record c { enabled = true }

  unfoldable pub disable : QueryCache D → QueryCache D
  disable c = record c { enabled = false }

  unfoldable pub size : QueryCache D → ℕ
  size c = length c.entries

  unfoldable pub stats : QueryCache D → CacheStats
  stats c = record {
    size = length c.entries;
    max_size = c.max_size;
    hits = c.hits;
    misses = c.misses;
    enabled = c.enabled;
  }
