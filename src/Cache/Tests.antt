-- ===== src/Cache/Tests.antt =====
-- Runs of the cache on small inputs, and the theorems at inputs that meet their hypotheses.
use kubectl_mcp.Prelude.{
  ℕ, ◌+◌, ◌≤◌, String, true, none, some, List, [], ◌∷◌, ◌≡◌, ◌≢◌, refl, arith, length, str_eq_iff,
  string_eq,
}
use kubectl_mcp.GoMap.{lookup, has, insert, delete, delete_where}
use kubectl_mcp.Cache.{
  CacheEntry, QueryCache, CacheConfig, new_query_cache, get, set, set_with_ttl, make_room,
  evict_oldest, stats,
}
use kubectl_mcp.Cache.Calls.{Call, step, run, set_call, get_call}
use kubectl_mcp.Cache.Invariant.{IsValid, new_query_cache-IsValid, run-IsValid}
use kubectl_mcp.Cache.Reads.{length-set_with_ttl_present}
use kubectl_mcp.Cache.History.{ideal_run, ideal_of, get-run}

program : Unit {0}
unfolding lookup has insert delete delete_where new_query_cache get set step run evict_oldest
    make_room stats
program = tt

abbrev config : CacheConfig
config = record { enabled = true; default_ttl = 10; max_size = 2 }

abbrev entry_at : ℕ → ℕ → CacheEntry ℕ
entry_at value now = record {
  value = value;
  created_at = now;
  expires_at = now + 10;
  hit_count = 0;
}

-- two entries in a cache of size two
abbrev full : QueryCache ℕ
full = record {
  entries = ("a", entry_at 1 5) ∷ ("b", entry_at 2 3) ∷ [];
  default_ttl = 10;
  max_size = 2;
  enabled = true;
  hits = 0;
  misses = 0;
}

-- the entry created first goes, wherever it stands
evicts_b : (set 6 "c" 3 full).entries ≡ ("a", entry_at 1 5) ∷ ("c", entry_at 3 6) ∷ []
unfolding program
evicts_b = refl

abbrev calls : List (ℕ × Call ℕ)
calls = (1, set_call "a" 1) ∷ (2, set_call "b" 2) ∷ (3, get_call "a") ∷ (4, set_call "c" 3) ∷ []

-- the hit on "a" does not save it
first_in_first_out : (get 5 "a" (run calls (new_query_cache (some config)))).1 ≡ none
unfolding program
first_in_first_out = refl

served : (get 5 "c" (run calls (new_query_cache (some config)))).1 ≡ some 3
unfolding program
served = refl

a_named : ◌≢◌ {A = String} "a" ""
a_named = ground (arith, str_eq_iff "a" "")

b_named : ◌≢◌ {A = String} "b" ""
b_named = ground (arith, str_eq_iff "b" "")

c_named : ◌≢◌ {A = String} "c" ""
c_named = ground (arith, str_eq_iff "c" "")

full-IsValid : IsValid full
unfolding lookup
full-IsValid = record {
  distinct = (refl, (refl, tt));
  named = (a_named, (b_named, tt));
  bounded = omega arith;
}

run-IsValid_example : IsValid (run calls (new_query_cache (some config)))
run-IsValid_example =
    run-IsValid calls (new_query_cache (some config)) (a_named, (b_named, (tt, (c_named, tt))))
      (new_query_cache-IsValid (some config))

get-run_example :
    (expires : ℕ) × ((ideal_run calls (ideal_of (new_query_cache (some config)))).writes "c"
      ≡ some (3, expires))
    × (5 ≤ expires)
    × ((ideal_run calls (ideal_of (new_query_cache {D = ℕ} (some config)))).enabled ≡ true)
get-run_example =
    get-run (some config) calls 5 "c" 3 (a_named, (b_named, (tt, (c_named, tt)))) served

-- "a" is written again and "b" is lost
length-set_with_ttl_present_example :
    length (set_with_ttl 6 "a" 9 10 full).entries + 1 ≡ length full.entries
unfolding program
length-set_with_ttl_present_example =
    length-set_with_ttl_present 6 "a" 9 10 full full-IsValid refl (omega arith) refl
