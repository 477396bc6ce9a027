-- ===== src/Cache/Calls.antt =====
-- The cache's methods as calls, and a sequence of calls at the times at which they are made.
use kubectl_mcp.Prelude.{ℕ, String, List, [], ◌∷◌, string_eq}
use kubectl_mcp.Cache.{
  QueryCache, get, set, set_with_ttl, remove, clear, invalidate_by_prefix, invalidate_by_tool,
  cleanup, enable, disable,
}

pub data Call {ℓ} (D : Type ℓ) : Type ℓ where
  get_call : String → Call D
  set_call : String → D → Call D
  set_with_ttl_call : String → D → ℕ → Call D
  delete_call : String → Call D
  clear_call : Call D
  invalidate_by_prefix_call : String → Call D
  invalidate_by_tool_call : String → Call D
  cleanup_call : Call D
  enable_call : Call D
  disable_call : Call D

module _ {ℓ} {D : Type ℓ} where
  -- what a call does to the cache
  unfoldable pub step : ℕ → Call D → QueryCache D → QueryCache D
  step now (get_call key) c = (get now key c).0
  step now (set_call key value) c = set now key value c
  step now (set_with_ttl_call key value ttl) c = set_with_ttl now key value ttl c
  step now (delete_call key) c = remove key c
  step now clear_call c = clear c
  step now (invalidate_by_prefix_call prefix) c = invalidate_by_prefix prefix c
  step now (invalidate_by_tool_call tool_name) c = invalidate_by_tool tool_name c
  step now cleanup_call c = cleanup now c
  step now enable_call c = enable c
  step now disable_call c = disable c

  unfoldable pub run : List (ℕ × Call D) → QueryCache D → QueryCache D
  run [] c = c
  run ((now, call) ∷ calls) c = run calls (step now call c)
