-- ===== src/Http/ToolCall/Genuine.antt =====
-- The cache of `handleToolCall` holds results of successful calls, each under the key of its call.
use kubectl_mcp.Prelude.{
  ℕ, String, true, Option, none, some, List, [], ◌∷◌, ◌≡◌, refl, arith, if_elim, length, ◌==◌, ◌&&◌,
  ◌||◌, str_eq, string_eq,
}
use kubectl_mcp.Registry.{Args}
use kubectl_mcp.Cache
use kubectl_mcp.Cache.{QueryCache, CacheEntry, CacheConfig}
use kubectl_mcp.Cache.Values.{
  Holds, empty-Holds, get-Holds, get-value, set-Holds, remove-Holds, clear-Holds,
}
use kubectl_mcp.Mcp.{ToolCallRequest, ToolResult, ToolCallResponse}
use kubectl_mcp.Mcp.Request.{get_tool_name}
use kubectl_mcp.Mcp.Handler.{ServerState, McpHandler, Clock, AuditLog, handle_tool_call}
use kubectl_mcp.Http.Tables.{is_cacheable, get_invalidated_tools}
use kubectl_mcp.Http.ToolCall.{
  Headers, CachedToolCallResult, CacheData, tool_call_result, other_type, HttpState, HttpResponse,
  bind_headers, new_cached_tool_call_result, read_cached, check_cache, invalidate_all,
  invalidate_after, update_cache, tool_call_cache_key, after_call, call_and_cache, answer_cached,
  handle_bound, http_tool_call, cache_miss,
}

module _ {W K D C R : Type 0} (digest : String → Args → String → Option String)
    (marshal : ToolResult R → Option String) (h : McpHandler (ServerState W K D C) R) where
  -- a call of a cacheable tool that has this key, that has succeeded, and whose result this is
  pub record IsResult (key : String) (r : CachedToolCallResult R) : Type 0 where
    pub server : ServerState W K D C
    pub log : AuditLog
    pub clock : Clock
    pub req : ToolCallRequest
    pub response : ToolCallResponse R
    pub cacheable : is_cacheable (get_tool_name req) ≡ true
    pub keyed : tool_call_cache_key digest marshal h req server ≡ key
    pub called : (handle_tool_call marshal clock h (some req) server log).response ≡ some response
    pub succeeded : response.success ≡ true
    pub cached : new_cached_tool_call_result response ≡ r

  pub IsGenuine : String → CacheData R → Type 0
  IsGenuine key (tool_call_result r) = IsResult key r
  IsGenuine key other_type = Unit

  pub Genuine : QueryCache (CacheData R) → Type 0
  unfolding IsGenuine
  Genuine cache = Holds IsGenuine cache.entries

  -- the cache of a server that starts
  pub new-Genuine : (config : Option CacheConfig) → Genuine (Cache.new_query_cache config)
  unfolding Genuine Cache.new_query_cache
  new-Genuine config = empty-Holds IsGenuine

  read_cached-Genuine :
      (key : String) (cache : QueryCache (CacheData R)) (o : Option (CacheData R))
      → Genuine cache
      → Genuine (read_cached key cache o).0
  unfolding read_cached Genuine
  read_cached-Genuine key cache none g = g
  read_cached-Genuine key cache (some (tool_call_result r)) g = g
  read_cached-Genuine key cache (some other_type) g = remove-Holds IsGenuine key cache g

  read_cached-IsResult :
      (key : String) (cache : QueryCache (CacheData R)) (o : Option (CacheData R))
      (r : CachedToolCallResult R)
      → (read_cached key cache o).1 ≡ some r
      → o ≡ some (tool_call_result r)
  unfolding read_cached
  read_cached-IsResult key cache none r e = ground arith
  read_cached-IsResult key cache (some (tool_call_result q)) r e = ground arith
  read_cached-IsResult key cache (some other_type) r e = ground arith

  check_cache-Genuine :
      (now : ℕ) (key : String) (cache : QueryCache (CacheData R))
      → Genuine cache
      → Genuine (check_cache now key cache).0
  unfolding check_cache Genuine
  check_cache-Genuine now key cache g =
      read_cached-Genuine key (Cache.get now key cache).0 (Cache.get now key cache).1
        (get-Holds IsGenuine now key cache g)

  -- a result that is read is the result of a call with the key
  pub check_cache-IsResult :
      (now : ℕ) (key : String) (cache : QueryCache (CacheData R)) (r : CachedToolCallResult R)
      → Genuine cache
      → (check_cache now key cache).1 ≡ some r
      → IsResult key r
  unfolding check_cache Genuine IsGenuine
  check_cache-IsResult now key cache r g e =
      get-value IsGenuine now key cache (tool_call_result r) g
        (read_cached-IsResult key (Cache.get now key cache).0 (Cache.get now key cache).1 r e)

  invalidate_all-Genuine :
      (tools : List String) (cache : QueryCache (CacheData R))
      → Genuine cache
      → Genuine (invalidate_all tools cache)
  unfolding invalidate_all Genuine Cache.invalidate_by_tool Cache.clear
  invalidate_all-Genuine [] cache g = g
  invalidate_all-Genuine (tool ∷ tools) cache g =
      invalidate_all-Genuine tools (Cache.invalidate_by_tool tool cache)
        (clear-Holds IsGenuine cache)

  invalidate_after-Genuine :
      (tool_name : String) (cache : QueryCache (CacheData R))
      → Genuine cache
      → Genuine (invalidate_after tool_name cache)
  unfolding invalidate_after Genuine
  invalidate_after-Genuine tool_name cache g =
      if_elim Genuine
        (length (get_invalidated_tools tool_name) == 0
          && (str_eq tool_name "apply_yaml" || str_eq tool_name "patch_resource"))
        (λ _. clear-Holds IsGenuine cache)
        (λ _. invalidate_all-Genuine (get_invalidated_tools tool_name) cache g)

  set-Genuine :
      (now : ℕ) (key : String) (r : CachedToolCallResult R) (cache : QueryCache (CacheData R))
      → IsResult key r
      → Genuine cache
      → Genuine (Cache.set now key (tool_call_result r) cache)
  unfolding Genuine IsGenuine
  set-Genuine now key r cache q g = set-Holds IsGenuine now key (tool_call_result r) cache q g

  update_cache-Genuine :
      (now : ℕ) (key : String) (tool_name : String) (response : ToolCallResponse R)
      (cache : QueryCache (CacheData R))
      → (response.success ≡ true
          → is_cacheable tool_name ≡ true
          → IsResult key (new_cached_tool_call_result response))
      → Genuine cache
      → Genuine (update_cache now key tool_name response cache)
  unfolding update_cache
  update_cache-Genuine now key tool_name response cache q g =
      if_elim Genuine response.success
        (λ ok. invalidate_after-Genuine tool_name _ (
          if_elim Genuine (is_cacheable tool_name)
            (λ c. set-Genuine now key (new_cached_tool_call_result response) cache (q ok c) g)
            (λ _. g)))
        (λ _. g)

  after_call-Genuine :
      (clock : Clock) (req : ToolCallRequest) (s : HttpState W K D C R)
      (o : Option (ToolCallResponse R))
      → (handle_tool_call marshal clock h (some req) s.server s.log).response ≡ o
      → Genuine s.query_cache
      → Genuine
          (after_call digest marshal h clock
            (tool_call_cache_key digest marshal h req s.server)
            (get_tool_name req)
            s
            (handle_tool_call marshal clock h (some req) s.server s.log)
            o).0.query_cache
  unfolding after_call
  after_call-Genuine clock req s none e g = g
  after_call-Genuine clock req s (some response) e g =
      update_cache-Genuine clock.now (tool_call_cache_key digest marshal h req s.server)
        (get_tool_name req) response s.query_cache
        (λ ok c. record {
          server = s.server;
          log = s.log;
          clock = clock;
          req = req;
          response = response;
          cacheable = c;
          keyed = refl;
          called = e;
          succeeded = ok;
          cached = refl;
        })
        g

  answer_cached-Genuine :
      (clock : Clock) (req : ToolCallRequest) (s : HttpState W K D C R)
      (o : Option (CachedToolCallResult R))
      → Genuine s.query_cache
      → Genuine
          (answer_cached digest marshal h clock
            (tool_call_cache_key digest marshal h req s.server)
            req
            s
            o).0.query_cache
  unfolding answer_cached call_and_cache
  answer_cached-Genuine clock req s (some r) g = g
  answer_cached-Genuine clock req s none g =
      after_call-Genuine clock req (record s { metrics = cache_miss ∷ s.metrics })
        (handle_tool_call marshal clock h (some req) s.server s.log).response refl g

  handle_bound-Genuine :
      (read_at : ℕ) (clock : Clock) (req : ToolCallRequest) (s : HttpState W K D C R)
      → Genuine s.query_cache
      → Genuine (handle_bound digest marshal h read_at clock req s).0.query_cache
  unfolding handle_bound call_and_cache
  handle_bound-Genuine read_at clock req s g =
      let key = tool_call_cache_key digest marshal h req s.server in
      if_elim (λ (x : HttpState W K D C R × Option (HttpResponse R)). Genuine x.0.query_cache)
        (is_cacheable (get_tool_name req))
        (λ _.
          answer_cached-Genuine clock req
            (record s { query_cache = (check_cache read_at key s.query_cache).0 })
            (check_cache read_at key s.query_cache).1
            (check_cache-Genuine read_at key s.query_cache g))
        (λ _.
          after_call-Genuine clock req s
            (handle_tool_call marshal clock h (some req) s.server s.log).response refl g)

  -- A `POST /tool` keeps the cache genuine: if every result that it holds is that of a call of a
  -- cacheable tool which has succeeded and has the key of the entry, so is every one after.
  pub http_tool_call-Genuine :
      (read_at : ℕ) (clock : Clock) (headers : Headers) (req : ToolCallRequest)
      (s : HttpState W K D C R)
      → Genuine s.query_cache
      → Genuine (http_tool_call digest marshal h read_at clock headers req s).0.query_cache
  unfolding http_tool_call
  http_tool_call-Genuine read_at clock headers req s g =
      handle_bound-Genuine read_at clock (bind_headers headers req) s g
