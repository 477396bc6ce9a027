-- ===== src/Http/ToolCall/Outcomes.antt =====
-- The two ways in which `handleToolCall` answers.
use kubectl_mcp.Prelude.{
  ℕ, String, Option, none, some, ◌∷◌, ◌≡◌, ◌⊎◌, inl, inr, refl, arith, if_elim, string_eq,
}
use kubectl_mcp.Registry.{Args}
use kubectl_mcp.Mcp.{ToolCallRequest, ToolResult, ToolCallResponse}
use kubectl_mcp.Mcp.Request.{get_tool_name}
use kubectl_mcp.Mcp.Handler.{ServerState, McpHandler, Clock, target_context, handle_tool_call}
use kubectl_mcp.Http.Tables.{is_cacheable}
use kubectl_mcp.Http.ToolCall.{
  Headers, CachedToolCallResult, HttpState, HttpResponse, bind_headers, cached_response,
  check_cache, status_code, tool_call_cache_key, after_call, call_and_cache, answer_cached,
  handle_bound, http_tool_call, cache_miss,
}
use kubectl_mcp.Http.ToolCall.Genuine.{IsResult, Genuine, check_cache-IsResult}

module _ {W K D C R : Type 0} (digest : String → Args → String → Option String)
    (marshal : ToolResult R → Option String) (h : McpHandler (ServerState W K D C) R) where
  -- the answer from the cache
  pub Replayed :
      ToolCallRequest → HttpState W K D C R → HttpState W K D C R → HttpResponse R → Type 0
  Replayed req s s' answer =
      (r : CachedToolCallResult R) × IsResult digest marshal h
        (tool_call_cache_key digest marshal h req s.server) r
      × (answer.status ≡ 200)
      × (answer.body ≡ cached_response r req.request_id (target_context req s.server.manager))
      × (s'.server ≡ s.server)
      × (s'.log ≡ s.log)

  -- the answer of the handler
  pub Called :
      Clock → ToolCallRequest → HttpState W K D C R → HttpState W K D C R → HttpResponse R → Type 0
  Called clock req s s' answer =
      ((handle_tool_call marshal clock h (some req) s.server s.log).response ≡ some answer.body)
      × (answer.status ≡ status_code answer.body)
      × (s'.server ≡ (handle_tool_call marshal clock h (some req) s.server s.log).state)
      × (s'.log ≡ (handle_tool_call marshal clock h (some req) s.server s.log).log)

  after_call-Called :
      (clock : Clock) (key : String) (req : ToolCallRequest) (s : HttpState W K D C R)
      (o : Option (ToolCallResponse R)) (answer : HttpResponse R)
      → (handle_tool_call marshal clock h (some req) s.server s.log).response ≡ o
      → (after_call digest marshal h clock key
          (get_tool_name req)
          s
          (handle_tool_call marshal clock h (some req) s.server s.log)
          o).1
        ≡ some answer
      → Called clock req s
          (after_call digest marshal h clock key
            (get_tool_name req)
            s
            (handle_tool_call marshal clock h (some req) s.server s.log)
            o).0
          answer
  unfolding after_call Called
  after_call-Called clock key req s none answer e f = ground arith
  after_call-Called clock key req s (some response) answer e f =
      let b : response ≡ answer.body = ground arith in
      let c : status_code response ≡ answer.status = ground arith in
      (ground arith, ground arith, refl, refl)

  answer_cached-answer :
      (clock : Clock) (req : ToolCallRequest) (s : HttpState W K D C R)
      (o : Option (CachedToolCallResult R)) (answer : HttpResponse R)
      → ((r : CachedToolCallResult R)
          → o ≡ some r
          → IsResult digest marshal h (tool_call_cache_key digest marshal h req s.server) r)
      → (answer_cached digest marshal h clock
          (tool_call_cache_key digest marshal h req s.server)
          req
          s
          o).1
        ≡ some answer
      → Replayed req s
          (answer_cached digest marshal h clock
            (tool_call_cache_key digest marshal h req s.server)
            req
            s
            o).0
          answer
        ⊎ Called clock req s
            (answer_cached digest marshal h clock
              (tool_call_cache_key digest marshal h req s.server)
              req
              s
              o).0
            answer
  unfolding answer_cached call_and_cache Replayed Called
  answer_cached-answer clock req s (some r) answer q f =
      inl (r, q r refl, ground arith, ground arith, refl, refl)
  answer_cached-answer clock req s none answer q f = inr (
      after_call-Called clock (tool_call_cache_key digest marshal h req s.server) req
        (record s { metrics = cache_miss ∷ s.metrics })
        (handle_tool_call marshal clock h (some req) s.server s.log).response answer refl f)

  handle_bound-answer :
      (read_at : ℕ) (clock : Clock) (req : ToolCallRequest) (s : HttpState W K D C R)
      (answer : HttpResponse R)
      → Genuine digest marshal h s.query_cache
      → (handle_bound digest marshal h read_at clock req s).1 ≡ some answer
      → Replayed req s (handle_bound digest marshal h read_at clock req s).0 answer
        ⊎ Called clock req s (handle_bound digest marshal h read_at clock req s).0 answer
  unfolding handle_bound call_and_cache Replayed Called
  handle_bound-answer read_at clock req s answer g =
      let key = tool_call_cache_key digest marshal h req s.server in
      if_elim
        (λ (x : HttpState W K D C R × Option (HttpResponse R)).
          x.1 ≡ some answer → Replayed req s x.0 answer ⊎ Called clock req s x.0 answer)
        (is_cacheable (get_tool_name req))
        (λ _ f.
          answer_cached-answer clock req
            (record s { query_cache = (check_cache read_at key s.query_cache).0 })
            (check_cache read_at key s.query_cache).1 answer
            (λ r e. check_cache-IsResult digest marshal h read_at key s.query_cache r g e) f)
        (λ _ f. inr (
          after_call-Called clock key req s
            (handle_tool_call marshal clock h (some req) s.server s.log).response answer refl f))

  -- An answer to `POST /tool`, from a genuine cache, is one of two. It may be a replay: the data of
  -- a call of a cacheable tool with the same key that has succeeded, under the id and the context of
  -- this request, and the server and the log are as they were. Or it is the response of
  -- `HandleToolCall` to the request, with the status of its error, and the server and the log are as
  -- that call leaves them.
  pub http_tool_call-answer :
      (read_at : ℕ) (clock : Clock) (headers : Headers) (req : ToolCallRequest)
      (s : HttpState W K D C R) (answer : HttpResponse R)
      → Genuine digest marshal h s.query_cache
      → (http_tool_call digest marshal h read_at clock headers req s).1 ≡ some answer
      → Replayed
          (bind_headers headers req)
          s
          (http_tool_call digest marshal h read_at clock headers req s).0
          answer
        ⊎ Called clock
            (bind_headers headers req)
            s
            (http_tool_call digest marshal h read_at clock headers req s).0
            answer
  unfolding http_tool_call
  http_tool_call-answer read_at clock headers req s answer g f =
      handle_bound-answer read_at clock (bind_headers headers req) s answer g f
