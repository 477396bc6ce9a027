-- ===== src/Http/ToolCall.antt =====
-- `handleToolCall`, from the request that the body binds to. `digest` is the hexadecimal SHA-256 of
-- the JSON of a key's data, with `none` for data that has no JSON. What the handler tells the
-- metrics collector is a list of events, the last one first.
pub mod Genuine
pub mod Outcomes
pub mod Invalidation
use Prim.Native.String.{◌++◌}
use kubectl_mcp.Prelude.{
  ℕ, String, Bool, true, false, not, ◌&&◌, ◌||◌, Option, none, some, List, [], ◌∷◌, length, ◌==◌,
  str_eq, string_eq, if◌then◌else◌,
}
use kubectl_mcp.Registry.{Args}
use kubectl_mcp.Paging.{PaginationInfo}
use kubectl_mcp.Cache
use kubectl_mcp.Cache.{QueryCache}
use kubectl_mcp.Mcp.{
  UserInfo, ToolCallRequest, ErrorInfo, ContentItem, ToolResult, ToolCallResponse,
}
use kubectl_mcp.Mcp.Request.{get_tool_name, with_options}
use kubectl_mcp.Mcp.Handler.{
  ServerState, McpHandler, Clock, AuditLog, CallResult, target_context, handle_tool_call,
}
use kubectl_mcp.Http.Tables.{is_cacheable, get_invalidated_tools}

pub record Headers : Type 0 where
  pub user_id : String
  pub user_name : String
  pub user_role : String
  pub request_id : String

pub record CachedToolCallResult (R : Type 0) : Type 0 where
  pub result_data : ToolResult R
  pub content : List ContentItem
  pub pagination : Option PaginationInfo

-- what the cache holds: such a result, or a value of another type
pub data CacheData (R : Type 0) : Type 0 where
  tool_call_result : CachedToolCallResult R → CacheData R
  other_type : CacheData R

pub data MetricEvent : Type 0 where
  cache_hit : MetricEvent
  cache_miss : MetricEvent
  tool_call : String → Bool → ℕ → MetricEvent

pub record HttpState (W K D C R : Type 0) : Type 0 where
  pub server : ServerState W K D C
  pub log : AuditLog
  pub query_cache : QueryCache (CacheData R)
  pub metrics : List MetricEvent

pub record HttpResponse (R : Type 0) : Type 0 where
  pub status : ℕ
  pub body : ToolCallResponse R

header_user : Headers → Option UserInfo
header_user headers =
    if str_eq headers.user_id "" && str_eq headers.user_name ""
    then none
    else some (record { id = headers.user_id; name = headers.user_name; role = headers.user_role })

user_or_header : Headers → Option UserInfo → Option UserInfo
unfolding header_user
user_or_header headers none = header_user headers
user_or_header headers (some user) = some user

-- the user and the request's id, from the headers where the body has none
unfoldable pub bind_headers : Headers → ToolCallRequest → ToolCallRequest
unfolding user_or_header
bind_headers headers req = record req {
  user = user_or_header headers req.user;
  request_id = if str_eq req.request_id "" then headers.request_id else req.request_id;
}

key_or_plain : String → String → Option String → String
key_or_plain tool_name context none = tool_name ++ ":" ++ context
key_or_plain tool_name context (some hash) = hash

unfoldable pub generate_key :
    (String → Args → String → Option String) → String → Args → String → String
unfolding key_or_plain
generate_key digest tool_name args context =
    key_or_plain tool_name context (digest tool_name args context)

arguments_or_empty : Option Args → Args
arguments_or_empty none = []
arguments_or_empty (some args) = args

status_of_auth : String → ℕ
status_of_auth code = if str_eq code "UNAUTHORIZED" then 401 else 403

unfoldable pub get_http_status_from_error : Option ErrorInfo → ℕ
unfolding status_of_auth
get_http_status_from_error none = 500
get_http_status_from_error (some e) =
    if str_eq e.kind "CLIENT_ERROR"
    then 400
    else if str_eq e.kind "AUTH_ERROR"
    then status_of_auth e.code
    else if str_eq e.kind "NOT_FOUND"
    then 404
    else if str_eq e.kind "CONFLICT"
    then 409
    else if str_eq e.kind "TIMEOUT"
    then 504
    else if str_eq e.kind "NETWORK_ERROR"
    then 502
    else 500

-- a success is 200, and so is a failure that has no error
status_of_failure : Option ErrorInfo → ℕ
status_of_failure none = 200
status_of_failure (some e) = get_http_status_from_error (some e)

module _ {R : Type 0} where
  unfoldable pub new_cached_tool_call_result : ToolCallResponse R → CachedToolCallResult R
  new_cached_tool_call_result response = record {
    result_data = response.result_data;
    content = response.content;
    pagination = response.pagination;
  }

  unfoldable pub cached_response : CachedToolCallResult R → String → String → ToolCallResponse R
  cached_response r request_id context_name = record {
    success = true;
    result_data = r.result_data;
    content = r.content;
    error = none;
    request_id = request_id;
    duration = 0;
    context = context_name;
    pagination = r.pagination;
  }

  -- what a read has found: a result, or a miss, on which a value of another type is deleted
  read_cached :
      String
      → QueryCache (CacheData R)
      → Option (CacheData R)
      → QueryCache (CacheData R) × Option (CachedToolCallResult R)
  read_cached key cache (some (tool_call_result r)) = (cache, some r)
  read_cached key cache (some other_type) = (Cache.remove key cache, none)
  read_cached key cache none = (cache, none)

  unfoldable pub check_cache :
      ℕ
      → String
      → QueryCache (CacheData R)
      → QueryCache (CacheData R) × Option (CachedToolCallResult R)
  unfolding read_cached
  check_cache now key cache =
      let (cache', found) = Cache.get now key cache in read_cached key cache' found

  invalidate_all : List String → QueryCache (CacheData R) → QueryCache (CacheData R)
  invalidate_all [] cache = cache
  invalidate_all (tool ∷ tools) cache = invalidate_all tools (Cache.invalidate_by_tool tool cache)

  -- what follows a success of a tool that may have changed the cluster
  unfoldable pub invalidate_after : String → QueryCache (CacheData R) → QueryCache (CacheData R)
  unfolding invalidate_all
  invalidate_after tool_name cache =
      let tools = get_invalidated_tools tool_name in
      if length tools == 0 && (str_eq tool_name "apply_yaml" || str_eq tool_name "patch_resource")
      then Cache.clear cache
      else invalidate_all tools cache

  -- the two updates of the cache after a call
  unfoldable pub update_cache :
      ℕ → String → String → ToolCallResponse R → QueryCache (CacheData R) → QueryCache (CacheData R)
  update_cache now key tool_name response cache =
      if response.success
      then invalidate_after tool_name (
          if is_cacheable tool_name
          then Cache.set now key (tool_call_result (new_cached_tool_call_result response)) cache
          else cache)
      else cache

  unfoldable pub status_code : ToolCallResponse R → ℕ
  unfolding status_of_failure
  status_code response = if response.success then 200 else status_of_failure response.error

module _ {W K D C R : Type 0} (digest : String → Args → String → Option String)
    (marshal : ToolResult R → Option String) (h : McpHandler (ServerState W K D C) R) where
  unfoldable pub tool_call_cache_key : ToolCallRequest → ServerState W K D C → String
  unfolding arguments_or_empty
  tool_call_cache_key req s =
      generate_key digest (get_tool_name req) (with_options req (arguments_or_empty req.arguments))
        (target_context req s.manager)

  -- what follows the handler's call: a panic leaves the cache and the metrics alone
  after_call :
      Clock
      → String
      → String
      → HttpState W K D C R
      → CallResult (ServerState W K D C) R
      → Option (ToolCallResponse R)
      → HttpState W K D C R × Option (HttpResponse R)
  after_call clock key tool_name s result none =
      (record s { server = result.state; log = result.log }, none)
  after_call clock key tool_name s result (some response) = (
    record {
      server = result.state;
      log = result.log;
      query_cache = update_cache clock.now key tool_name response s.query_cache;
      metrics = tool_call tool_name response.success clock.duration ∷ s.metrics;
    },
    some (record { status = status_code response; body = response }),
  )

  unfoldable pub call_and_cache :
      Clock
      → String
      → ToolCallRequest
      → HttpState W K D C R
      → HttpState W K D C R × Option (HttpResponse R)
  unfolding after_call
  call_and_cache clock key req s =
      let result = handle_tool_call marshal clock h (some req) s.server s.log in
      after_call clock key (get_tool_name req) s result result.response

  answer_cached :
      Clock
      → String
      → ToolCallRequest
      → HttpState W K D C R
      → Option (CachedToolCallResult R)
      → HttpState W K D C R × Option (HttpResponse R)
  answer_cached clock key req s (some r) = (
    record s { metrics = cache_hit ∷ s.metrics },
    some (record {
      status = 200;
      body = cached_response r req.request_id (target_context req s.server.manager);
    }),
  )
  answer_cached clock key req s none =
      call_and_cache clock key req (record s { metrics = cache_miss ∷ s.metrics })

  -- the request with its headers; the cache is read at a time of its own
  handle_bound :
      ℕ
      → Clock
      → ToolCallRequest
      → HttpState W K D C R
      → HttpState W K D C R × Option (HttpResponse R)
  unfolding answer_cached
  handle_bound read_at clock req s =
      let key = tool_call_cache_key req s.server in
      let (cache, found) = check_cache read_at key s.query_cache in
      if is_cacheable (get_tool_name req)
      then answer_cached clock key req (record s { query_cache = cache }) found
      else call_and_cache clock key req s

  -- a `response` of `none` is a panic
  unfoldable pub http_tool_call :
      ℕ
      → Clock
      → Headers
      → ToolCallRequest
      → HttpState W K D C R
      → HttpState W K D C R × Option (HttpResponse R)
  unfolding handle_bound
  http_tool_call read_at clock headers req s =
      handle_bound read_at clock (bind_headers headers req) s
