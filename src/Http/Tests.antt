-- ===== src/Http/Tests.antt =====
-- The theorems of the HTTP server at inputs that meet their hypotheses.
use kubectl_mcp.Prelude.{
  ℕ, suc, String, true, false, Option, none, some, [], ◌∷◌, ◌≡◌, ◌≢◌, ◌⊎◌, refl, arith, string_eq,
}
use kubectl_mcp.GoMap.{lookup, has}
use kubectl_mcp.Registry.{Args}
use kubectl_mcp.Cache
use kubectl_mcp.Cache.{QueryCache}
use kubectl_mcp.K8s.{K8sClientManager}
use kubectl_mcp.Mcp.{ErrorInfo, ToolCallRequest, ToolResult, plain, ToolCallResponse}
use kubectl_mcp.Mcp.Request.{get_tool_name, validate_request}
use kubectl_mcp.Mcp.Handler.{
  ServerState, McpHandler, Clock, handle_tool_call, format_error_response, error_response,
}
use kubectl_mcp.Http.Tables.{is_cacheable, invalidating_tools}
use kubectl_mcp.Http.ToolCall.{
  Headers, HttpState, HttpResponse, bind_headers, http_tool_call, call_and_cache, status_code,
  get_http_status_from_error,
}
use kubectl_mcp.Http.ToolCall.Genuine.{Genuine, new-Genuine, http_tool_call-Genuine}
use kubectl_mcp.Http.ToolCall.Outcomes.{Replayed, Called, http_tool_call-answer}
use kubectl_mcp.Http.Middleware.{HttpRequest, ServerParts, serve, error_type}
use kubectl_mcp.RateLimit.Whole.{whole}
use kubectl_mcp.Prelude.Int.{pos}
use kubectl_mcp.Config.{ServerConfig}
use kubectl_mcp.RateLimit.Composite.{CompositeRateLimiter}
use kubectl_mcp.Http.Middleware.Permits.{Keeps, serve-Keeps}
use kubectl_mcp.Http.Middleware.Admission.{Served, serve-Served, tool_error-not_timeout}

abbrev manager : K8sClientManager String String String
manager = record {
  kubeconfig_path = "config";
  raw_config = record { contexts = []; clusters = []; current_context = "dev" };
  contexts =
      ("dev", record { name = "dev"; cluster = "c1"; user = "u1"; namespace = "default" }) ∷ [];
  current_ctx = "dev";
  client_pool = [];
  service_indexers = [];
}

-- a server with no tools
abbrev handler : McpHandler (ServerState ℕ String String String) String
handler = record { tool_registry = []; version = "1.0.0"; start_time = 0 }

abbrev marshal : ToolResult String → Option String
marshal r = some "json"

abbrev digest : String → Args → String → Option String
digest tool args context = some tool

abbrev clock : Clock
clock = record { now = 10; duration = 2_000_000 }

abbrev headers : Headers
headers = record { user_id = "u1"; user_name = "Ann"; user_role = ""; request_id = "r1" }

abbrev request : ToolCallRequest
request = record {
  tool = "delete_resources";
  name = "";
  arguments = some [];
  user = none;
  context = "";
  request_id = "";
  verbosity = "";
  pagination = none;
}

abbrev state : HttpState ℕ String String String String
state = record {
  server = record { cluster = 0; manager = manager };
  log = some [];
  query_cache = Cache.new_query_cache none;
  metrics = [];
}

http_tool_call-Genuine_example :
    Genuine digest marshal handler
      (http_tool_call digest marshal handler 5 clock headers request state).0.query_cache
http_tool_call-Genuine_example =
    http_tool_call-Genuine digest marshal handler 5 clock headers request state
      (new-Genuine digest marshal handler none)

abbrev response : ToolCallResponse String
response = record {
  success = true;
  result_data = plain "done";
  content = [];
  error = none;
  request_id = "r1";
  duration = 1;
  context = "dev";
  pagination = none;
}

delete_pod_listed : has "delete_pod" invalidating_tools ≡ true
unfolding has lookup
delete_pod_listed = refl

abbrev http_request : HttpRequest
http_request = record { method = "POST"; path = "/tool"; authorization = "bearer secret" }

abbrev parts : ServerParts ℕ
parts = record { rate_limiter = none; metrics = []; app = 0 }

serve-Served_example :
    Served "secret" http_request
      (λ n. (suc n, some 200))
      0
      (serve "secret" whole [] false http_request (λ n. (suc n, some 200)) parts).0.app
      (serve "secret" whole [] false http_request (λ n. (suc n, some 200)) parts).1
serve-Served_example =
    serve-Served "secret" http_request (λ n. (suc n, some 200)) whole [] false parts

abbrev timed_out : Option ErrorInfo
timed_out = some (record {
  kind = "TIMEOUT";
  code = "CONNECTION_TIMEOUT";
  message = "";
  details = "";
  suggestion = "";
})

tool_error-not_timeout_example :
    (get_http_status_from_error timed_out ≢ 408)
    × (error_type (get_http_status_from_error timed_out) ≢ "TIMEOUT")
    × ((get_http_status_from_error timed_out ≢ 504)
        ⊎ (error_type (get_http_status_from_error timed_out) ≡ "SERVER_ERROR"))
tool_error-not_timeout_example = tool_error-not_timeout timed_out

abbrev answer : HttpResponse String
answer = record {
  status = 400;
  body = record {
    success = false;
    result_data = ToolResult.nil_result;
    content = [];
    error = some (record {
      kind = "CLIENT_ERROR";
      code = "INVALID_TOOL_NAME";
      message = "工具名称不能为空";
      details = "";
      suggestion = "";
    });
    request_id = "r1";
    duration = 0;
    context = "";
    pagination = none;
  };
}

abbrev nameless : ToolCallRequest
nameless = record request { tool = "" }

http_tool_call-answer_example :
    Replayed digest marshal handler
      (bind_headers headers nameless)
      state
      (http_tool_call digest marshal handler 5 clock headers nameless state).0
      answer
    ⊎ Called digest marshal handler clock
        (bind_headers headers nameless)
        state
        (http_tool_call digest marshal handler 5 clock headers nameless state).0
        answer
unfolding http_tool_call bind_headers get_tool_name is_cacheable lookup call_and_cache
    handle_tool_call validate_request format_error_response status_code error_response
    get_http_status_from_error
http_tool_call-answer_example =
    http_tool_call-answer digest marshal handler 5 clock headers nameless state answer
      (new-Genuine digest marshal handler none) refl

abbrev two_permits : CompositeRateLimiter
two_permits = record {
  rate_limiter = none;
  concurrency_limiter = some (record { max_concurrent = 2; semaphore = 0; current = 0 });
}

abbrev limited : ServerParts ℕ
limited = record { rate_limiter = some two_permits; metrics = []; app = 0 }

serve-Keeps_example :
    Keeps two_permits.concurrency_limiter
      (serve "secret" whole [] false http_request (λ n. (suc n, some 200)) limited)
serve-Keeps_example =
    serve-Keeps "secret" whole [] false http_request (λ n. (suc n, some 200)) two_permits limited
      refl (omega arith)

-- a configuration that the server starts with
abbrev local_config : ServerConfig
local_config = record {
  port = pos 8080;
  kubeconfig_path = "/root/.kube/config";
  log_level = "info";
  log_format = "json";
  max_concurrent_requests = pos 100;
  request_timeout = pos 30000000000;
  enable_cache = true;
  cache_ttl = pos 300000000000;
}
