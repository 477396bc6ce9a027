-- ===== src/Mcp/Tests.antt =====
-- A server with one tool, and the theorems at requests that meet their hypotheses.
use kubectl_mcp.Prelude.{
  ℕ, suc, String, false, Option, none, some, [], ◌∷◌, ◌≡◌, ◌↔◌, ◌⊎◌, inl, refl, arith, string_eq,
}
use kubectl_mcp.GoMap.{lookup, has, insert}
use kubectl_mcp.Registry.{
  ToolCategory, Tool, ToolRegistry, has_tool, get_tool, register_tool, validate_args, execute_tool,
}
use kubectl_mcp.Registry.Tools.{IsWellFormed, register_tool-IsWellFormed}
use kubectl_mcp.K8s.{K8sClientManager, list_contexts}
use kubectl_mcp.Mcp.Chars.{all_chars}
use kubectl_mcp.Mcp.{ToolCallRequest, ToolResult, plain, ValidationError}
use kubectl_mcp.Mcp.Request.{
  get_tool_name, is_name_char, is_valid_tool_name, is_verbosity_valid, validate_request,
  inject_request_options, with_options,
}
use kubectl_mcp.Mcp.Request.Verdict.{IsAcceptable, validate_request_iff}
use kubectl_mcp.Mcp.Handler.{
  ServerState, McpHandler, Clock, handle_tool_call, target_context, execute_request,
  finish_response, format_response, success_response,
}
use kubectl_mcp.Mcp.Handler.Calls.{RefusedCall, ExecutedCall, PanickedCall, handle_tool_call-logged}
use kubectl_mcp.Mcp.Handler.Contexts.{answer_of, for_context, handle_tool_call-for_context}
use kubectl_mcp.Mcp.Handler.Success.{IsSuccess, Succeeded, handle_tool_call-Succeeded}

abbrev manager : K8sClientManager String String String
manager = record {
  kubeconfig_path = "config";
  raw_config = record { contexts = []; clusters = []; current_context = "dev" };
  contexts =
      ("dev", record { name = "dev"; cluster = "c1"; user = "u1"; namespace = "default" }) ∷ [];
  current_ctx = "dev";
  client_pool = [];
  service_indexers = [];
}

abbrev server : ServerState ℕ String String String
server = record { cluster = 0; manager = manager }

-- a tool that counts its runs
abbrev counter : Tool (ServerState ℕ String String String) (ToolResult String) String
counter = record {
  name = "get_pods";
  description = "";
  category = ToolCategory.query;
  requires_confirmation = false;
  input_schema = some (record { kind = "object"; properties = []; required = [] });
  handler = some (λ args s. (record s { cluster = suc s.cluster }, inl (plain "pods")));
  example = "";
  risk_level = "low";
}

abbrev tools : ToolRegistry (ServerState ℕ String String String) (ToolResult String) String
tools = ("get_pods", counter) ∷ []

abbrev handler : McpHandler (ServerState ℕ String String String) String
handler = record { tool_registry = tools; version = "1.0.0"; start_time = 0 }

abbrev marshal : ToolResult String → Option String
marshal r = some "json"

abbrev clock : Clock
clock = record { now = 10; duration = 2_000_000 }

abbrev request : ToolCallRequest
request = record {
  tool = "get_pods";
  name = "";
  arguments = some [];
  user = none;
  context = "";
  request_id = "r1";
  verbosity = "";
  pagination = none;
}

empty-IsWellFormed :
    IsWellFormed {W = ServerState ℕ String String String} {R = ToolResult String} {E = String} []
unfolding lookup
empty-IsWellFormed = record { distinct = tt; runnable = λ name tool found. ground arith }

tools-IsWellFormed : IsWellFormed tools
unfolding register_tool has lookup insert
tools-IsWellFormed = register_tool-IsWellFormed (some counter) [] empty-IsWellFormed

validate_request_iff_example :
    (validate_request tools (list_contexts manager) (some request) ≡ none)
    ↔ IsAcceptable tools (list_contexts manager) request
validate_request_iff_example = validate_request_iff tools (list_contexts manager) request

handle_tool_call-logged_example :
    ((e : ValidationError) × (validate_request tools (list_contexts manager) (some request)
        ≡ some e)
      × RefusedCall
          (some request)
          server
          (some [])
          e
          (handle_tool_call marshal clock handler (some request) server (some [])))
    ⊎ ((validate_request tools (list_contexts manager) (some request) ≡ none)
        × (PanickedCall
              (some [])
              (handle_tool_call marshal clock handler (some request) server (some []))
            ⊎ ExecutedCall request
                (target_context request manager)
                (some [])
                (handle_tool_call marshal clock handler (some request) server (some []))))
handle_tool_call-logged_example =
    handle_tool_call-logged marshal clock handler request server (some [])

request_succeeds :
    IsSuccess (handle_tool_call marshal clock handler (some request) server (some [])).response
unfolding handle_tool_call validate_request get_tool_name is_valid_tool_name all_chars is_name_char
    has_tool has lookup list_contexts execute_request inject_request_options with_options
    execute_tool get_tool validate_args finish_response format_response success_response IsSuccess
    is_verbosity_valid
request_succeeds = refl

handle_tool_call-Succeeded_example :
    IsAcceptable tools (list_contexts manager) request
    × Succeeded handler request server
        (handle_tool_call marshal clock handler (some request) server (some []))
handle_tool_call-Succeeded_example =
    handle_tool_call-Succeeded marshal clock handler request server (some []) tools-IsWellFormed
      request_succeeds

abbrev two_contexts : ServerState ℕ String String String
two_contexts = record {
  cluster = 0;
  manager = record manager {
    contexts =
        ("dev", record { name = "dev"; cluster = "c1"; user = "u1"; namespace = "default" })
        ∷ ("prod", record { name = "prod"; cluster = "c2"; user = "u2"; namespace = "default" })
        ∷ [];
  };
}

handle_tool_call-for_context_example :
    ((handle_tool_call marshal clock handler
        (some (for_context "prod" request))
        two_contexts
        (some [])).state
      ≡ (handle_tool_call marshal clock handler (some request) two_contexts (some [])).state)
    × (answer_of
          (handle_tool_call marshal clock handler
            (some (for_context "prod" request))
            two_contexts
            (some [])).response
        ≡ answer_of
            (handle_tool_call marshal clock handler (some request) two_contexts (some [])).response)
unfolding validate_request get_tool_name is_valid_tool_name all_chars is_name_char has_tool has
    lookup list_contexts
handle_tool_call-for_context_example =
    handle_tool_call-for_context marshal clock handler "prod" request two_contexts (some []) refl
      refl
